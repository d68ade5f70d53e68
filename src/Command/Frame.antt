-- ===== src/Command/Frame.antt =====
-- What the framer of crates/scll-core/src/command/mod.rs returns.
use scll_rust.Prelude.{
  ℕ, ◌+◌, ◌≤◌, ◌≡◌, refl, List, [], ◌∷◌, ◌++◌, Bool, true, false, ◌&&◌, length, leb, if◌then◌else◌,
  ok, err, some, length-append, arith, take-append_length, drop-append_length,
}
use mathlib.Core.List.{append_assoc, append-nil}
use scll_rust.Prelude.Heapless.{Heapless}
use scll_rust.Command.{overflow, capdu_max, push, push_lv, push_body, build}
use scll_rust.Command.Apdu.{Apdu, octets, read_tail, read_apdu, lc_field, le_field, le_of}

-- A command with the header that a builder gives.
abbrev pub command : ℕ → ℕ → ℕ → ℕ → List ℕ → Bool → Apdu
command cla ins p1 p2 body le = record {
  cla = cla;
  ins = ins;
  p1 = p1;
  p2 = p2;
  body = body;
  le = le_of le;
}

length-lc_field : (body : List ℕ) → length (lc_field body) ≤ length body + 1
length-lc_field [] = omega arith
length-lc_field (b ∷ bs) = omega arith

pub length-octets :
    (cla ins p1 p2 : ℕ) (body : List ℕ) (le : Bool)
    → length body ≤ 255
    → length (octets (command cla ins p1 p2 body le)) ≤ capdu_max
unfolding octets
length-octets cla ins p1 p2 body true h =
    omega (arith, length-append (lc_field body) (0 ∷ []), length-lc_field body)
length-octets cla ins p1 p2 body false h =
    omega (arith, length-append (lc_field body) [], length-lc_field body)

read_tail_lem :
    (body : List ℕ) (le : Bool)
    → length body ≤ 255
    → read_tail (lc_field body ++ le_field (le_of le)) ≡ some (body, le_of le)
read_tail_lem [] true h = refl
read_tail_lem [] false h = refl
read_tail_lem (b ∷ bs) true h = ground (
  arith,
  length-append bs (0 ∷ []),
  take-append_length bs (0 ∷ []),
  drop-append_length bs (0 ∷ []),
)
read_tail_lem (b ∷ bs) false h = ground (arith, append-nil bs)

-- A card reads from the octets of a command the command that they were made from.
pub read_apdu-octets :
    (cla ins p1 p2 : ℕ) (body : List ℕ) (le : Bool)
    → length body ≤ 255
    → read_apdu (octets (command cla ins p1 p2 body le)) ≡ some (command cla ins p1 p2 body le)
unfolding read_apdu octets
read_apdu-octets cla ins p1 p2 body le h = rw (read_tail_lem body le h) refl

module _ ⦃hl : Heapless⦄ where
  pub push_lem :
      (out src : List ℕ)
      → push out src
        ≡ (if leb (length out + length src) capdu_max then ok (out ++ src) else err overflow)
  unfolding push
  push_lem out src = ground (arith, hl.extend_lem ℕ capdu_max out src)

  pub push_lv_lem :
      (out bytes : List ℕ)
      → push_lv out bytes ≡ (
          if leb (length bytes) 255 && leb (length out + 1 + length bytes) capdu_max
          then ok (out ++ (length bytes ∷ bytes))
          else err overflow)
  unfolding push_lv
  push_lv_lem out bytes = ground (
    arith,
    push_lem out (length bytes ∷ []),
    push_lem (out ++ (length bytes ∷ [])) bytes,
    length-append out (length bytes ∷ []),
    append_assoc out (length bytes ∷ []) bytes,
  )

  push_body_lem :
      (apdu body : List ℕ)
      → length apdu ≡ 4
      → push_body apdu body
        ≡ (if leb (length body) 255 then ok (apdu ++ lc_field body) else err overflow)
  unfolding push_body
  push_body_lem apdu [] h = ground (arith, append-nil apdu)
  push_body_lem apdu (b ∷ bs) h =
      let lc : List ℕ = length (b ∷ bs) ∷ [] in
      ground (
        arith,
        push_lem apdu lc,
        push_lem (apdu ++ lc) (b ∷ bs),
        length-append apdu lc,
        append_assoc apdu lc (b ∷ bs),
      )

  -- `build` returns the octets of the command exactly when the data are at most 255 octets, and
  -- `Overflow` if they are more.
  pub build_lem :
      (cla ins p1 p2 : ℕ) (body : List ℕ) (le : Bool)
      → build cla ins p1 p2 body le ≡ (
          if leb (length body) 255
          then ok (octets (command cla ins p1 p2 body le))
          else err overflow)
  unfolding build octets
  build_lem cla ins p1 p2 body true =
      let header : List ℕ = cla ∷ ins ∷ p1 ∷ p2 ∷ [] in
      ground (
        arith,
        push_lem [] header,
        push_body_lem header body refl,
        push_lem (header ++ lc_field body) (0 ∷ []),
        length-append header (lc_field body),
        length-lc_field body,
      )
  build_lem cla ins p1 p2 body false =
      let header : List ℕ = cla ∷ ins ∷ p1 ∷ p2 ∷ [] in
      ground (arith, push_lem [] header, push_body_lem header body refl, append-nil (lc_field body))
