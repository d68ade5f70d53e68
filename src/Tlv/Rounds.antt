-- ===== src/Tlv/Rounds.antt =====
-- One round of the loop in `parse` of crates/scll-core/src/tlv.rs: one object of the grammar.
use scll_rust.Prelude.{
  ℕ, ◌<◌, ◌≡◌, ◌≢◌, refl, List, [], ◌∷◌, ◌++◌, length, Result, ok, err, stuck, ◌>>=◌, length-append,
  arith, take-append-drop, take-append_length, drop-append_length, length-take,
}
use scll_rust.Prelude.Bits.{IsBytes}
use scll_rust.Tlv.{TlvError, Tlv, parse_tag, parse_len, split_value, parse_one}
use scll_rust.Tlv.Grammar.{TagOctets, LenOctets}
use scll_rust.Tlv.Decode.{
  parse_tag_sound, parse_tag_complete, parse_len_sound, parse_len_complete, parse_tag-ne-stuck,
  parse_len-ne-stuck,
}

pub IsBytes-left : (xs ys : List ℕ) → IsBytes (xs ++ ys) → IsBytes xs
IsBytes-left [] ys h = tt
IsBytes-left (x ∷ xs) ys h = (h.0, IsBytes-left xs ys h.1)

pub IsBytes-right : (xs ys : List ℕ) → IsBytes (xs ++ ys) → IsBytes ys
IsBytes-right [] ys h = h
IsBytes-right (x ∷ xs) ys h = IsBytes-right xs ys h.1

-- What one round of `parse` takes off the front of the input.
abbrev pub OneRead : List ℕ → Tlv → List ℕ → Type 0
OneRead input item rest =
    (t : List ℕ) × (l : List ℕ) × TagOctets t item.tag
    × LenOctets l (length item.value)
    × (input ≡ t ++ (l ++ (item.value ++ rest)))

split_value_sound :
    (len : ℕ) (input value rest : List ℕ)
    → split_value len input ≡ ok (value, rest)
    → (input ≡ value ++ rest) × (length value ≡ len)
split_value_sound len input value rest e =
    ground (arith, e, take-append-drop len input, length-take len input)

split_value_complete :
    (value rest : List ℕ) → split_value (length value) (value ++ rest) ≡ ok (value, rest)
split_value_complete value rest =
    ground (
      arith,
      take-append_length value rest,
      drop-append_length value rest,
      length-append value rest,
    )

-- The three results that a successful round is made of.
abbrev Round : List ℕ → Tlv → List ℕ → Type 0
Round input item rest =
    (after_tag : List ℕ) × (len : ℕ) × (after_len : List ℕ) × (parse_tag input
      ≡ ok (item.tag, after_tag))
    × (parse_len after_tag ≡ ok (len, after_len))
    × (split_value len after_len ≡ ok (item.value, rest))

abbrev value_step : ℕ → ℕ × List ℕ → Result TlvError (Tlv × List ℕ)
value_step tag (len, after_len) = do
  (value, rest) ← split_value len after_len
  ok (record { tag = tag; value = value }, rest)

parse_one-Round :
    (input : List ℕ) (item : Tlv) (rest : List ℕ)
    → parse_one input ≡ ok (item, rest)
    → Round input item rest
unfolding parse_one
parse_one-Round input item rest e = tag_read (parse_tag input) refl e
  where
    value_read :
        (tag : ℕ) (after_tag : List ℕ) (r : Result TlvError (ℕ × List ℕ))
        → parse_tag input ≡ ok (tag, after_tag)
        → parse_len after_tag ≡ r
        → (r >>= value_step tag) ≡ ok (item, rest)
        → Round input item rest
    value_read tag after_tag (ok (len, after_len)) p q f =
        (after_tag, len, after_len, ground (arith, f, p), q, ground (arith, f))
    value_read tag after_tag (err x) p q f = cc
    value_read tag after_tag stuck p q f = cc

    tag_read :
        (r : Result TlvError (ℕ × List ℕ))
        → parse_tag input ≡ r
        → (r >>= λ p. parse_len p.1 >>= value_step p.0) ≡ ok (item, rest)
        → Round input item rest
    tag_read (ok (tag, after_tag)) p f = value_read tag after_tag (parse_len after_tag) p refl f
    tag_read (err x) p f = cc
    tag_read stuck p f = cc

pub parse_one_sound :
    (input : List ℕ) (item : Tlv) (rest : List ℕ)
    → IsBytes input
    → parse_one input ≡ ok (item, rest)
    → OneRead input item rest
parse_one_sound input item rest hb e = tag_octets (parse_one-Round input item rest e)
  where
    len_octets :
        (t after_tag after_len : List ℕ) (len : ℕ)
        → input ≡ t ++ after_tag
        → TagOctets t item.tag
        → IsBytes after_tag
        → split_value len after_len ≡ ok (item.value, rest)
        → (l : List ℕ) × (after_tag ≡ l ++ after_len) × LenOctets l len
        → OneRead input item rest
    len_octets t after_tag after_len len i o hb' f (l, i', o') =
        let (i₃, o₃) = split_value_sound len after_len item.value rest f in
        (t, l, o, rw o₃ o', rw (i, i', i₃) refl)

    tag_octets : Round input item rest → OneRead input item rest
    tag_octets (after_tag, len, after_len, p, q, f) =
        let (t, i, o) = parse_tag_sound input item.tag after_tag hb p in
        let hb' : IsBytes after_tag = IsBytes-right t after_tag (rw i at hb) in
        len_octets t after_tag after_len len i o hb' f
          (parse_len_sound after_tag len after_len hb' q)

pub parse_one_complete :
    (t l : List ℕ) (item : Tlv) (rest : List ℕ)
    → IsBytes (t ++ (l ++ (item.value ++ rest)))
    → TagOctets t item.tag
    → LenOctets l (length item.value)
    → parse_one (t ++ (l ++ (item.value ++ rest))) ≡ ok (item, rest)
unfolding parse_one
parse_one_complete t l item rest hb o o' =
    let after_tag : List ℕ = l ++ (item.value ++ rest) in
    let hb' : IsBytes after_tag = IsBytes-right t after_tag hb in
    rw (parse_tag_complete t item.tag after_tag (IsBytes-left t after_tag hb) o) (
      rw
        (parse_len_complete l (length item.value) (item.value ++ rest)
          (IsBytes-left l (item.value ++ rest) hb') o')
        (rw (split_value_complete item.value rest) refl))

TagOctets-pos : (t : List ℕ) (n : ℕ) → TagOctets t n → 0 < length t
TagOctets-pos [] n o = elim o [ ]
TagOctets-pos (a ∷ t) n o = omega arith

pub parse_one_shorter :
    (input : List ℕ) (item : Tlv) (rest : List ℕ)
    → OneRead input item rest
    → length rest < length input
parse_one_shorter input item rest (t, l, o, o', i) = rw i (
    omega (
      arith,
      TagOctets-pos t item.tag o,
      length-append t (l ++ (item.value ++ rest)),
      length-append l (item.value ++ rest),
      length-append item.value rest,
    ))

-- What a round needs to know of the object at the front.
abbrev pub Front : List ℕ → Tlv → List ℕ → Type 0
Front input item rest =
    (parse_one input ≡ ok (item, rest)) × IsBytes rest × (length rest < length input)

pub OneRead-Front :
    (input : List ℕ) (item : Tlv) (rest : List ℕ)
    → IsBytes input
    → OneRead input item rest
    → Front input item rest
OneRead-Front input item rest hb (t, l, o, o', i) = (
  rw i (parse_one_complete t l item rest (rw i at hb) o o'),
  IsBytes-right item.value rest (
      IsBytes-right l (item.value ++ rest)
        (IsBytes-right t (l ++ (item.value ++ rest)) (rw i at hb))),
  parse_one_shorter input item rest (t, l, o, o', i),
)

value_step-ne-stuck : (tag : ℕ) (p : ℕ × List ℕ) → value_step tag p ≢ stuck
value_step-ne-stuck tag (len, after_len) e = ground (arith, e)

pub parse_one-ne-stuck : (input : List ℕ) → parse_one input ≢ stuck
unfolding parse_one
parse_one-ne-stuck input = tag_read (parse_tag input) (parse_tag-ne-stuck input)
  where
    len_read :
        (tag : ℕ) (r : Result TlvError (ℕ × List ℕ)) → r ≢ stuck → (r >>= value_step tag) ≢ stuck
    len_read tag (ok p) h = value_step-ne-stuck tag p
    len_read tag (err x) h = λ e. cc
    len_read tag stuck h = λ e. h refl

    tag_read :
        (r : Result TlvError (ℕ × List ℕ))
        → r ≢ stuck
        → (r >>= λ p. parse_len p.1 >>= value_step p.0) ≢ stuck
    tag_read (ok (tag, after_tag)) h =
        len_read tag (parse_len after_tag) (parse_len-ne-stuck after_tag)
    tag_read (err x) h = λ e. cc
    tag_read stuck h = λ e. h refl
