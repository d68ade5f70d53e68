-- ===== src/Tlv/Encode.antt =====
-- What `encode` of crates/scll-core/src/tlv.rs writes, and when it reports `Overflow`.
use scll_rust.Prelude.{
  ℕ, ◌+◌, ◌/◌, ◌%◌, ◌^◌, ◌≤◌, ◌<◌, ◌≡◌, refl, sym, ◌∙◌, inl, inr, List, [], ◌∷◌, ◌++◌, length, ltb,
  leb, if◌then◌else◌, All, Result, ok, err, ◌>>=◌, Bool-cases, length-append, arith, le→leb,
}
use mathlib.Core.List.{append_assoc, append-nil}
use scll_rust.Prelude.Bits.{IsBytes, set_top_bit}
use scll_rust.Tlv.{
  TlvError, overflow, Tlv, be_bytes4, be_bytes8, significant, write_bytes, write_tag, write_len,
  encode_from, encode,
}
use scll_rust.Tlv.Grammar.{big_endian, TagOctets, LenOctets}

-- The canonical octets of a tag, of a length and of a sequence of objects.
unfoldable pub tag_octets : ℕ → List ℕ
tag_octets t = significant (be_bytes4 t)

unfoldable pub len_octets : ℕ → List ℕ
len_octets n =
    if ltb n 0x80
    then n ∷ []
    else (128 + length (significant (be_bytes8 n))) ∷ significant (be_bytes8 n)

abbrev pub encoding : List Tlv → List ℕ
encoding [] = []
encoding (item ∷ items) =
    tag_octets item.tag ++ (len_octets (length item.value) ++ (item.value ++ encoding items))

significant_bounds :
    (b : ℕ) (bs : List ℕ)
    → (1 ≤ length (significant (b ∷ bs))) × (length (significant (b ∷ bs)) ≤ length bs + 1)
unfolding significant
significant_bounds b [] = omega arith
significant_bounds b (c ∷ bs) = ground (arith, significant_bounds c bs)

big_endian-significant :
    (b : ℕ) (bs : List ℕ) → big_endian 0 (significant (b ∷ bs)) ≡ big_endian 0 (b ∷ bs)
unfolding significant
big_endian-significant b [] = refl
big_endian-significant b (c ∷ bs) = ground (arith, big_endian-significant c bs)

significant-IsBytes : (bs : List ℕ) → IsBytes bs → IsBytes (significant bs)
unfolding significant
significant-IsBytes [] h = tt
significant-IsBytes (b ∷ []) h = h
significant-IsBytes (b ∷ c ∷ bs) h = ground (arith, significant-IsBytes (c ∷ bs) h.1)

be_bytes8-IsBytes : (n : ℕ) → IsBytes (be_bytes8 n)
be_bytes8-IsBytes n = omega arith

be_bytes4-IsBytes : (n : ℕ) → IsBytes (be_bytes4 n)
be_bytes4-IsBytes n = omega arith

big_endian-be_bytes8 : (n : ℕ) → n < 2 ^ 64 → big_endian 0 (be_bytes8 n) ≡ n
big_endian-be_bytes8 n h = omega arith

significant-be_bytes8 :
    (n : ℕ)
    → n < 2 ^ 64
    → (1 ≤ length (significant (be_bytes8 n)))
      × (length (significant (be_bytes8 n)) ≤ 8)
      × (n ≡ big_endian 0 (significant (be_bytes8 n)))
significant-be_bytes8 n h =
    let bounds = significant_bounds (n / 2 ^ 56 % 256) (low_octets n) in
    (
      bounds.0,
      bounds.1,
      sym (big_endian-significant (n / 2 ^ 56 % 256) (low_octets n) ∙ big_endian-be_bytes8 n h),
    )
  where
    low_octets : ℕ → List ℕ
    low_octets m = m / 2 ^ 48 % 256 ∷ m / 2 ^ 40 % 256 ∷ m / 2 ^ 32 % 256 ∷ be_bytes4 m

pub significant_eight : (n : ℕ) → length (significant (be_bytes8 n)) ≤ 8
unfolding significant
significant_eight n = ground arith

pub len_octets-LenOctets : (n : ℕ) → n < 2 ^ 64 → LenOctets (len_octets n) n
unfolding len_octets
len_octets-LenOctets n h = elim (Bool-cases (ltb n 0x80)) [
  | inl short ↦ rw short (inl (ground arith, refl, refl))
  | inr long ↦ let (lo, hi, v) = significant-be_bytes8 n h in rw long (inr (refl, lo, hi, v))
]

pub len_octets-IsBytes : (n : ℕ) → n < 2 ^ 64 → IsBytes (len_octets n)
unfolding len_octets
len_octets-IsBytes n h = elim (Bool-cases (ltb n 0x80)) [
  | inl short ↦ rw short (ground arith)
  | inr long ↦ rw long (
    ground (arith, significant-be_bytes8 n h),
    significant-IsBytes (be_bytes8 n) (be_bytes8-IsBytes n),
  )
]

pub tag_octets-IsBytes : (t : ℕ) → IsBytes (tag_octets t)
unfolding tag_octets
tag_octets-IsBytes t = significant-IsBytes (be_bytes4 t) (be_bytes4-IsBytes t)

-- The octets of a tag are the only ones that stand for it.
pub tag_octets_unique : (o : List ℕ) (t : ℕ) → IsBytes o → TagOctets o t → o ≡ tag_octets t
unfolding tag_octets significant
tag_octets_unique [] t hb h = elim h [ ]
tag_octets_unique (a ∷ []) t hb h = ground arith
tag_octets_unique (a ∷ b ∷ []) t hb h = ground arith
tag_octets_unique (a ∷ b ∷ c ∷ []) t hb h = ground arith
tag_octets_unique (a ∷ b ∷ c ∷ d ∷ []) t hb h = ground arith
tag_octets_unique (a ∷ b ∷ c ∷ d ∷ e ∷ o) t hb h = absurd (omega arith)

-- `src` written after `out` into `size` octets.
abbrev pub fit : ℕ → List ℕ → List ℕ → Result TlvError (List ℕ)
fit size out src = if leb (length out + length src) size then ok (out ++ src) else err overflow

write_bytes_lem : (size : ℕ) (out src : List ℕ) → write_bytes size out src ≡ fit size out src
unfolding write_bytes
write_bytes_lem size out src = ground arith

write_tag_lem : (size t : ℕ) (out : List ℕ) → write_tag size t out ≡ fit size out (tag_octets t)
unfolding write_tag tag_octets
write_tag_lem size t out = write_bytes_lem size out (significant (be_bytes4 t))

-- Two pieces in a row fit exactly when their concatenation does.
fit_then :
    (size : ℕ) (out a b : List ℕ) (k : List ℕ → Result TlvError (List ℕ))
    → ((out' : List ℕ) → length out' ≤ size → k out' ≡ fit size out' b)
    → (fit size out a >>= k) ≡ fit size out (a ++ b)
fit_then size out a b k h = elim (Bool-cases (leb (length out + length a) size)) [
  | inl room ↦ rw room (
      h (out ++ a) (ground (arith, length-append out a))
      ∙ ground (arith, length-append out a, length-append a b, append_assoc out a b))
  | inr full ↦ ground (arith, length-append a b)
]

write_len_lem :
    (size n : ℕ) (out : List ℕ) → n < 2 ^ 64 → write_len size n out ≡ fit size out (len_octets n)
unfolding write_len len_octets
write_len_lem size n out h = elim (Bool-cases (ltb n 0x80)) [
  | inl short ↦ rw short (write_bytes_lem size out (n ∷ []))
  | inr long ↦
      let (lo, hi, v) = significant-be_bytes8 n h in
      rw (long, set_top_bit (length (significant (be_bytes8 n))) (omega arith), write_bytes_lem)
        ((fit_then size out ((128 + length (significant (be_bytes8 n))) ∷ [])
          (significant (be_bytes8 n)) _
          (λ out' fits. write_bytes_lem size out' (significant (be_bytes8 n)))))
]

-- A value's length is a `usize`.
abbrev pub IsSized : Tlv → Type 0
IsSized item = length item.value < 2 ^ 64

encode_from_lem :
    (size : ℕ) (out : List ℕ) (items : List Tlv)
    → All IsSized items
    → length out ≤ size
    → encode_from size out items ≡ fit size out (encoding items)
unfolding encode_from
encode_from_lem size out [] sized h =
    rw (append-nil out, le→leb (length out + 0) size (omega arith)) refl
encode_from_lem size out (item ∷ items) sized h =
    let len : List ℕ = len_octets (length item.value) in
    rw write_tag_lem (
      fit_then size out (tag_octets item.tag) (len ++ (item.value ++ encoding items)) _ (λ out₁ h₁.
        rw (write_len_lem size (length item.value) out₁ sized.0) (
          fit_then size out₁ len (item.value ++ encoding items) _ (λ out₂ h₂. rw write_bytes_lem (
            fit_then size out₂ item.value (encoding items) _
              (λ out₃ h₃. encode_from_lem size out₃ items sized.1 h₃))))))

-- Into `size` octets, `encode` writes the canonical octets of its objects and nothing else, and it
-- reports `Overflow` exactly when they are more than `size`.
pub encode_lem :
    (size : ℕ) (items : List Tlv)
    → All IsSized items
    → encode size items
      ≡ (if leb (length (encoding items)) size then ok (encoding items) else err overflow)
unfolding encode
encode_lem size items sized = ground (arith, encode_from_lem size [] items sized (omega arith))
