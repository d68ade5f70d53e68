-- ===== src/Tlv/Decode.antt =====
-- `parse` of crates/scll-core/src/tlv.rs reads exactly the sequences of the grammar.
use scll_rust.Prelude.{
  ℕ, zero, suc, ◌+◌, ◌*◌, ◌%◌, ◌^◌, ◌≤◌, ◌<◌, ◌≡◌, ◌≢◌, refl, ap, inl, inr, List, [], ◌∷◌, ◌++◌,
  bit_and, length, ltb, ◌==◌, ok, stuck, Bool-cases, arith,
}
use scll_rust.Prelude.Bits.{IsBytes, low_five, low_seven, top_bit}
use native.Mathlib.Numerals.{add-one}
use scll_rust.Tlv.{tag_loop, parse_tag, len_loop, parse_len, shift_in}
use scll_rust.Tlv.Grammar.{big_endian, TagTail, TagOctets, LenOctets}

-- 256 ^ k, by recursion.
unfoldable pub octet_bound : ℕ → ℕ
octet_bound zero = 1
octet_bound (suc k) = 256 * octet_bound k

pub octet_bound_step : (k : ℕ) → octet_bound (k + 1) ≡ 256 * octet_bound k
unfolding octet_bound
octet_bound_step k = rw add-one

octet_bound_three : (k : ℕ) → k ≤ 3 → octet_bound k ≤ 2 ^ 24
unfolding octet_bound
octet_bound_three zero h = omega arith
octet_bound_three (suc zero) h = omega arith
octet_bound_three (suc (suc zero)) h = omega arith
octet_bound_three (suc (suc (suc zero))) h = omega arith
octet_bound_three (suc (suc (suc (suc k)))) h = absurd (omega arith)

octet_bound_seven : (k : ℕ) → k ≤ 7 → octet_bound k ≤ 2 ^ 56
unfolding octet_bound
octet_bound_seven zero h = omega arith
octet_bound_seven (suc zero) h = omega arith
octet_bound_seven (suc (suc zero)) h = omega arith
octet_bound_seven (suc (suc (suc zero))) h = omega arith
octet_bound_seven (suc (suc (suc (suc k)))) h = omega (arith, octet_bound_three k (omega arith))

-- What `tag_loop` has read when it returns.
abbrev TagRead : List ℕ → ℕ → ℕ → ℕ → List ℕ → Type 0
TagRead input k acc n rest =
    (u : List ℕ) × (input ≡ u ++ rest) × TagTail u × (k + length u ≤ 4) × (n ≡ big_endian acc u)

TagTail-cons : (b : ℕ) (u : List ℕ) → 128 ≤ b → TagTail u → TagTail (b ∷ u)
TagTail-cons b [] h t = elim t [ ]
TagTail-cons b (c ∷ u) h t = (h, t)

TagRead-cons :
    (b : ℕ) (input : List ℕ) (k acc n : ℕ) (rest : List ℕ)
    → 128 ≤ b
    → TagRead input (k + 1) (acc * 256 + b) n rest
    → TagRead (b ∷ input) k acc n rest
TagRead-cons b input k acc n rest h (u, e, t, l, v) =
    (b ∷ u, ap (λ x. b ∷ x) e, TagTail-cons b u h t, omega arith, v)

shift_in_small : (k acc b : ℕ) → acc < octet_bound k → k ≤ 3 → shift_in acc b ≡ acc * 256 + b
shift_in_small k acc b h j = omega (arith, octet_bound_three k j)

tag_loop_sound :
    (input : List ℕ) (k acc n : ℕ) (rest : List ℕ)
    → IsBytes input
    → acc < octet_bound k
    → tag_loop input k acc ≡ ok (n, rest)
    → TagRead input k acc n rest
unfolding tag_loop
tag_loop_sound [] k acc n rest hb ha e = cc
tag_loop_sound (b ∷ bs) k acc n rest hb ha e = elim (Bool-cases (ltb 4 (k + 1))) [
  | inl long ↦ cc (rw long at e)
  | inr short ↦ elim (Bool-cases (bit_and b 0x80 == 0)) [
    | inl last ↦ (
      b ∷ [],
      ground (arith, e),
      ground (arith, top_bit b hb.0),
      ground arith,
      ground (arith, e, shift_in_small k acc b ha),
    )
    | inr more ↦ TagRead-cons b bs k acc n rest (ground (arith, top_bit b hb.0)) (
        tag_loop_sound bs (k + 1) (acc * 256 + b) n rest hb.1 (ground (arith, octet_bound_step k))
          (ground (arith, e, shift_in_small k acc b ha)))
  ]
]

-- `parse_tag` takes the octets of the tag that it returns off the front of the input.
pub parse_tag_sound :
    (input : List ℕ) (n : ℕ) (rest : List ℕ)
    → IsBytes input
    → parse_tag input ≡ ok (n, rest)
    → (t : List ℕ) × (input ≡ t ++ rest) × TagOctets t n
unfolding parse_tag octet_bound
parse_tag_sound [] n rest hb e = cc
parse_tag_sound (b ∷ bs) n rest hb e = elim (Bool-cases (bit_and b 0x1F == 0x1F)) [
  | inl multi ↦
      tail_octets b n rest bs (ground (arith, low_five b hb.0))
        (tag_loop_sound bs 1 b n rest hb.1 (omega arith) (ground (arith, e)))
  | inr single ↦ (b ∷ [], ground (arith, e), (ground (arith, low_five b hb.0), ground (arith, e)))
]
  where
    tail_octets :
        (a m : ℕ) (r s : List ℕ)
        → a % 32 ≡ 31
        → TagRead s 1 a m r
        → (t : List ℕ) × (a ∷ s ≡ t ++ r) × TagOctets t m
    tail_octets a m r s h ([], e', t, l, v) = elim t [ ]
    tail_octets a m r s h (c ∷ u, e', t, l, v) =
        (a ∷ c ∷ u, ap (λ x. a ∷ x) e', (h, t, omega arith, v))

-- What `len_loop` has read when it returns.
abbrev LenRead : ℕ → ℕ → List ℕ → ℕ → List ℕ → Type 0
LenRead count len input n rest =
    (u : List ℕ) × (input ≡ u ++ rest) × (length u ≡ count) × (n ≡ big_endian len u)

len_loop_sound :
    (count j len : ℕ) (input : List ℕ) (n : ℕ) (rest : List ℕ)
    → IsBytes input
    → len < octet_bound j
    → j + count ≤ 8
    → len_loop count len input ≡ ok (n, rest)
    → LenRead count len input n rest
unfolding len_loop
len_loop_sound zero j len input n rest hb hl hj e = ([], ground (arith, e), refl, ground (arith, e))
len_loop_sound (suc count) j len [] n rest hb hl hj e = cc
len_loop_sound (suc count) j len (b ∷ bs) n rest hb hl hj e =
    let small : j ≤ 7 = omega arith in
    let (u, e', l, v) =
      len_loop_sound count (j + 1) (len * 256 + b) bs n rest hb.1
        (ground (arith, octet_bound_step j)) (omega arith)
        (ground (arith, e, octet_bound_seven j small)) in
    (b ∷ u, ap (λ x. b ∷ x) e', omega arith, v)

-- `parse_len` takes the octets of the length that it returns off the front of the input.
pub parse_len_sound :
    (input : List ℕ) (n : ℕ) (rest : List ℕ)
    → IsBytes input
    → parse_len input ≡ ok (n, rest)
    → (l : List ℕ) × (input ≡ l ++ rest) × LenOctets l n
unfolding parse_len octet_bound
parse_len_sound [] n rest hb e = cc
parse_len_sound (b ∷ bs) n rest hb e = elim (Bool-cases (bit_and b 0x80 == 0)) [
  | inl short ↦
      (b ∷ [], ground (arith, e), inl (ground (arith, top_bit b hb.0), refl, ground (arith, e)))
  | inr long ↦ elim (Bool-cases (bit_and b 0x7F == 0)) [
    | inl zero_count ↦ ground (arith, e)
    | inr some_count ↦ elim (Bool-cases (ltb 8 (bit_and b 0x7F))) [
      | inl wide ↦ ground (arith, e)
      | inr narrow ↦
          let (u, e', l, v) =
            len_loop_sound (bit_and b 0x7F) 0 0 bs n rest hb.1 (omega arith) (ground arith)
              (ground (arith, e)) in
          (
            b ∷ u,
            ap (λ x. b ∷ x) e',
            inr (ground (arith, low_seven b hb.0, top_bit b hb.0), ground arith, ground arith, v),
          )
    ]
  ]
]

tag_loop_complete :
    (u : List ℕ) (k acc : ℕ) (rest : List ℕ)
    → IsBytes u
    → acc < octet_bound k
    → TagTail u
    → k + length u ≤ 4
    → tag_loop (u ++ rest) k acc ≡ ok (big_endian acc u, rest)
unfolding tag_loop
tag_loop_complete [] k acc rest hb ha t l = elim t [ ]
tag_loop_complete (b ∷ []) k acc rest hb ha t l =
    ground (arith, top_bit b hb.0, shift_in_small k acc b ha)
tag_loop_complete (b ∷ c ∷ u) k acc rest hb ha t l = ground (
  arith,
  top_bit b hb.0,
  shift_in_small k acc b ha,
  tag_loop_complete (c ∷ u) (k + 1) (acc * 256 + b) rest hb.1 (ground (arith, octet_bound_step k))
      t.1 (omega arith),
)

pub parse_tag_complete :
    (t : List ℕ) (n : ℕ) (rest : List ℕ)
    → IsBytes t
    → TagOctets t n
    → parse_tag (t ++ rest) ≡ ok (n, rest)
unfolding parse_tag octet_bound
parse_tag_complete [] n rest hb h = elim h [ ]
parse_tag_complete (a ∷ []) n rest hb h = ground (arith, low_five a hb.0)
parse_tag_complete (a ∷ b ∷ u) n rest hb (multi, tail, short, v) = ground (
  arith,
  low_five a hb.0,
  tag_loop_complete (b ∷ u) 1 a rest hb.1 (omega arith) tail (omega arith),
)

len_loop_complete :
    (u : List ℕ) (j len : ℕ) (rest : List ℕ)
    → IsBytes u
    → len < octet_bound j
    → j + length u ≤ 8
    → len_loop (length u) len (u ++ rest) ≡ ok (big_endian len u, rest)
unfolding len_loop
len_loop_complete [] j len rest hb hl hj = refl
len_loop_complete (b ∷ u) j len rest hb hl hj =
    let small : j ≤ 7 = omega arith in
    ground (
      arith,
      octet_bound_seven j small,
      len_loop_complete u (j + 1) (len * 256 + b) rest hb.1 (ground (arith, octet_bound_step j))
          (omega arith),
    )

pub parse_len_complete :
    (l : List ℕ) (n : ℕ) (rest : List ℕ)
    → IsBytes l
    → LenOctets l n
    → parse_len (l ++ rest) ≡ ok (n, rest)
unfolding parse_len octet_bound
parse_len_complete [] n rest hb h = elim h [ ]
parse_len_complete (b ∷ body) n rest hb (inl (small, none_left, v)) = ground (arith, top_bit b hb.0)
parse_len_complete (b ∷ body) n rest hb (inr (lead, some_body, short, v)) = ground (
  arith,
  top_bit b hb.0,
  low_seven b hb.0,
  len_loop_complete body 0 0 rest hb.1 (omega arith) (omega arith),
)

tag_loop-ne-stuck : (input : List ℕ) (k acc : ℕ) → tag_loop input k acc ≢ stuck
unfolding tag_loop
tag_loop-ne-stuck [] k acc e = cc
tag_loop-ne-stuck (b ∷ bs) k acc e = ground (arith, tag_loop-ne-stuck bs (k + 1) (shift_in acc b))

pub parse_tag-ne-stuck : (input : List ℕ) → parse_tag input ≢ stuck
unfolding parse_tag
parse_tag-ne-stuck [] e = cc
parse_tag-ne-stuck (b ∷ bs) e = ground (arith, tag_loop-ne-stuck bs 1 b)

len_loop-ne-stuck : (count len : ℕ) (input : List ℕ) → len_loop count len input ≢ stuck
unfolding len_loop
len_loop-ne-stuck zero len input e = cc
len_loop-ne-stuck (suc count) len [] e = cc
len_loop-ne-stuck (suc count) len (b ∷ bs) e = len_loop-ne-stuck count _ bs e

pub parse_len-ne-stuck : (input : List ℕ) → parse_len input ≢ stuck
unfolding parse_len
parse_len-ne-stuck [] e = cc
parse_len-ne-stuck (b ∷ bs) e = ground (arith, len_loop-ne-stuck (bit_and b 0x7F) 0 bs)
