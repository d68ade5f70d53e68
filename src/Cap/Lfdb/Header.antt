-- ===== src/Cap/Lfdb/Header.antt =====
-- The header of the Load File Data Block in crates/scll-core/src/cap/mod.rs frames the load file.
use scll_rust.Prelude.{
  ℕ, ◌+◌, ◌*◌, ◌/◌, ◌%◌, ◌^◌, ◌≤◌, ◌<◌, ◌≡◌, inl, inr, refl, ap, List, [], ◌∷◌, ◌++◌, length, take,
  leb, leb→le, ltb, ok, arith, Bool-cases, All-append,
}
use scll_rust.Prelude.Bits.{IsByte, IsBytes}
use scll_rust.Prelude.Heapless.{Heapless}
use mathlib.Core.List.{append-nil}
use scll_rust.Tlv.{parse}
use scll_rust.Tlv.Grammar.{Objects, done, object, LenOctets}
use scll_rust.Tlv.Parse.{parse_iff}
use scll_rust.Cap.Lfdb.{LfdbHeader, new, remaining}

-- The octets of the header.
abbrev pub octets : LfdbHeader → List ℕ
octets h = take h.len h.buf

two_octets : (n : ℕ) → n ≤ 0xFFFF → n ≡ (0 + n / 256 % 256) * 256 + n % 256
two_octets n h = omega (arith, h)

three_octets :
    (n : ℕ) → n < 2 ^ 24 → n ≡ ((0 + n / 65536 % 256) * 256 + n / 256 % 256) * 256 + n % 256
three_octets n h = omega (arith, h)

-- The header is the tag 0xC4 and length octets for the content.
new-LenOctets :
    (n : ℕ)
    → n < 2 ^ 24
    → (l : List ℕ) × (octets (new n) ≡ 0xC4 ∷ l)
      × LenOctets l n
      × IsBytes l
      × ((new n).len ≡ 1 + length l)
      × ((new n).emitted ≡ 0)
unfolding new
new-LenOctets n h = elim (Bool-cases (ltb n 0x80)) [
  | inl short ↦ rw (short) (
    n % 256 ∷ [],
    refl,
    inl (ground (arith, short), refl, ground (arith, short)),
    (omega arith, tt),
    refl,
    refl,
  )
  | inr b1 ↦ elim (Bool-cases (leb n 0xFF)) [
    | inl one ↦
        rw (b1, one)
          (
            0x81 ∷ n % 256 ∷ [],
            refl,
            inr (refl, omega arith, omega arith, ground (arith, one)),
            (omega arith, (omega arith, tt)),
            refl,
            refl,
          )
    | inr b2 ↦ elim (Bool-cases (leb n 0xFFFF)) [
      | inl two ↦
          rw (b1, b2, two)
            (
              0x82 ∷ n / 256 % 256 ∷ n % 256 ∷ [],
              refl,
              inr (refl, omega arith, omega arith, two_octets n (leb→le _ _ two)),
              (omega arith, (omega arith, (omega arith, tt))),
              refl,
              refl,
            )
      | inr b3 ↦
          rw (b1, b2, b3)
            (
              0x83 ∷ n / 65536 % 256 ∷ n / 256 % 256 ∷ n % 256 ∷ [],
              refl,
              inr (refl, omega arith, omega arith, three_octets n h),
              (omega arith, (omega arith, (omega arith, (omega arith, tt)))),
              refl,
              refl,
            )
    ]
  ]
]

module _ ⦃hl : Heapless⦄ where
  -- For a load file of fewer than 2 ^ 24 octets, the header followed by the load file is what `parse`
  -- reads as one object with the tag 0xC4 and the load file as its value; and the length of the header
  -- is the one that it announces.
  pub new-parse :
      (content : List ℕ)
      → IsBytes content
      → length content < 2 ^ 24
      → (parse (octets (new (length content)) ++ content)
          ≡ ok (record { tag = 0xC4; value = content } ∷ []))
        × (remaining (new (length content)) ≡ length (octets (new (length content))))
  new-parse content bytes small =
      let (l, starts, read, l_bytes, size, fresh) = new-LenOctets (length content) small in
      let whole : Objects (octets (new (length content)) ++ content)
          (record { tag = 0xC4; value = content } ∷ []) =
        object (0xC4 ∷ []) l [] (record { tag = 0xC4; value = content }) (omega arith, refl) read
          (rw (starts, append-nil content) refl) done in
      (
        (parse_iff (octets (new (length content)) ++ content) _
              (rw (starts) (All-append IsByte (0xC4 ∷ l) content (omega arith, l_bytes) bytes))).1
            (whole, omega arith),
        omega (arith, size, fresh, ap (λ k. length k) starts),
      )
