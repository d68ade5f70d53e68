-- ===== src/Tlv/Short.antt =====
-- Objects with a one-octet tag and a one-octet length, as the command builders write them.
use scll_rust.Prelude.{ℕ, ◌%◌, ◌<◌, ◌≡◌, ◌≢◌, refl, inl, List, [], ◌∷◌, ◌++◌, length, ok, arith}
use mathlib.Core.List.{append-nil}
use scll_rust.Prelude.Bits.{IsByte, IsBytes}
use scll_rust.Prelude.Heapless.{Heapless}
use scll_rust.Tlv.{Tlv, parse}
use scll_rust.Tlv.Grammar.{Objects, done, object}
use scll_rust.Tlv.Parse.{parse_iff}

-- A tag of one octet.
abbrev pub IsShortTag : ℕ → Type 0
IsShortTag t = t % 32 ≢ 31

pub Objects-short :
    (tag : ℕ) (value rest : List ℕ) {items : List Tlv}
    → IsShortTag tag
    → length value < 128
    → Objects rest items
    → Objects (tag ∷ length value ∷ value ++ rest) (record { tag = tag; value = value } ∷ items)
Objects-short tag value rest single short more =
    object (tag ∷ []) (length value ∷ []) rest (record { tag = tag; value = value }) (single, refl)
      (inl (short, refl, refl)) refl more

module _ ⦃hl : Heapless⦄ where
  pub parse_short :
      (tag : ℕ) (value : List ℕ)
      → IsByte tag
      → IsBytes value
      → IsShortTag tag
      → length value < 128
      → parse (tag ∷ length value ∷ value) ≡ ok (record { tag = tag; value = value } ∷ [])
  parse_short tag value ht hv single short =
      (parse_iff (tag ∷ length value ∷ value) _ (ht, (omega arith, hv))).1
        (rw (append-nil value) at (Objects-short tag value [] single short done), omega arith)
