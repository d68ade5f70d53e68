-- ===== src/Tlv/Grammar.antt =====
-- The BER-TLV grammar of ISO/IEC 7816-4 that crates/scll-core/src/tlv.rs reads and writes, stated
-- without the code: which octets stand for a tag, for a length and for a sequence of objects.
use scll_rust.Prelude.{ℕ, ◌+◌, ◌*◌, ◌^◌, ◌%◌, ◌≤◌, ◌<◌, ◌≡◌, ◌≢◌, ◌⊎◌, List, [], ◌∷◌, ◌++◌, length}
use scll_rust.Prelude.Bits.{IsBytes}
use scll_rust.Tlv.{Tlv}

-- The number that `bs` stands for, most significant octet first, after `acc`.
abbrev pub big_endian : ℕ → List ℕ → ℕ
big_endian acc [] = acc
big_endian acc (b ∷ bs) = big_endian (acc * 256 + b) bs

-- All octets but the last have bit 8 set.
abbrev pub TagTail : List ℕ → Type 0
TagTail [] = ⊥
TagTail (b ∷ []) = b < 128
TagTail (b ∷ c ∷ bs) = (128 ≤ b) × TagTail (c ∷ bs)

-- One octet, or two to four of which the first has its low five bits set.
abbrev pub TagOctets : List ℕ → ℕ → Type 0
TagOctets [] t = ⊥
TagOctets (a ∷ []) t = (a % 32 ≢ 31) × (t ≡ a)
TagOctets (a ∷ b ∷ bs) t =
    (a % 32 ≡ 31) × TagTail (b ∷ bs) × (length bs ≤ 2) × (t ≡ big_endian a (b ∷ bs))

-- The short form, or the long form with one to eight octets.
abbrev pub LenOctets : List ℕ → ℕ → Type 0
LenOctets [] n = ⊥
LenOctets (b ∷ body) n =
    ((b < 128) × (body ≡ []) × (n ≡ b))
    ⊎ ((b ≡ 128 + length body) × (0 < length body) × (length body ≤ 8) × (n ≡ big_endian 0 body))

pub data Objects : List ℕ → List Tlv → Type 0 where
  done : Objects [] []
  object :
      (t l rest : List ℕ) (item : Tlv) {items : List Tlv} {input : List ℕ}
      → TagOctets t item.tag
      → LenOctets l (length item.value)
      → input ≡ t ++ (l ++ (item.value ++ rest))
      → Objects rest items
      → Objects input (item ∷ items)

-- A tag that has octets of its own.
abbrev pub IsTag : ℕ → Type 0
IsTag t = (o : List ℕ) × IsBytes o × TagOctets o t

-- An object that an encoder may be given: such a tag, and a byte slice that a `usize` can measure.
pub record IsEncodable (item : Tlv) : Type 0 where
  pub has_tag : IsTag item.tag
  pub bytes : IsBytes item.value
  pub sized : length item.value < 2 ^ 64
