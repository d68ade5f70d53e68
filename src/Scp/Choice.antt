-- ===== src/Scp/Choice.antt =====
-- What `select` and `i_supported` of crates/scll-core/src/scp choose.
use scll_rust.Prelude.{
  ℕ, ◌≤◌, ◌≡◌, refl, sym, List, [], ◌∷◌, ◌++◌, Bool, true, false, not, ◌||◌, ◌==◌, Option, none,
  some, All, arith,
}
use scll_rust.Prelude.Bits.{IsByte, passes, passes_at}
use scll_rust.Scp.{ScpVariant, scp02, scp03, i_supported}

-- The `i` parameters of Amendment D, table 5-1, that are in scope: S8 or S16, random or
-- pseudo-random challenges, and no response security, R-MAC, or R-MAC with R-ENCRYPTION.
abbrev pub i_values : List ℕ
i_values = 0x00 ∷ 0x08 ∷ 0x10 ∷ 0x18 ∷ 0x20 ∷ 0x28 ∷ 0x30 ∷ 0x38 ∷ 0x60 ∷ 0x68 ∷ 0x70 ∷ 0x78 ∷ []

unfoldable pub listed : ℕ → List ℕ → Bool
listed n [] = false
listed n (m ∷ ms) = n == m || listed n ms

-- The octets that `i_supported` accepts are exactly the twelve `i` parameters that are in scope.
pub i_supported-listed : (i : ℕ) → IsByte i → i_supported i ≡ listed i i_values
unfolding i_supported listed passes
i_supported-listed i h = agree (i_supported i) (listed i i_values) (
    passes_at (λ x. same (i_supported x) (listed x i_values)) 0 256 i refl (omega arith)
      (omega arith))
  where
    same : Bool → Bool → Bool
    same true b = b
    same false b = not b

    agree : (a b : Bool) → same a b ≡ true → a ≡ b
    agree true b h = sym h
    agree false b h = ground arith

-- `v` stands in the list.
abbrev pub StandsIn : ScpVariant → List ScpVariant → Type 0
StandsIn v vs = (before after : List ScpVariant) × (vs ≡ before ++ (v ∷ after))

-- `v` is no SCP03 variant in scope with a larger parameter than `i`.
abbrev pub NoBetter : ℕ → ScpVariant → Type 0
NoBetter i v = (j : ℕ) → v ≡ scp03 j → i_supported j ≡ true → j ≤ i

abbrev pub OutOfScope : ScpVariant → Type 0
OutOfScope v = (j : ℕ) → v ≡ scp03 j → i_supported j ≡ false

abbrev pub IsScp03 : ScpVariant → Type 0
IsScp03 v = (i : ℕ) × (v ≡ scp03 i)

-- The rule of the selection: SCP03 with the highest parameter in scope; else the first SCP02
-- variant; else nothing.
pub data Rule (advertised : List ScpVariant) : Option ScpVariant → Type 0 where
  best :
      (i : ℕ)
      → StandsIn (scp03 i) advertised
      → i_supported i ≡ true
      → All (NoBetter i) advertised
      → Rule advertised (some (scp03 i))
  first :
      (i : ℕ) (before after : List ScpVariant)
      → advertised ≡ before ++ (scp02 i ∷ after)
      → All IsScp03 before
      → All OutOfScope advertised
      → Rule advertised (some (scp02 i))
  neither : All IsScp03 advertised → All OutOfScope advertised → Rule advertised none

-- What the maximum over the list is.
pub data Scan (vs : List ScpVariant) : Option ℕ → Type 0 where
  found :
      (i : ℕ)
      → StandsIn (scp03 i) vs
      → i_supported i ≡ true
      → All (NoBetter i) vs
      → Scan vs (some i)
  missing : All OutOfScope vs → Scan vs none

-- What the search for an SCP02 variant finds.
data First (vs : List ScpVariant) : Option ScpVariant → Type 0 where
  at :
      (i : ℕ) (before after : List ScpVariant)
      → vs ≡ before ++ (scp02 i ∷ after)
      → All IsScp03 before
      → First vs (some (scp02 i))
  nowhere : All IsScp03 vs → First vs none
