-- ===== src/Scp.antt =====
-- crates/scll-core/src/scp/mod.rs: the choice of the secure channel protocol. `Backend` is the
-- interface to the cryptography, `Scp03` and `Scp02` are the host's side of the two protocols,
-- and `Choice` is about the function below.
pub mod Backend
pub mod Scp02
pub mod Sessions
pub mod Scp03
pub mod Choice
use scll_rust.Prelude.{
  ℕ, ◌-◌, List, [], ◌∷◌, Bool, true, false, not, ◌&&◌, ltb, ◌==◌, bit_and, bit_or, if◌then◌else◌,
  Option, none, some,
}

pub data ScpVariant : Type 0 where
  scp02 scp03 : ℕ → ScpVariant

abbrev pub i_s16 : ℕ
i_s16 = 0x08

abbrev pub i_pseudo_random : ℕ
i_pseudo_random = 0x10

abbrev pub i_rmac : ℕ
i_rmac = 0x20

abbrev pub i_renc : ℕ
i_renc = 0x40

-- `!` on a `u8`
abbrev pub bit_not : ℕ → ℕ
bit_not b = 0xFF - b

unfoldable pub i_supported : ℕ → Bool
i_supported i_param =
    if not (
      bit_and i_param (bit_not (bit_or (bit_or (bit_or i_s16 i_pseudo_random) i_rmac) i_renc)) == 0)
    then false
    else not (not (bit_and i_param i_renc == 0) && bit_and i_param i_rmac == 0)

abbrev pub larger : ℕ → Option ℕ → Option ℕ
larger n none = some n
larger n (some m) = some (if ltb m n then n else m)

-- `Iterator::max`
abbrev pub max_of : List ℕ → Option ℕ
max_of [] = none
max_of (n ∷ ns) = larger n (max_of ns)

-- The closure of `filter_map`.
unfoldable pub in_scope : ScpVariant → Option ℕ
in_scope (scp03 i_param) = if i_supported i_param then some i_param else none
in_scope (scp02 i_param) = none

abbrev pub prepend {ℓ} : {B : Type ℓ} → Option B → List B → List B
prepend none bs = bs
prepend (some b) bs = b ∷ bs

abbrev pub filter_map {ℓ κ} : {A : Type ℓ} {B : Type κ} → (A → Option B) → List A → List B
filter_map f [] = []
filter_map f (a ∷ rest) = prepend (f a) (filter_map f rest)

-- The closure of `find_map`.
abbrev pub as_scp02 : ScpVariant → Option ScpVariant
as_scp02 (scp02 i_param) = some (scp02 i_param)
as_scp02 (scp03 i_param) = none

abbrev pub or_else {ℓ} : {B : Type ℓ} → Option B → Option B → Option B
or_else none later = later
or_else (some b) later = some b

abbrev pub find_map {ℓ κ} : {A : Type ℓ} {B : Type κ} → (A → Option B) → List A → Option B
find_map f [] = none
find_map f (a ∷ rest) = or_else (f a) (find_map f rest)

unfoldable pub select : List ScpVariant → Option ScpVariant → Option ScpVariant
select advertised (some forced) = some forced
select advertised none = elim (max_of (filter_map in_scope advertised)) [
  | some i_param ↦ some (scp03 i_param)
  | none ↦ find_map as_scp02 advertised
]
