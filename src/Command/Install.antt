-- ===== src/Command/Install.antt =====
-- crates/scll-core/src/command/install.rs: the two INSTALL commands. `Fields` shows that a card
-- reads the length-prefixed fields that they were given.
pub mod Fields
use scll_rust.Prelude.{
  ℕ, List, [], ◌∷◌, Bool, true, false, ◌||◌, not, ◌==◌, take, if◌then◌else◌, Result, ok, err, stuck,
  ◌>>=◌,
}
use scll_rust.Prelude.Heapless.{Heapless}
use scll_rust.Command.{BuildError, push_lv, build}

pub data PrivLen : Type 0 where
  canonical jcop1_byte : PrivLen

-- `[u8; 3]`
pub record Privileges : Type 0 where
  pub byte_1 : ℕ
  pub byte_2 : ℕ
  pub byte_3 : ℕ

abbrev pub octets_of : Privileges → List ℕ
octets_of p = p.byte_1 ∷ p.byte_2 ∷ p.byte_3 ∷ []

-- The `match enc` of `push_privileges`.
abbrev pub selected_len : PrivLen → ℕ
selected_len canonical = 3
selected_len jcop1_byte = 1

unfoldable pub privileges_len : Privileges → PrivLen → ℕ
privileges_len p enc =
    let has_extended = not (p.byte_2 == 0) || not (p.byte_3 == 0) in
    if has_extended then 3 else selected_len enc

module _ ⦃hl : Heapless⦄ where
  unfoldable pub push_privileges : List ℕ → Privileges → PrivLen → Result BuildError (List ℕ)
  push_privileges field p enc = push_lv field (take (privileges_len p enc) (octets_of p))

  unfoldable pub install_for_load : List ℕ → List ℕ → List ℕ → Result BuildError (List ℕ)
  install_for_load package_aid target_sd_aid lfdb_hash = do
    d1 ← push_lv [] package_aid
    d2 ← push_lv d1 target_sd_aid
    d3 ← push_lv d2 lfdb_hash
    d4 ← push_lv d3 []
    d5 ← push_lv d4 []
    build 0x84 0xE6 0x02 0x00 d5 true

  unfoldable pub install_for_install_make_selectable :
      List ℕ → List ℕ → List ℕ → Privileges → PrivLen → List ℕ → Result BuildError (List ℕ)
  install_for_install_make_selectable elf_aid module_aid instance_aid privileges priv_len params =
      do
        d1 ← push_lv [] elf_aid
        d2 ← push_lv d1 module_aid
        d3 ← push_lv d2 instance_aid
        d4 ← push_privileges d3 privileges priv_len
        d5 ← push_lv d4 params
        d6 ← push_lv d5 []
        build 0x84 0xE6 0x0C 0x00 d6 true
