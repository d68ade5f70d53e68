-- ===== src/Response/Status.antt =====
-- crates/scll-core/src/response.rs: what is read from the data of GET STATUS, and the Card Capability
-- Information. `Bounds` is about the sizes of what is returned.
pub mod Bounds
use scll_rust.Prelude.{
  ℕ, List, [], ◌∷◌, Bool, is_empty, length, min, take, ◌==◌, if◌then◌else◌, Option, none, some,
  Result, ok, err, stuck, ◌>>=◌,
}
use scll_rust.Prelude.Heapless.{Heapless}
use scll_rust.Tlv.{Tlv, TlvError, parse}
use scll_rust.Lifecycle.{CardLifeCycle, decode_life_cycle}
use scll_rust.Response.{find, unwrap_or}

-- limits.rs, `GETDATA_RAW_MAX`, `MAX_PRIVILEGE_BYTES`, `MAX_MODULES_PER_ELF`, `MAX_REGISTRY_ENTRIES`
abbrev pub getdata_raw_max : ℕ
getdata_raw_max = 256

abbrev pub max_privilege_bytes : ℕ
max_privilege_bytes = 8

abbrev pub max_modules_per_elf : ℕ
max_modules_per_elf = 16

abbrev pub max_registry_entries : ℕ
max_registry_entries = 64

-- `v.first()`
abbrev pub first_of : List ℕ → Option ℕ
first_of [] = none
first_of (b ∷ bs) = some b

-- The fields that the parser never fills, `ciphers_supported` and `memory_*`, are left out.
pub record CardCapabilities : Type 0 where
  pub max_logical_channels : ℕ
  pub privileges_supported : List ℕ
  pub cci_raw : List ℕ

pub record RegistryEntry : Type 0 where
  pub aid : List ℕ
  pub life_cycle : ℕ
  pub privileges : ℕ × ℕ × ℕ
  pub associated_sd_aid : Option (List ℕ)
  pub elf_aid : Option (List ℕ)
  pub modules : List (List ℕ)

unfoldable pub privileges_to_3 : Option (List ℕ) → ℕ × ℕ × ℕ
privileges_to_3 none = (0, 0, 0)
privileges_to_3 (some []) = (0, 0, 0)
privileges_to_3 (some (a ∷ [])) = (a, 0, 0)
privileges_to_3 (some (a ∷ b ∷ [])) = (a, b, 0)
privileges_to_3 (some (a ∷ b ∷ c ∷ rest)) = (a, b, c)

-- `.map(|&b| decode_life_cycle(b))`
abbrev pub decoded : Option ℕ → Option CardLifeCycle
decoded none = none
decoded (some b) = some (decode_life_cycle b)

abbrev pub first_in : Option (List ℕ) → Option ℕ
first_in none = none
first_in (some v) = first_of v

module _ ⦃hl : Heapless⦄ where
  -- `let _ = v.extend_from_slice(src)` on a fresh vector: it stays empty if the source is too long.
  unfoldable pub filled_vec : ℕ → List ℕ → List ℕ
  filled_vec size src = unwrap_or (hl.extend size [] src) []

  unfoldable pub parse_card_capabilities : List ℕ → Result TlvError CardCapabilities
  parse_card_capabilities bytes =
      let raw = filled_vec getdata_raw_max (take (min (length bytes) getdata_raw_max) bytes) in
      if is_empty bytes
      then ok (record { max_logical_channels = 1; privileges_supported = []; cci_raw = raw })
      else (parse bytes >>= λ top. parse (unwrap_or (find top 0x67) bytes) >>= λ subs. ok (record {
        max_logical_channels = unwrap_or (first_in (find subs 0xA0)) 1;
        privileges_supported = supported (find subs 0xA3);
        cci_raw = raw;
      }))
    where
      supported : Option (List ℕ) → List ℕ
      supported none = []
      supported (some privileges) =
          filled_vec max_privilege_bytes
            (take (min (length privileges) max_privilege_bytes) privileges)

  unfoldable pub parse_status_e3 : List ℕ → Result TlvError (Option CardLifeCycle)
  parse_status_e3 bytes =
      if is_empty bytes then ok none else (parse bytes >>= λ top. in_registry (find top 0xE3))
    where
      in_registry : Option (List ℕ) → Result TlvError (Option CardLifeCycle)
      in_registry none = ok none
      in_registry (some registry) =
          parse registry >>= λ fields. ok (decoded (first_in (find fields 0x9F70)))

  -- The loop over the fields with the tag '84'; it stops at the first module that does not fit.
  unfoldable pub push_modules : List Tlv → List (List ℕ) → List (List ℕ)
  push_modules [] modules = modules
  push_modules (field ∷ fields) modules =
      if field.tag == 0x84
      then go_on (hl.push max_modules_per_elf modules field.value)
          (λ more. push_modules fields more)
      else push_modules fields modules
    where
      go_on : Option (List (List ℕ)) → (List (List ℕ) → List (List ℕ)) → List (List ℕ)
      go_on none rest = modules
      go_on (some more) rest = rest more

  unfoldable pub registry_entry : List Tlv → RegistryEntry
  registry_entry fields = record {
    aid = unwrap_or (find fields 0x4F) [];
    life_cycle = unwrap_or (first_in (find fields 0x9F70)) 0;
    privileges = privileges_to_3 (find fields 0xC5);
    associated_sd_aid = find fields 0xCC;
    elf_aid = find fields 0xC4;
    modules = push_modules fields [];
  }

  -- The loop over the entries 'E3'; it stops at the first entry that does not fit.
  unfoldable pub registry_entries :
      List Tlv → List RegistryEntry → Result TlvError (List RegistryEntry)
  registry_entries [] out = ok out
  registry_entries (e3 ∷ rest) out =
      if e3.tag == 0xE3
      then (parse e3.value >>= λ fields.
          go_on (hl.push max_registry_entries out (registry_entry fields))
            (λ more. registry_entries rest more))
      else registry_entries rest out
    where
      go_on :
          Option (List RegistryEntry)
          → (List RegistryEntry → Result TlvError (List RegistryEntry))
          → Result TlvError (List RegistryEntry)
      go_on none more = ok out
      go_on (some out') more = more out'

  unfoldable pub parse_status_registry : List ℕ → Result TlvError (List RegistryEntry)
  parse_status_registry bytes =
      if is_empty bytes then ok [] else (parse bytes >>= λ top. registry_entries top [])
