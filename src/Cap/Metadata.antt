-- ===== src/Cap/Metadata.antt =====
-- The small components of a CAP file, in crates/scll-core/src/cap/mod.rs: the header, the imported
-- packages and the applets. `Lists` shows that the entries are read back.
pub mod Lists
use scll_rust.Prelude.{
  ℕ, zero, suc, ◌+◌, List, [], ◌∷◌, get_elem?, not, ◌==◌, if◌then◌else◌, Option, none, some, Result,
  ok, err, stuck, ok_or, map_err, ◌>>=◌, ◌>>◌, reject_if,
}
use scll_rust.Prelude.Heapless.{Heapless}
use scll_rust.Aid.{Aid, new}
use scll_rust.Error.{ScllError, CapError}
use scll_rust.Cap.{checked_add, get_range, is_some_of, read_u16_be, read_u32_be}

abbrev pub header_magic : ℕ
header_magic = 0xDECAFFED

-- limits.rs, `MAX_CAP_IMPORTS` and `MAX_CAP_APPLETS`
abbrev pub max_cap_imports : ℕ
max_cap_imports = 16

abbrev pub max_cap_applets : ℕ
max_cap_applets = 8

-- components.rs
pub record AppletEntry : Type 0 where
  pub class_aid : Aid
  pub install_method_offset : ℕ

pub record CapComponents : Type 0 where
  pub jc_platform_version : ℕ × ℕ × ℕ
  pub imports : List Aid
  pub applets : List AppletEntry

abbrev pub or_malformed {ℓ} : {A : Type ℓ} → Option A → Result CapError A
or_malformed o = ok_or o CapError.malformed

module _ ⦃hl : Heapless⦄ where
  -- The `len` octets at `start` as an AID, and where they end.
  unfoldable pub aid_at : List ℕ → ℕ → ℕ → Result CapError (Aid × ℕ)
  aid_at b start len = do
    aid_end ← or_malformed (checked_add start len)
    aid_bytes ← or_malformed (get_range b start aid_end)
    aid ← map_err (λ e. CapError.malformed) (new aid_bytes)
    ok (aid, aid_end)

  unfoldable pub parse_header : List ℕ → Result CapError (Aid × (ℕ × ℕ × ℕ))
  parse_header b = do
    magic ← or_malformed (read_u32_be b 3)
    reject_if (not (magic == header_magic)) CapError.malformed
    minor ← or_malformed (get_elem? b 7)
    major ← or_malformed (get_elem? b 8)
    aid_len ← or_malformed (get_elem? b 12)
    named ← aid_at b 13 aid_len
    ok (named.0, (major, minor, 0))

  -- The loop of `parse_imports`: `count` entries from `p` on.
  unfoldable pub import_entries : List ℕ → ℕ → ℕ → List Aid → Result CapError (List Aid)
  import_entries b zero p imports = ok imports
  import_entries b (suc count) p imports = do
    len ← or_malformed (get_elem? b (p + 2))
    named ← aid_at b (p + 3) len
    imports' ← or_malformed (hl.push max_cap_imports imports (named.0))
    import_entries b count (named.1) imports'

  unfoldable pub parse_imports : List ℕ → CapComponents → Result CapError CapComponents
  parse_imports b out = do
    count ← or_malformed (get_elem? b 3)
    imports ← import_entries b count 4 out.imports
    ok (record out { imports = imports })

  -- The loop of `parse_applets`.
  unfoldable pub applet_entries :
      List ℕ → ℕ → ℕ → List AppletEntry → Result CapError (List AppletEntry)
  applet_entries b zero p applets = ok applets
  applet_entries b (suc count) p applets = do
    len ← or_malformed (get_elem? b p)
    named ← aid_at b (p + 1) len
    install_method_offset ← or_malformed (read_u16_be b (named.1))
    applets' ← or_malformed (
        hl.push max_cap_applets applets
          (record { class_aid = named.0; install_method_offset = install_method_offset }))
    applet_entries b count (named.1 + 2) applets'

  unfoldable pub parse_applets : List ℕ → CapComponents → Result CapError CapComponents
  parse_applets b out = do
    count ← or_malformed (get_elem? b 3)
    applets ← applet_entries b count 4 out.applets
    ok (record out { applets = applets })
