-- ===== src/Workflow/CardStatus/Inventory.antt =====
-- get_card_inventory of crates/scll-core/src/workflow/card_status.rs. A closure that is handed to
-- `collect_scope` is the classification of an entry, followed by the filing of what it is.
-- `Listing` is about the
-- filing, and `Scopes` about the whole.
pub mod Listing
pub mod Scopes
use scll_rust.Prelude.{
  ℕ, List, [], ◌∷◌, length, is_empty, eq_octets, bit_and, Bool, true, false, not, ◌&&◌, ◌||◌, ◌==◌,
  if◌then◌else◌, Option, none, some, Result, ok, map_err, to_option,
}
use scll_rust.Prelude.Actions.{Action, ◌>>=◌, lift}
use scll_rust.Prelude.Heapless.{Heapless}
use scll_rust.Aid.{Aid, new}
use scll_rust.Error.{ScllError}
use scll_rust.Response.{unwrap_or}
use scll_rust.Response.Status.{RegistryEntry, max_modules_per_elf, parse_status_registry}
use scll_rust.Scp.Backend.{Scp03Backend, Scp02Backend}
use scll_rust.Scp.Sessions.{ScpSession}
use scll_rust.Session.{Transport}
use scll_rust.Workflow.{WarningKind, inventory_truncated}
use scll_rust.Workflow.CardStatus.{p1_isd_scope, warned, read_status_scope}

abbrev pub p1_app_sd_scope : ℕ
p1_app_sd_scope = 0x40

abbrev pub p1_elf_module_scope : ℕ
p1_elf_module_scope = 0x10

abbrev pub priv_security_domain : ℕ
priv_security_domain = 0x80

-- limits.rs, `MAX_SDS`, `MAX_APPLETS`, `MAX_ELFS`
abbrev pub max_sds : ℕ
max_sds = 8

abbrev pub max_applets : ℕ
max_applets = 48

abbrev pub max_elfs : ℕ
max_elfs = 32

pub record SecurityDomainEntry : Type 0 where
  pub aid : Aid
  pub life_cycle_state : ℕ
  pub privileges : ℕ × ℕ × ℕ
  pub associated_sd_aid : Option Aid

pub record ApplicationEntry : Type 0 where
  pub aid : Aid
  pub life_cycle_state : ℕ
  pub privileges : ℕ × ℕ × ℕ
  pub associated_sd_aid : Aid
  pub associated_elf_aid : Option Aid

pub record ExecutableLoadFileEntry : Type 0 where
  pub aid : Aid
  pub life_cycle_state : ℕ
  pub associated_sd_aid : Aid
  pub modules : List Aid

pub record CardInventory : Type 0 where
  pub security_domains : List SecurityDomainEntry
  pub applets : List ApplicationEntry
  pub elfs : List ExecutableLoadFileEntry

-- What an entry of the registry is filed as; `skipped` is an entry that is left out.
pub data Filed : Type 0 where
  as_domain : SecurityDomainEntry → Filed
  as_applet : ApplicationEntry → Filed
  as_elf : ExecutableLoadFileEntry → Filed
  skipped : Filed

-- The inventory with a longer list, if there was room, and whether there was.
abbrev pub or_full :
    {E : Type 0} → Option (List E) → (List E → CardInventory) → CardInventory → CardInventory × Bool
or_full none with_list inv = (inv, false)
or_full (some v) with_list inv = (with_list v, true)

-- `opt.and_then(f)`
abbrev pub and_then {ℓ κ} : {A : Type ℓ} {B : Type κ} → Option A → (A → Option B) → Option B
and_then none f = none
and_then (some a) f = f a

module _ ⦃hl : Heapless⦄ where
  abbrev pub aid_of : List ℕ → Option Aid
  aid_of octets = to_option (new octets)

  -- The closures of the three scopes.
  unfoldable pub classify_isd : Aid → RegistryEntry → Filed
  classify_isd isd e = as_domain (record {
    aid = unwrap_or (aid_of e.aid) isd;
    life_cycle_state = e.life_cycle;
    privileges = e.privileges;
    associated_sd_aid = none;
  })

  unfoldable pub classify_app : Aid → RegistryEntry → Filed
  classify_app isd e = if eq_octets e.aid isd.as_bytes then skipped else classed (aid_of e.aid)
    where
      classed : Option Aid → Filed
      classed none = skipped
      classed (some aid) =
          if not (bit_and (e.privileges.0) priv_security_domain == 0)
          then as_domain (record {
            aid = aid;
            life_cycle_state = e.life_cycle;
            privileges = e.privileges;
            associated_sd_aid = and_then e.associated_sd_aid aid_of;
          })
          else as_applet (record {
            aid = aid;
            life_cycle_state = e.life_cycle;
            privileges = e.privileges;
            associated_sd_aid = unwrap_or (and_then e.associated_sd_aid aid_of) isd;
            associated_elf_aid = and_then e.elf_aid aid_of;
          })

  -- The loop over the modules of an entry.
  unfoldable pub module_aids : List (List ℕ) → List Aid → List Aid
  module_aids [] modules = modules
  module_aids (m ∷ rest) modules = module_aids rest (with_aid (aid_of m))
    where
      with_aid : Option Aid → List Aid
      with_aid none = modules
      with_aid (some a) = unwrap_or (hl.push max_modules_per_elf modules a) modules

  unfoldable pub classify_elf : Aid → RegistryEntry → Filed
  classify_elf isd e = classed (aid_of e.aid)
    where
      classed : Option Aid → Filed
      classed none = skipped
      classed (some aid) = as_elf (record {
        aid = aid;
        life_cycle_state = e.life_cycle;
        associated_sd_aid = unwrap_or (and_then e.associated_sd_aid aid_of) isd;
        modules = module_aids e.modules [];
      })

  -- `push(..).is_ok()` on the list that the entry belongs to.
  unfoldable pub file_entry : Filed → CardInventory → CardInventory × Bool
  file_entry skipped inv = (inv, true)
  file_entry (as_domain e) inv =
      or_full (hl.push max_sds inv.security_domains e) (λ v. record inv { security_domains = v })
        inv
  file_entry (as_applet e) inv =
      or_full (hl.push max_applets inv.applets e) (λ v. record inv { applets = v }) inv
  file_entry (as_elf e) inv =
      or_full (hl.push max_elfs inv.elfs e) (λ v. record inv { elfs = v }) inv

  -- The loop of `collect_scope`.
  unfoldable pub store_all :
      (RegistryEntry → Filed) → List RegistryEntry → CardInventory → Bool → CardInventory × Bool
  store_all classify [] inv truncated = (inv, truncated)
  store_all classify (e ∷ es) inv truncated =
      let (inv', kept) = file_entry (classify e) inv in
      store_all classify es inv' (if kept then truncated else true)

pub record GetCardInventoryParams : Type 0 where
  pub isd_aid : Aid
  pub security_domain_count : ℕ
  pub application_count : ℕ
  pub elf_count : ℕ
  pub truncated : Bool

pub record GetCardInventoryReport : Type 0 where
  pub inventory : CardInventory
  pub effective : GetCardInventoryParams
  pub warnings : List WarningKind

abbrev pub inventory_report : ⦃hl : Heapless⦄ → Aid → CardInventory → Bool → GetCardInventoryReport
inventory_report isd inv truncated = record {
  inventory = inv;
  effective = record {
    isd_aid = isd;
    security_domain_count = length inv.security_domains;
    application_count = length inv.applets;
    elf_count = length inv.elfs;
    truncated = truncated;
  };
  warnings = if truncated then warned [] inventory_truncated else [];
}

module _ ⦃hl : Heapless⦄ {W : Type 0} (t : Transport W) (b03 : Scp03Backend W)
    (b02 : Scp02Backend W) where
  unfoldable pub collect_scope :
      ℕ
      → (RegistryEntry → Filed)
      → CardInventory
      → Action (ScpSession × W) ScllError (CardInventory × Bool)
  collect_scope p1 classify inv = do
    (octets, truncated) ← read_status_scope t b03 b02 p1
    entries ← lift (
        if is_empty octets && not truncated
        then ok []
        else map_err ScllError.malformed_response (parse_status_registry octets))
    lift (ok (store_all classify entries inv truncated))

  unfoldable pub get_card_inventory :
      List ℕ → Action (ScpSession × W) ScllError GetCardInventoryReport
  get_card_inventory isd_aid = do
    isd ← lift (new isd_aid)
    let empty : CardInventory = record { security_domains = []; applets = []; elfs = [] }
    (inv1, cut1) ← collect_scope p1_isd_scope (classify_isd isd) empty
    (inv2, cut2) ← collect_scope p1_app_sd_scope (classify_app isd) inv1
    (inv3, cut3) ← collect_scope p1_elf_module_scope (classify_elf isd) inv2
    lift (ok (inventory_report isd inv3 ((cut1 || cut2) || cut3)))
