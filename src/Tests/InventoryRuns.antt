-- ===== src/Tests/InventoryRuns.antt =====
-- A run of get_card_inventory of crates/scll-core/src/workflow/card_status.rs.
use scll_rust.Prelude.{
  ℕ, suc, ◌≡◌, refl, List, [], ◌∷◌, ◌++◌, get_elem?, false, ◌==◌, if◌then◌else◌, none, some, ok,
}
use scll_rust.Prelude.Actions.{resume, rename}
use scll_rust.Prelude.Slices.{slice, index}
use scll_rust.Prelude.Heapless.{Heapless, plain}
use scll_rust.Aid.{Aid, new}
use scll_rust.Tlv.{parse}
use scll_rust.Command.{push, push_lv, push_body, build}
use scll_rust.Command.Builders.{get_status_p2}
use scll_rust.Response.{find}
use scll_rust.Response.Status.{
  parse_status_registry, registry_entries, registry_entry, push_modules, privileges_to_3,
}
use scll_rust.Scp.Sessions.{ScpSession, wrap, unwrap}
use scll_rust.Session.{Transport, transmit_in_session}
use scll_rust.Session.Parts.{split_sw}
use scll_rust.Tests.SessionRuns.{marks_02, marks_03, session_at}
use scll_rust.Workflow.CardStatus.{
  p1_isd_scope, read_status_scope, read_pages, read_page, after_page, checkpoint, finish,
}
use scll_rust.Workflow.CardStatus.Inventory.{
  CardInventory, inventory_report, classify_isd, classify_app, classify_elf, module_aids,
  file_entry, store_all, collect_scope, get_card_inventory, p1_app_sd_scope, p1_elf_module_scope,
}
use scll_rust.Workflow.CardStatus.Inventory.Scopes.{Scope, Listed, get_card_inventory-IsListing}

instance abbrev vectors : Heapless
vectors = plain

abbrev isd_aid : List ℕ
isd_aid = 0xA0 ∷ 0x00 ∷ 0x00 ∷ 0x01 ∷ 0x51 ∷ []

abbrev applet_aid : List ℕ
applet_aid = 0xA0 ∷ 0x00 ∷ 0x00 ∷ 0x00 ∷ 0x62 ∷ []

abbrev entry_of : List ℕ → List ℕ
entry_of aid = 0xE3 ∷ 0x0B ∷ 0x4F ∷ 0x05 ∷ aid ++ (0x9F ∷ 0x70 ∷ 0x01 ∷ 0x07 ∷ [])

-- A card with its Issuer Security Domain, one applet, and no load file.
abbrev listing_card : Transport ℕ
listing_card = record {
  transmit = λ capdu w. (
    ok (elim (get_elem? capdu 3) [
      | some p1 ↦
          if p1 == 0x80
          then entry_of isd_aid ++ (0x90 ∷ 0x00 ∷ [])
          else if p1 == 0x40
          then (entry_of isd_aid ++ entry_of applet_aid) ++ (0x90 ∷ 0x00 ∷ [])
          else 0x6A ∷ 0x88 ∷ []
      | none ↦ []
    ]),
    suc w,
  );
}

abbrev isd : Aid
isd = record { as_bytes = isd_aid }

abbrev inventory : CardInventory
inventory = record {
  security_domains =
      record {
        aid = isd;
        life_cycle_state = 0x07;
        privileges = (0, 0, 0);
        associated_sd_aid = none;
      }
      ∷ [];
  applets =
      record {
        aid = record { as_bytes = applet_aid };
        life_cycle_state = 0x07;
        privileges = (0, 0, 0);
        associated_sd_aid = isd;
        associated_elf_aid = none;
      }
      ∷ [];
  elfs = [];
}

inventory_run :
    get_card_inventory listing_card marks_03 marks_02 isd_aid (session_at 0, 0)
    ≡ (ok (inventory_report isd inventory false), (session_at 6, 3))
unfolding get_card_inventory collect_scope read_status_scope read_pages read_page after_page
    checkpoint finish new get_status_p2 push push_lv push_body build transmit_in_session resume
    rename split_sw slice index wrap unwrap parse parse_status_registry registry_entries
    registry_entry push_modules privileges_to_3 find classify_isd classify_app classify_elf
    module_aids file_entry store_all
inventory_run = refl

get_card_inventory-IsListing_example :
    (a : Aid) × (x1 : ScpSession × ℕ) × (x2 : ScpSession × ℕ) × (new isd_aid ≡ ok a)
    × (s1 : Scope listing_card marks_03 marks_02 p1_isd_scope (session_at 0, 0) x1) × (s2 : Scope
        listing_card marks_03 marks_02 p1_app_sd_scope x1 x2)
    × (s3 : Scope listing_card marks_03 marks_02 p1_elf_module_scope x2 (session_at 6, 3)) × Listed
        listing_card marks_03 marks_02 a s1.entries s2.entries s3.entries
        (inventory_report isd inventory false)
get_card_inventory-IsListing_example =
    get_card_inventory-IsListing listing_card marks_03 marks_02 isd_aid
      (inventory_report isd inventory false) (session_at 0, 0) (session_at 6, 3) inventory_run
