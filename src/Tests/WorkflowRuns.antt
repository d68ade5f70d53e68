-- ===== src/Tests/WorkflowRuns.antt =====
-- Runs of crates/scll-core/src/workflow, and the theorems on them.
use scll_rust.Prelude.{
  ℕ, suc, ◌≤◌, ◌≡◌, refl, List, [], ◌∷◌, ◌++◌, length, get_elem?, true, false, ◌==◌, if◌then◌else◌,
  none, some, ok, arith,
}
use scll_rust.Prelude.Actions.{resume, rename}
use scll_rust.Prelude.Slices.{slice, index}
use scll_rust.Prelude.Heapless.{Heapless, plain}
use scll_rust.Tlv.{parse}
use scll_rust.Command.{push, push_lv, push_body, build}
use scll_rust.Command.Builders.{p2_first_tlv, get_status_p2, set_card_status}
use scll_rust.Lifecycle.{
  CardLifeCycle, op_ready, initialized, check_transition, plan_for, same_state, raw_byte,
}
use scll_rust.Scp.{ScpVariant, scp02, scp03}
use scll_rust.Scp
use scll_rust.Scp.Sessions.{ScpSession, wrap, unwrap, kvn}
use scll_rust.Session
use scll_rust.Session.{Transport, sw_ok, transmit_in_session}
use scll_rust.Session.Parts.{split_sw}
use scll_rust.Session.Parts
use scll_rust.Tests.ScpRuns.{response}
use scll_rust.Tests.SessionRuns.{marks_02, marks_03, session_at}
use scll_rust.Workflow.OpenScp.{OpenScpArgs, OpenScpReport, security_domain_aid, report_of}
use scll_rust.Workflow.OpenScp.Conversation.{of_session}
use scll_rust.Workflow.CardStatus.{
  read_status_scope, read_pages, read_page, after_page, checkpoint, finish, warned,
  SetCardStatusArgs, SetCardStatusReport, current_state, carry_out, set_status_answer,
  irreversible_change, max_status_pages, max_status_scope_bytes, is_ok,
}
use scll_rust.Workflow.CardStatus
use scll_rust.Workflow.CardStatus.Whole.{
  whole, Run, last_page, more_pages, Fetched, IsKept, read_status_scope-IsKept,
}
use scll_rust.Workflow.CardStatus.Division.{read_status_scope-whole}
use scll_rust.Workflow.CardStatus.Transitions.{Granted, set_card_status-Granted}

instance abbrev vectors : Heapless
vectors = plain

abbrev target : List ℕ
target = 0xA0 ∷ 0x00 ∷ 0x00 ∷ 0x01 ∷ 0x51 ∷ []

-- A card that knows SELECT and INITIALIZE UPDATE, and accepts everything else.
abbrev scp03_card : Transport ℕ
scp03_card = record {
  transmit = λ capdu w. (
    ok (elim (get_elem? capdu 1) [
      | some ins ↦
          if ins == 0xA4
          then (0x6F ∷ 0x07 ∷ 0x84 ∷ 0x05 ∷ target) ++ (0x90 ∷ 0x00 ∷ [])
          else if ins == 0x50
          then response ++ (0x90 ∷ 0x00 ∷ [])
          else 0x90 ∷ 0x00 ∷ []
      | none ↦ 0x90 ∷ 0x00 ∷ []
    ]),
    suc w,
  );
}

abbrev args : OpenScpArgs
args = record {
  target_aid = target;
  target_kind = security_domain_aid;
  sd_keys = record { enc = 1; mac = 2; dek = 3 };
  advertised = scp02 0x55 ∷ scp03 0x70 ∷ [];
  force_scp = none;
  kvn = 0x00;
  requested_level = 0x33;
}

abbrev opened_report : OpenScpReport
opened_report =
    report_of args (record { as_bytes = target }) (record { as_bytes = target })
      (of_session (session_at 7))

-- A card that sends its registry entry in two pages, which divide an object.
abbrev paging_card : Transport ℕ
paging_card = record {
  transmit = λ capdu w. (
    ok (elim (get_elem? capdu 4) [
      | some p2 ↦
          if p2 == 0x02
          then 0xE3 ∷ 0x04 ∷ 0x9F ∷ 0x63 ∷ 0x10 ∷ []
          else 0x70 ∷ 0x01 ∷ 0x07 ∷ 0x90 ∷ 0x00 ∷ []
      | none ↦ []
    ]),
    suc w,
  );
}

abbrev two_pages : List (List ℕ × ℕ)
two_pages = (0xE3 ∷ 0x04 ∷ 0x9F ∷ [], 0x6310) ∷ (0x70 ∷ 0x01 ∷ 0x07 ∷ [], 0x9000) ∷ []

abbrev entry : List ℕ
entry = 0xE3 ∷ 0x04 ∷ 0x9F ∷ 0x70 ∷ 0x01 ∷ 0x07 ∷ []

two_pages-Fetched :
    Fetched paging_card marks_03 marks_02 0x80 two_pages p2_first_tlv
      (session_at 0, 0)
      (session_at 4, 2)
unfolding get_status_p2 push push_lv push_body build transmit_in_session resume rename split_sw
    slice index wrap unwrap
two_pages-Fetched = (_, _, refl, refl, (_, _, refl, refl, refl))

entry_complete : is_ok (parse (whole two_pages)) ≡ true
unfolding parse whole
entry_complete = refl

whole_small : length (whole two_pages) ≤ max_status_scope_bytes
unfolding whole
whole_small = omega arith

abbrev two_pages_run : Run 0x9000 two_pages
two_pages_run =
    more_pages (0xE3 ∷ 0x04 ∷ 0x9F ∷ []) ((0x70 ∷ 0x01 ∷ 0x07 ∷ [], 0x9000) ∷ [])
      (last_page (0x70 ∷ 0x01 ∷ 0x07 ∷ []))

paging_run :
    read_status_scope paging_card marks_03 marks_02 0x80 (session_at 0, 0)
    ≡ (ok (whole two_pages, false), (session_at 4, 2))
unfolding read_status_scope read_pages read_page after_page checkpoint finish get_status_p2 push
    push_lv push_body build transmit_in_session resume rename split_sw slice index wrap unwrap parse
    whole
paging_run = refl

read_status_scope-whole_example :
    read_status_scope paging_card marks_03 marks_02 0x80 (session_at 0, 0)
    ≡ (ok (whole two_pages, false), (session_at 4, 2))
read_status_scope-whole_example =
    read_status_scope-whole paging_card marks_03 marks_02 0x80 two_pages (session_at 0, 0)
      (session_at 4, 2) two_pages-Fetched two_pages_run (omega arith) whole_small entry_complete

read_status_scope-IsKept_example :
    (pages : List (List ℕ × ℕ)) × Fetched paging_card marks_03 marks_02 0x80 pages p2_first_tlv
      (session_at 0, 0)
      (session_at 4, 2)
    × (length pages ≤ max_status_pages)
    × IsKept paging_card marks_03 marks_02 0x80 (whole two_pages) false pages
read_status_scope-IsKept_example =
    read_status_scope-IsKept paging_card marks_03 marks_02 0x80 (whole two_pages) false
      (session_at 0, 0) (session_at 4, 2) paging_run

-- A card that answers with the first octet of a tag and nothing behind it.
abbrev malformed_card : Transport ℕ
malformed_card = record { transmit = λ capdu w. (ok (0x9F ∷ 0x90 ∷ 0x00 ∷ []), suc w) }

malformed_run :
    read_status_scope malformed_card marks_03 marks_02 0x80 (session_at 0, 0)
    ≡ (ok ([], true), (session_at 2, 1))
unfolding read_status_scope read_pages read_page after_page checkpoint finish get_status_p2 push
    push_lv push_body build transmit_in_session resume rename split_sw slice index wrap unwrap parse
malformed_run = refl

-- A card that accepts everything.
abbrev willing_card : Transport ℕ
willing_card = record { transmit = λ capdu w. (ok (0x90 ∷ 0x00 ∷ []), suc w) }

abbrev to_initialized : SetCardStatusArgs
to_initialized = record {
  target_state = initialized;
  current_state = some op_ready;
  force = false;
  isd_aid = target;
}

abbrev set_report : SetCardStatusReport
set_report = CardStatus.report_of to_initialized op_ready false 0x07 []

set_run :
    CardStatus.set_card_status willing_card marks_03 marks_02 to_initialized (session_at 0, 0)
    ≡ (ok set_report, (session_at 2, 1))
unfolding CardStatus.set_card_status current_state check_transition plan_for same_state carry_out
    set_card_status build push push_body transmit_in_session resume rename split_sw slice index wrap
    unwrap set_status_answer irreversible_change
set_run = refl

set_card_status-Granted_example :
    (current : CardLifeCycle) × (x1 : ScpSession × ℕ) × (current_state willing_card marks_03
        marks_02
        (some op_ready)
        target
        (session_at 0, 0)
      ≡ (ok current, x1))
    × (op_ready ≡ current)
    × Granted willing_card marks_03 marks_02 to_initialized current false 0x07 x1 (session_at 2, 1)
    × (0x07 ≡ raw_byte initialized)
set_card_status-Granted_example =
    set_card_status-Granted willing_card marks_03 marks_02 to_initialized set_report
      (session_at 0, 0) (session_at 2, 1) (omega arith) set_run
