-- ===== src/Workflow/CardStatus.antt =====
-- crates/scll-core/src/workflow/card_status.rs: reading and writing the card's life-cycle state, and
-- the paged reading of the registry. `Inventory` is the listing of the card's objects; `Paging` and
-- `Transitions` are about the reading and about the writing.
pub mod Paging
pub mod Whole
pub mod Division
pub mod Transitions
pub mod Inventory
use scll_rust.Prelude.{
  ℕ, zero, suc, ◌*◌, List, [], length, take, Bool, true, false, not, ◌&&◌, ◌||◌, ◌==◌,
  if◌then◌else◌, Option, none, some, Result, ok, err, stuck, map_err,
}
use scll_rust.Prelude.Actions.{Action, ◌>>=◌, lift}
use scll_rust.Prelude.Heapless.{Heapless}
use scll_rust.Aid.{Aid, new}
use scll_rust.Tlv.{parse}
use scll_rust.Command.Builders.{p2_first_tlv, p2_next_tlv, get_status_p2}
use scll_rust.Command.Builders
use scll_rust.Error.{ScllError, from_general_sw}
use scll_rust.Lifecycle.{
  CardLifeCycle, initialized, secured, card_locked, unknown, TransitionPlan, no_op, apply_p2,
  check_transition, raw_byte, same_state,
}
use scll_rust.Response.{unwrap_or}
use scll_rust.Response.Status.{parse_status_e3}
use scll_rust.Scp.Backend.{Scp03Backend, Scp02Backend}
use scll_rust.Scp.Sessions.{ScpSession}
use scll_rust.Session.{
  Transport, sw_ok, sw_conditions, sw_ref_not_found, sw_more_data, transmit_in_session,
}
use scll_rust.Session.Parts.{rapdu_max}
use scll_rust.Workflow.{WarningKind, get_status_parse_failed, life_cycle_no_op, max_warnings}

-- limits.rs, `MAX_STATUS_PAGES` and `MAX_STATUS_SCOPE_BYTES`
abbrev pub max_status_pages : ℕ
max_status_pages = 16

abbrev pub max_status_scope_bytes : ℕ
max_status_scope_bytes = max_status_pages * rapdu_max

abbrev pub p1_isd_scope : ℕ
p1_isd_scope = 0x80

-- The local variables of the loop over the pages.
pub record Scan : Type 0 where
  pub buf : List ℕ
  pub good_len : ℕ
  pub p2 : ℕ
  pub truncated : Bool
  pub done : Bool

-- How a round of the loop ends: in the next round, by `break`, or by `return`.
pub data Round : Type 0 where
  next_round : Scan → Round
  leave_loop : Scan → Round
  empty_scope : Round

-- `is_ok()`; `parse` is never stuck.
abbrev pub is_ok {ℓ} : {E : Type 0} {A : Type ℓ} → Result E A → Bool
is_ok (ok a) = true
is_ok (err e) = false
is_ok stuck = false

abbrev pub start : Scan
start = record { buf = []; good_len = 0; p2 = p2_first_tlv; truncated = false; done = false }

-- What follows the loop.
unfoldable pub finish : Option Scan → List ℕ × Bool
finish none = ([], false)
finish (some scan) = (take scan.good_len scan.buf, not scan.done || scan.truncated)

module _ ⦃hl : Heapless⦄ where
  -- `let _ = warnings.push(..)`
  unfoldable pub warned : List WarningKind → WarningKind → List WarningKind
  warned warnings kind = unwrap_or (hl.push max_warnings warnings kind) warnings

  -- The part of the loop's body after `extend_from_slice` has succeeded.
  unfoldable pub checkpoint : Scan → List ℕ → ℕ → Round
  checkpoint scan buf sw =
      let complete = is_ok (parse buf) in
      let good_len = if complete then length buf else scan.good_len in
      let truncated = if complete then scan.truncated else (sw == sw_ok) || scan.truncated in
      if sw == sw_ok
      then leave_loop (record {
        buf = buf;
        good_len = good_len;
        p2 = scan.p2;
        truncated = truncated;
        done = true;
      })
      else next_round (record {
        buf = buf;
        good_len = good_len;
        p2 = p2_next_tlv;
        truncated = truncated;
        done = scan.done;
      })

  abbrev pub extended : Scan → Option (List ℕ) → ℕ → Round
  extended scan none sw = leave_loop (record scan { truncated = true })
  extended scan (some buf) sw = checkpoint scan buf sw

  -- The `match sw`.
  unfoldable pub after_page : Scan → List ℕ → ℕ → Result ScllError Round
  after_page scan page sw =
      if (sw == sw_ok) || (sw == sw_more_data)
      then ok (extended scan (hl.extend max_status_scope_bytes scan.buf page) sw)
      else if sw == sw_ref_not_found
      then ok empty_scope
      else err (from_general_sw sw)

pub record GetCardStatusParams : Type 0 where
  pub raw_state_byte : ℕ
  pub decoded_state : CardLifeCycle
  pub isd_aid : Aid

pub record GetCardStatusReport : Type 0 where
  pub state : CardLifeCycle
  pub effective : GetCardStatusParams
  pub warnings : List WarningKind

pub record SetCardStatusArgs : Type 0 where
  pub target_state : CardLifeCycle
  pub current_state : Option CardLifeCycle
  pub force : Bool
  pub isd_aid : List ℕ

pub record SetCardStatusParams : Type 0 where
  pub state_before : CardLifeCycle
  pub target_state : CardLifeCycle
  pub p1_status_type : ℕ
  pub p2_state_byte : ℕ
  pub was_no_op : Bool
  pub force_used : Bool
  pub irreversible : Bool

pub record SetCardStatusReport : Type 0 where
  pub effective : SetCardStatusParams
  pub warnings : List WarningKind

abbrev pub is_set_once : CardLifeCycle → Bool
is_set_once initialized = true
is_set_once secured = true
is_set_once _ = false

-- The status word of SET STATUS.
unfoldable pub set_status_answer : ℕ → Result ScllError (Unit {0})
set_status_answer sw =
    if sw == sw_ok
    then ok tt
    else if sw == sw_conditions
    then err ScllError.illegal_lifecycle_transition
    else err (from_general_sw sw)

unfoldable pub irreversible_change : CardLifeCycle → CardLifeCycle → Bool
irreversible_change current target = is_set_once target && not (same_state current card_locked)

abbrev pub report_of :
    SetCardStatusArgs → CardLifeCycle → Bool → ℕ → List WarningKind → SetCardStatusReport
report_of args current was_no_op p2_state_byte warnings = record {
  effective = record {
    state_before = current;
    target_state = args.target_state;
    p1_status_type = p1_isd_scope;
    p2_state_byte = p2_state_byte;
    was_no_op = was_no_op;
    force_used = args.force;
    irreversible = irreversible_change current args.target_state;
  };
  warnings = warnings;
}

-- What follows a round.
abbrev pub follow :
    {W : Type 0}
    → (Scan → Action W ScllError (Option Scan))
    → Round
    → Action W ScllError (Option Scan)
follow next (next_round scan) = next scan
follow next (leave_loop scan) = lift (ok (some scan))
follow next empty_scope = lift (ok none)

module _ ⦃hl : Heapless⦄ {W : Type 0} (t : Transport W) (b03 : Scp03Backend W)
    (b02 : Scp02Backend W) where
  unfoldable pub read_page : ℕ → Scan → Action (ScpSession × W) ScllError Round
  read_page p1 scan = do
    capdu ← lift (map_err ScllError.build (get_status_p2 p1 scan.p2 []))
    (page, sw) ← transmit_in_session t b03 b02 capdu
    lift (after_page scan page sw)

  -- The loop, with the number of rounds left; `none` is the `return` in it.
  unfoldable pub read_pages : ℕ → ℕ → Scan → Action (ScpSession × W) ScllError (Option Scan)
  read_pages zero p1 scan = lift (ok (some scan))
  read_pages (suc n) p1 scan = do
    round ← read_page p1 scan
    follow (λ scan'. read_pages n p1 scan') round

  unfoldable pub read_status_scope : ℕ → Action (ScpSession × W) ScllError (List ℕ × Bool)
  read_status_scope p1 = do end ← read_pages max_status_pages p1 start; lift (ok (finish end))

  -- The decoded state, with a warning when there is none.
  abbrev pub state_or_warning : Option CardLifeCycle → CardLifeCycle × List WarningKind
  state_or_warning (some s) = (s, [])
  state_or_warning none = (unknown 0, warned [] get_status_parse_failed)

  unfoldable pub get_card_status : List ℕ → Action (ScpSession × W) ScllError GetCardStatusReport
  get_card_status isd_aid = do
    (octets, scope_truncated) ← read_status_scope p1_isd_scope
    found ← lift (map_err ScllError.malformed_response (parse_status_e3 octets))
    let (decoded, warnings) = state_or_warning found
    isd ← lift (new isd_aid)
    lift (
        ok (record {
          state = decoded;
          effective = record {
            raw_state_byte = raw_byte decoded;
            decoded_state = decoded;
            isd_aid = isd;
          };
          warnings = if scope_truncated then warned warnings get_status_parse_failed else warnings;
        }))

  -- `match args.current_state`
  unfoldable pub current_state :
      Option CardLifeCycle → List ℕ → Action (ScpSession × W) ScllError CardLifeCycle
  current_state (some s) isd_aid = lift (ok s)
  current_state none isd_aid = do report ← get_card_status isd_aid; lift (ok report.state)

  -- `match plan`: whether nothing was to be done, the octet of the state, and the warnings.
  unfoldable pub carry_out :
      TransitionPlan
      → CardLifeCycle
      → List ℕ
      → Action (ScpSession × W) ScllError (Bool × ℕ × List WarningKind)
  carry_out no_op target isd_aid = lift (ok (true, raw_byte target, warned [] life_cycle_no_op))
  carry_out (apply_p2 p2) target isd_aid = do
    capdu ← lift (map_err ScllError.build (Builders.set_card_status p2 isd_aid))
    (d, sw) ← transmit_in_session t b03 b02 capdu
    done ← lift (set_status_answer sw)
    lift (ok (false, p2, []))

  unfoldable pub set_card_status :
      SetCardStatusArgs → Action (ScpSession × W) ScllError SetCardStatusReport
  set_card_status args = do
    current ← current_state args.current_state args.isd_aid
    plan ← lift (check_transition current args.target_state args.force)
    (was_no_op, p2_state_byte, warnings) ← carry_out plan args.target_state args.isd_aid
    lift (ok (report_of args current was_no_op p2_state_byte warnings))
