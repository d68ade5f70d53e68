-- ===== src/Lifecycle.antt =====
-- crates/scll-core/src/lifecycle.rs: which change of the card's life-cycle state SET STATUS may
-- ask for, with the coding of the states from workflow/card_status.rs and response.rs. The states
-- are those of crates/scll-core/src/report.rs. `Matrix` states the graph of GlobalPlatform's
-- figure 5-1 and compares the code with it.
pub mod Matrix
use scll_rust.Prelude.{
  ℕ, Bool, true, false, ◌==◌, if◌then◌else◌, Result, ok, err, stuck, ◌>>=◌, ◌>>◌, reject_if, Option,
  none, some,
}
use scll_rust.Error.{ScllError}

pub data CardLifeCycle : Type 0 where
  op_ready initialized secured card_locked terminated : CardLifeCycle
  unknown : ℕ → CardLifeCycle

pub data TransitionPlan : Type 0 where
  no_op : TransitionPlan
  apply_p2 : ℕ → TransitionPlan

abbrev pub p2_initialized : ℕ
p2_initialized = 0x07

abbrev pub p2_secured : ℕ
p2_secured = 0x0F

abbrev pub p2_card_locked : ℕ
p2_card_locked = 0x7F

-- The derived `PartialEq`.
unfoldable pub same_state : CardLifeCycle → CardLifeCycle → Bool
same_state op_ready op_ready = true
same_state initialized initialized = true
same_state secured secured = true
same_state card_locked card_locked = true
same_state terminated terminated = true
same_state (unknown a) (unknown b) = a == b
same_state _ _ = false

abbrev pub is_terminated : CardLifeCycle → Bool
is_terminated terminated = true
is_terminated _ = false

abbrev pub is_unknown : CardLifeCycle → Bool
is_unknown (unknown b) = true
is_unknown _ = false

abbrev pub is_terminated_or_unknown : CardLifeCycle → Bool
is_terminated_or_unknown terminated = true
is_terminated_or_unknown (unknown b) = true
is_terminated_or_unknown _ = false

-- The last `match`.
unfoldable pub plan_for : CardLifeCycle → CardLifeCycle → Bool → Result ScllError TransitionPlan
plan_for op_ready initialized force = ok (apply_p2 p2_initialized)
plan_for initialized secured force = ok (apply_p2 p2_secured)
plan_for card_locked secured force = ok (apply_p2 p2_secured)
plan_for op_ready secured true = ok (apply_p2 p2_secured)
plan_for secured card_locked force = ok (apply_p2 p2_card_locked)
plan_for _ _ _ = err ScllError.illegal_lifecycle_transition

unfoldable pub check_transition :
    CardLifeCycle → CardLifeCycle → Bool → Result ScllError TransitionPlan
check_transition current target force = do
  reject_if (is_terminated target) ScllError.terminate_out_of_scope
  reject_if (is_unknown target) ScllError.illegal_lifecycle_transition
  if same_state current target
      then ok no_op
      else reject_if (is_terminated_or_unknown current) ScllError.illegal_lifecycle_transition
        >> plan_for current target force

-- workflow/card_status.rs
unfoldable pub raw_byte : CardLifeCycle → ℕ
raw_byte op_ready = 0x01
raw_byte initialized = 0x07
raw_byte secured = 0x0F
raw_byte card_locked = 0x7F
raw_byte terminated = 0xFF
raw_byte (unknown b) = b

-- response.rs
unfoldable pub decode_life_cycle : ℕ → CardLifeCycle
decode_life_cycle b =
    if b == 0x01
    then op_ready
    else if b == 0x07
    then initialized
    else if b == 0x0F
    then secured
    else if b == 0x7F
    then card_locked
    else if b == 0xFF
    then terminated
    else unknown b
