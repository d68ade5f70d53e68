-- ===== src/Tests/LifecycleRuns.antt =====
-- Runs of check_transition of crates/scll-core/src/lifecycle.rs, and the theorems on them.
use scll_rust.Prelude.{◌≤◌, ◌≡◌, refl, ◌⊎◌, ◌↔◌, true, false, ok, err}
use scll_rust.Error.{ScllError}
use scll_rust.Lifecycle.{
  op_ready, secured, card_locked, apply_p2, check_transition, plan_for, same_state, raw_byte,
}
use scll_rust.Lifecycle.Matrix.{Edge, IsSettable, Life, stage, check_transition_iff, Life-iff}

skip_ahead_with_force : check_transition op_ready secured true ≡ ok (apply_p2 0x0F)
unfolding check_transition plan_for same_state
skip_ahead_with_force = refl

skip_ahead_refused :
    check_transition op_ready secured false ≡ err ScllError.illegal_lifecycle_transition
unfolding check_transition plan_for same_state
skip_ahead_refused = refl

check_transition_iff_example :
    (check_transition secured card_locked false ≡ ok (apply_p2 0x7F))
    ↔ (Edge secured card_locked false × (0x7F ≡ raw_byte card_locked))
check_transition_iff_example = check_transition_iff secured card_locked false 0x7F

Life-iff_example : Life op_ready card_locked ↔ (
    (op_ready ≡ card_locked)
    ⊎ (IsSettable op_ready × IsSettable card_locked × (stage op_ready ≤ stage card_locked)))
Life-iff_example = Life-iff op_ready card_locked
