-- ===== src/Lifecycle/Matrix.antt =====
-- The transitions of GlobalPlatform Card Specification v2.3.1, figure 5-1, less the way to
-- TERMINATED, and what check_transition of crates/scll-core/src/lifecycle.rs makes of them.
use scll_rust.Prelude.{
  ℕ, ◌≤◌, ◌≡◌, ◌≢◌, ◌↔◌, ◌⊎◌, inl, inr, refl, sym, ap, ◌∙◌, Bool, true, false, Result, ok, err,
  arith, ==_iff,
}
use scll_rust.Error.{ScllError}
use scll_rust.Lifecycle.{
  CardLifeCycle, op_ready, initialized, secured, card_locked, terminated, unknown, TransitionPlan,
  no_op, apply_p2, same_state, plan_for, check_transition, raw_byte, decode_life_cycle,
}

-- The edges of the graph; the one over INITIALIZED only with `force`.
pub data Edge : CardLifeCycle → CardLifeCycle → Bool → Type 0 where
  initialize : (force : Bool) → Edge op_ready initialized force
  secure : (force : Bool) → Edge initialized secured force
  skip_ahead : Edge op_ready secured true
  lock : (force : Bool) → Edge secured card_locked force
  unlock : (force : Bool) → Edge card_locked secured force

Edge-plan :
    (c t : CardLifeCycle) (force : Bool)
    → Edge c t force
    → check_transition c t force ≡ ok (apply_p2 (raw_byte t))
unfolding check_transition plan_for raw_byte same_state
Edge-plan c t f (initialize force) = refl
Edge-plan c t f (secure force) = refl
Edge-plan c t f skip_ahead = refl
Edge-plan c t f (lock force) = refl
Edge-plan c t f (unlock force) = refl

plan-Edge :
    (c t : CardLifeCycle) (force : Bool) (p : ℕ)
    → check_transition c t force ≡ ok (apply_p2 p)
    → Edge c t force
unfolding check_transition plan_for raw_byte same_state
plan-Edge op_ready initialized f p h = initialize f
plan-Edge op_ready secured true p h = skip_ahead
plan-Edge initialized secured f p h = secure f
plan-Edge secured card_locked f p h = lock f
plan-Edge card_locked secured f p h = unlock f
plan-Edge c t f p h = absurd (ground arith)

decode-raw_byte_lem : (b : ℕ) → raw_byte (decode_life_cycle b) ≡ b
unfolding raw_byte decode_life_cycle
decode-raw_byte_lem b = ground arith

-- A state as `decode_life_cycle` makes it: one that it has a name for is not `Unknown`.
abbrev pub IsDecoded : CardLifeCycle → Type 0
IsDecoded (unknown b) = b ≢ 0x01 × b ≢ 0x07 × b ≢ 0x0F × b ≢ 0x7F × b ≢ 0xFF
IsDecoded _ = Unit {0}

decode_raw : (s : CardLifeCycle) → IsDecoded s → decode_life_cycle (raw_byte s) ≡ s
unfolding raw_byte decode_life_cycle
decode_raw (unknown b) h = ground arith
decode_raw s h = refl

read_back_IsDecoded : (s : CardLifeCycle) → decode_life_cycle (raw_byte s) ≡ s → IsDecoded s
unfolding raw_byte decode_life_cycle
read_back_IsDecoded (unknown b) h = ground arith
read_back_IsDecoded op_ready h = tt
read_back_IsDecoded initialized h = tt
read_back_IsDecoded secured h = tt
read_back_IsDecoded card_locked h = tt
read_back_IsDecoded terminated h = tt

-- Every octet is decoded to a state that `raw_byte` writes as that octet, and the states that come
-- from an octet are exactly those that are read back as themselves.
pub raw_byte-decode_life_cycle :
    (b : ℕ) (s : CardLifeCycle)
    → (raw_byte (decode_life_cycle b) ≡ b) × (IsDecoded s ↔ (decode_life_cycle (raw_byte s) ≡ s))
raw_byte-decode_life_cycle b s = (decode-raw_byte_lem b, (decode_raw s, read_back_IsDecoded s))

-- `check_transition` asks for a SET STATUS exactly along an edge of the graph, and then with the
-- octet that codes the target state.
pub check_transition_iff :
    (current target : CardLifeCycle) (force : Bool) (p2 : ℕ)
    → (check_transition current target force ≡ ok (apply_p2 p2))
      ↔ (Edge current target force × (p2 ≡ raw_byte target))
check_transition_iff c t f p2 = (
  (λ h.
      let e = plan-Edge c t f p2 h in (e, same_octet p2 (raw_byte t) (sym h ∙ Edge-plan c t f e))),
  λ h. Edge-plan c t f h.0 ∙ ap (λ x. ok (apply_p2 x)) (sym h.1),
)
  where
    same_octet :
        (a b : ℕ)
        → Path (Result ScllError TransitionPlan) (ok (apply_p2 a)) (ok (apply_p2 b))
        → a ≡ b
    same_octet a b e = cc e

same_state_refl : (a : CardLifeCycle) → same_state a a ≡ true
unfolding same_state
same_state_refl (unknown a) = (==_iff a a).1 refl
same_state_refl a = refl

same_state_eq : (a b : CardLifeCycle) → same_state a b ≡ true → a ≡ b
unfolding same_state
same_state_eq op_ready op_ready h = refl
same_state_eq initialized initialized h = refl
same_state_eq secured secured h = refl
same_state_eq card_locked card_locked h = refl
same_state_eq terminated terminated h = refl
same_state_eq (unknown a) (unknown b) h = ap unknown ((==_iff a b).0 h)
same_state_eq a b h = absurd (ground arith)

-- A state that SET STATUS may ask for.
abbrev pub IsSettable : CardLifeCycle → Type 0
IsSettable terminated = ⊥
IsSettable (unknown b) = ⊥
IsSettable _ = Unit {0}

settable_no_op :
    (a : CardLifeCycle) (force : Bool) → IsSettable a → check_transition a a force ≡ ok no_op
unfolding check_transition same_state
settable_no_op op_ready force h = refl
settable_no_op initialized force h = refl
settable_no_op secured force h = refl
settable_no_op card_locked force h = refl
settable_no_op terminated force h = absurd h
settable_no_op (unknown b) force h = absurd h

pub no_op-IsSettable :
    (a b : CardLifeCycle) (force : Bool)
    → check_transition a b force ≡ ok no_op
    → (a ≡ b) × IsSettable b
unfolding check_transition plan_for same_state
no_op-IsSettable op_ready op_ready force h = (refl, tt)
no_op-IsSettable initialized initialized force h = (refl, tt)
no_op-IsSettable secured secured force h = (refl, tt)
no_op-IsSettable card_locked card_locked force h = (refl, tt)
no_op-IsSettable a b force h = absurd (ground arith)

-- `check_transition` plans nothing to do exactly if the target is a state that may be asked for and
-- is the current state.
pub check_transition_no_op :
    (current target : CardLifeCycle) (force : Bool)
    → (check_transition current target force ≡ ok no_op) ↔ ((current ≡ target) × IsSettable target)
check_transition_no_op current target force =
    (no_op-IsSettable current target force, λ h. rw (h.0) (settable_no_op target force h.1))

-- `check_transition` refuses with `TerminateOutOfScope` exactly the target TERMINATED, whatever
-- the current state is and with or without `force`.
pub check_transition_terminate :
    (current target : CardLifeCycle) (force : Bool)
    → (check_transition current target force ≡ err ScllError.terminate_out_of_scope)
      ↔ (target ≡ terminated)
unfolding check_transition plan_for same_state
check_transition_terminate current target force = (refused current target force, terminate target)
  where
    refused :
        (c t : CardLifeCycle) (f : Bool)
        → check_transition c t f ≡ err ScllError.terminate_out_of_scope
        → t ≡ terminated
    refused c terminated f h = refl
    refused c t f h = absurd (ground arith)

    terminate :
        (t : CardLifeCycle)
        → t ≡ terminated
        → check_transition current t force ≡ err ScllError.terminate_out_of_scope
    terminate t e = rw (e) refl

-- How far the card's life has come: it goes on from OP_READY to INITIALIZED and then to SECURED or
-- CARD_LOCKED.
abbrev pub stage : CardLifeCycle → ℕ
stage op_ready = 0
stage initialized = 1
stage secured = 2
stage card_locked = 2
stage terminated = 3
stage (unknown b) = 4

-- The states that a card reaches by requests that `check_transition` lets through, with or without
-- `force`.
pub data Life : CardLifeCycle → CardLifeCycle → Type 0 where
  stay : (s : CardLifeCycle) → Life s s
  request :
      (s t u : CardLifeCycle) (force : Bool) (plan : TransitionPlan)
      → check_transition s t force ≡ ok plan
      → Life t u
      → Life s u

Edge-Life : {s t : CardLifeCycle} (f : Bool) → Edge s t f → Life s t
Edge-Life {s} {t} f e = request s t t f (apply_p2 (raw_byte t)) (Edge-plan s t f e) (stay t)

forward : (s t : CardLifeCycle) → IsSettable s → IsSettable t → stage s ≤ stage t → Life s t
forward op_ready op_ready hs ht h = stay op_ready
forward op_ready initialized hs ht h = Edge-Life false (initialize false)
forward op_ready secured hs ht h = Edge-Life true skip_ahead
forward op_ready card_locked hs ht h =
    request op_ready secured card_locked true (apply_p2 (raw_byte secured))
      (Edge-plan op_ready secured true skip_ahead) (Edge-Life false (lock false))
forward initialized initialized hs ht h = stay initialized
forward initialized secured hs ht h = Edge-Life false (secure false)
forward initialized card_locked hs ht h =
    request initialized secured card_locked false (apply_p2 (raw_byte secured))
      (Edge-plan initialized secured false (secure false)) (Edge-Life false (lock false))
forward secured secured hs ht h = stay secured
forward secured card_locked hs ht h = Edge-Life false (lock false)
forward card_locked secured hs ht h = Edge-Life false (unlock false)
forward card_locked card_locked hs ht h = stay card_locked
forward s t hs ht h = absurd (ground arith)

step_forward :
    (s t : CardLifeCycle) (force : Bool) (plan : TransitionPlan)
    → check_transition s t force ≡ ok plan
    → IsSettable s × IsSettable t × (stage s ≤ stage t)
unfolding check_transition plan_for same_state
step_forward op_ready op_ready f plan h = (tt, tt, omega arith)
step_forward op_ready initialized f plan h = (tt, tt, omega arith)
step_forward op_ready secured f plan h = (tt, tt, omega arith)
step_forward initialized initialized f plan h = (tt, tt, omega arith)
step_forward initialized secured f plan h = (tt, tt, omega arith)
step_forward secured secured f plan h = (tt, tt, omega arith)
step_forward secured card_locked f plan h = (tt, tt, omega arith)
step_forward card_locked secured f plan h = (tt, tt, omega arith)
step_forward card_locked card_locked f plan h = (tt, tt, omega arith)
step_forward s t f plan h = absurd (ground arith)

Life-forward :
    (s u : CardLifeCycle) → Life s u → (s ≡ u) ⊎ (IsSettable s × IsSettable u × (stage s ≤ stage u))
Life-forward s u (stay s') = inl refl
Life-forward s u (request s' t u' force plan h life) =
    let now = step_forward s t force plan h in
    elim (Life-forward t u life) [
      | inl done ↦ inr (now.0, rw (sym done) (now.1), rw (sym done) (now.2))
      | inr later ↦ inr (now.0, later.1, omega (arith, now.2, later.2))
    ]

-- The states that a card reaches by the requests that `check_transition` lets through are, besides
-- the one it is in, exactly the states that may be asked for and come no earlier in its life, and
-- only if its own state is one of these: no request leads back to OP_READY or INITIALIZED, to
-- TERMINATED, or out of TERMINATED or an unknown state.
pub Life-iff :
    (s t : CardLifeCycle)
    → Life s t ↔ ((s ≡ t) ⊎ (IsSettable s × IsSettable t × (stage s ≤ stage t)))
Life-iff s t = (Life-forward s t, reach)
  where
    reach : ((s ≡ t) ⊎ (IsSettable s × IsSettable t × (stage s ≤ stage t))) → Life s t
    reach (inl same) = rw same (stay t)
    reach (inr later) = forward s t later.0 later.1 later.2
