-- ===== src/Workflow/CardStatus/Transitions.antt =====
-- set_card_status of crates/scll-core/src/workflow/card_status.rs keeps to the graph of the card's
-- life-cycle states.
use scll_rust.Prelude.{
  ℕ, ◌≤◌, ◌≡◌, sym, ap, ◌∙◌, List, [], Bool, true, false, length, ◌==◌, ==_iff, inl, inr, some,
  Result, ok, map_err-ok, arith, Bool-cases,
}
use scll_rust.Prelude.Actions.{went_on, went_on_lift}
use scll_rust.Prelude.Heapless.{Heapless}
use scll_rust.Command.Apdu.{read_apdu}
use scll_rust.Command.Frame.{command}
use scll_rust.Command.Builders.{set_card_status}
use scll_rust.Command.Builders.Scopes.{select_by_aid-load_block-set_card_status}
use scll_rust.Error.{ScllError}
use scll_rust.Lifecycle.{CardLifeCycle, TransitionPlan, no_op, apply_p2, check_transition, raw_byte}
use scll_rust.Lifecycle.Matrix.{Edge, check_transition_iff, no_op-IsSettable}
use scll_rust.Scp.Backend.{Scp03Backend, Scp02Backend}
use scll_rust.Scp.Sessions.{ScpSession}
use scll_rust.Session.{Transport, sw_ok, transmit_in_session}
use scll_rust.Workflow.{WarningKind, life_cycle_no_op}
use scll_rust.Workflow.CardStatus
use scll_rust.Workflow.CardStatus.{
  SetCardStatusArgs, SetCardStatusReport, warned, report_of, current_state, carry_out,
  set_status_answer,
}

good_answer : (sw : ℕ) (u : Unit {0}) → set_status_answer sw ≡ ok u → sw ≡ sw_ok
unfolding set_status_answer
good_answer sw u h = elim (Bool-cases (sw == sw_ok)) [
  | inl good ↦ (==_iff sw sw_ok).0 good
  | inr bad ↦ absurd (ground (arith, bad, h))
]

module _ ⦃hl : Heapless⦄ {W : Type 0} (t : Transport W) (b03 : Scp03Backend W)
    (b02 : Scp02Backend W) (args : SetCardStatusArgs) where
  -- What the card is asked for and has granted, by whether there was anything to do.
  abbrev pub Granted : CardLifeCycle → Bool → ℕ → ScpSession × W → ScpSession × W → Type 0
  Granted current true p2 x x' = (current ≡ args.target_state) × (x ≡ x')
  Granted current false p2 x x' =
      Edge current args.target_state args.force
      × (capdu : List ℕ) × (body : List ℕ) × (read_apdu capdu
          ≡ some (command 0x84 0xF0 0x80 p2 args.isd_aid false))
      × (transmit_in_session t b03 b02 capdu x ≡ (ok (body, sw_ok), x'))

  applied :
      (current : CardLifeCycle) (p2 : ℕ) (out : Bool × ℕ × List WarningKind) (capdu body : List ℕ)
      (sw : ℕ) (x x1 x' : ScpSession × W)
      → length args.isd_aid ≤ 255
      → Edge current args.target_state args.force
      → p2 ≡ raw_byte args.target_state
      → set_card_status p2 args.isd_aid ≡ ok capdu
      → transmit_in_session t b03 b02 capdu x ≡ (ok (body, sw), x1)
      → sw ≡ sw_ok
      → Path
          (Result ScllError (Bool × ℕ × List WarningKind) × (ScpSession × W))
          (ok (false, p2, []), x1)
          (ok out, x')
      → Granted current (out.0) (out.1) x x' × (out.1 ≡ raw_byte args.target_state)
  applied current p2 out capdu body sw x x1 x' small edge octet built sent good h =
      let same : Path (Bool × ℕ × List WarningKind) (false, p2, []) out = cc (ap (λ o. o.0) h) in
      let (apdu, made, reads, short) =
        (select_by_aid-load_block-set_card_status args.isd_aid 0 p2 true small).2 in
      let octets : apdu ≡ capdu = cc (made, built) in
      let told : transmit_in_session t b03 b02 capdu x ≡ (ok (body, sw_ok), x') =
        sent
        ∙ ap (λ n. (ok (body, n), x1)) good
        ∙ ap (λ y. (ok (body, sw_ok), y)) (ap (λ o. o.1) h) in
      rw (sym (ap (λ o. o.0) same), sym (ap (λ o. o.1) same))
        ((edge, capdu, body, rw (sym octets) reads, told), octet)

  carried_out :
      (current : CardLifeCycle) (plan : TransitionPlan) (out : Bool × ℕ × List WarningKind)
      (x x' : ScpSession × W)
      → length args.isd_aid ≤ 255
      → check_transition current args.target_state args.force ≡ ok plan
      → carry_out t b03 b02 plan args.target_state args.isd_aid x ≡ (ok out, x')
      → Granted current (out.0) (out.1) x x' × (out.1 ≡ raw_byte args.target_state)
  unfolding carry_out
  carried_out current no_op (was, p2, warnings) x x' small planned h =
      let same : Path (Bool × ℕ × List WarningKind)
          (true, raw_byte args.target_state, warned [] life_cycle_no_op) (was, p2, warnings) =
        cc (ap (λ o. o.0) h) in
      let (state, settable) = no_op-IsSettable current args.target_state args.force planned in
      rw (sym (ap (λ o. o.0) same)) ((state, ap (λ o. o.1) h), sym (ap (λ o. o.1) same))
  carried_out current (apply_p2 p2) (was, p2', warnings) x x' small planned h0 =
      let (edge, octet) =
        (check_transition_iff current args.target_state args.force p2).0 planned in
      let (capdu, built, h1) = went_on_lift _ _ _ _ _ h0 in
      let (answer, x1, sent, h2) = went_on _ _ _ _ h1 in
      let (u, good, h3) = went_on_lift _ _ _ _ _ h2 in
      applied current p2 (was, p2', warnings) capdu (answer.0) (answer.1) x x1 x' small edge octet
        (map_err-ok ScllError.build (set_card_status p2 args.isd_aid) capdu built) sent
        (good_answer (answer.1) u good) h3

  -- If `set_card_status` reports success, for an AID of at most 255 octets, then the report names the
  -- state that the card was in, given or read, and either that is the target, nothing was sent after
  -- the reading, and the report says so, or an edge of the graph leads from it to the target, and the
  -- one command that was sent is read by a card as SET STATUS to the target and was answered with
  -- 9000; the octet in the report codes the target in both cases.
  pub set_card_status-Granted :
      (report : SetCardStatusReport) (x x' : ScpSession × W)
      → length args.isd_aid ≤ 255
      → CardStatus.set_card_status t b03 b02 args x ≡ (ok report, x')
      → (current : CardLifeCycle) × (x1 : ScpSession × W) × (current_state t b03 b02
            args.current_state args.isd_aid x
          ≡ (ok current, x1))
        × (report.effective.state_before ≡ current)
        × Granted current report.effective.was_no_op report.effective.p2_state_byte x1 x'
        × (report.effective.p2_state_byte ≡ raw_byte args.target_state)
  unfolding CardStatus.set_card_status
  set_card_status-Granted report x x' small h0 =
      let (current, x1, found, h1) = went_on _ _ _ _ h0 in
      let (plan, planned, h2) = went_on_lift _ _ _ _ _ h1 in
      let (out, x2, carried, h3) = went_on _ _ _ _ h2 in
      reported current plan out report x x1 x2 x' small found planned carried h3
    where
      reported :
          (current : CardLifeCycle) (plan : TransitionPlan) (out : Bool × ℕ × List WarningKind)
          (report : SetCardStatusReport) (x x1 x2 x' : ScpSession × W)
          → length args.isd_aid ≤ 255
          → current_state t b03 b02 args.current_state args.isd_aid x ≡ (ok current, x1)
          → check_transition current args.target_state args.force ≡ ok plan
          → carry_out t b03 b02 plan args.target_state args.isd_aid x1 ≡ (ok out, x2)
          → Path
              (Result ScllError SetCardStatusReport × (ScpSession × W))
              (ok (report_of args current (out.0) (out.1) (out.2)), x2)
              (ok report, x')
          → (current : CardLifeCycle) × (x1 : ScpSession × W) × (current_state t b03 b02
                args.current_state args.isd_aid x
              ≡ (ok current, x1))
            × (report.effective.state_before ≡ current)
            × Granted current report.effective.was_no_op report.effective.p2_state_byte x1 x'
            × (report.effective.p2_state_byte ≡ raw_byte args.target_state)
      reported current plan out report x x1 x2 x' small found planned carried done =
          let same : report_of args current (out.0) (out.1) (out.2) ≡ report =
            cc (ap (λ o. o.0) done) in
          let world : x2 ≡ x' = ap (λ o. o.1) done in
          let (granted, octet) =
            carried_out current plan out x1 x' small planned
              (carried ∙ ap (λ y. (ok out, y)) world) in
          (
            current,
            x1,
            found,
            sym (ap (λ r. r.effective.state_before) same),
            rw (sym same) granted,
            rw (sym same) octet,
          )
