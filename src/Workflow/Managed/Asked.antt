-- ===== src/Workflow/Managed/Asked.antt =====
-- What a command through the channel has done when it succeeds, in
-- crates/scll-core/src/workflow/{applet, ssd}.rs.
use scll_rust.Prelude.{
  ℕ, ◌≡◌, inl, inr, ap, ◌∙◌, List, ◌==◌, ==_iff, Result, ok, map_err, map_err-ok, arith, Bool-cases,
}
use scll_rust.Prelude.Actions.{went_on, went_on_lift}
use scll_rust.Prelude.Heapless.{Heapless}
use scll_rust.Command.{BuildError}
use scll_rust.Error.{ScllError}
use scll_rust.Scp.Backend.{Scp03Backend, Scp02Backend}
use scll_rust.Scp.Sessions.{ScpSession}
use scll_rust.Session.{Transport, sw_ok, transmit_in_session}
use scll_rust.Workflow.Managed.{match_sw, ask}

match_sw-ok :
    (arms : List (ℕ × ScllError)) (sw : ℕ) (u : Unit {0}) → match_sw arms sw ≡ ok u → sw ≡ sw_ok
unfolding match_sw
match_sw-ok arms sw u h = elim (Bool-cases (sw == sw_ok)) [
  | inl good ↦ (==_iff sw sw_ok).0 good
  | inr bad ↦ absurd (ground (arith, bad, h))
]

module _ ⦃hl : Heapless⦄ {W : Type 0} (t : Transport W) (b03 : Scp03Backend W)
    (b02 : Scp02Backend W) where
  -- The command was built, sent through the channel, and answered with 9000.
  abbrev pub Sent : Result BuildError (List ℕ) → ScpSession × W → ScpSession × W → Type 0
  Sent made x x' =
      (capdu : List ℕ) × (body : List ℕ) × (made ≡ ok capdu)
      × (transmit_in_session t b03 b02 capdu x ≡ (ok (body, sw_ok), x'))

  pub ask-Sent :
      (made : Result BuildError (List ℕ)) (arms : List (ℕ × ScllError)) (u : Unit {0})
      (x x' : ScpSession × W)
      → ask t b03 b02 made arms x ≡ (ok u, x')
      → Sent made x x'
  unfolding ask
  ask-Sent made arms u x x' h0 =
      let (capdu, built, h1) = went_on_lift _ _ _ _ _ h0 in
      let (answer, x1, sent, h2) = went_on _ _ _ _ h1 in
      sent_lem made arms capdu (answer.0) (answer.1) u x x1 x' built sent h2
    where
      sent_lem :
          (made : Result BuildError (List ℕ)) (arms : List (ℕ × ScllError)) (capdu body : List ℕ)
          (sw : ℕ) (u : Unit {0}) (x x1 x' : ScpSession × W)
          → map_err ScllError.build made ≡ ok capdu
          → transmit_in_session t b03 b02 capdu x ≡ (ok (body, sw), x1)
          → Path (Result ScllError (Unit {0}) × (ScpSession × W)) (match_sw arms sw, x1) (ok u, x')
          → Sent made x x'
      sent_lem made arms capdu body sw u x x1 x' built sent done =
          let word = match_sw-ok arms sw u (ap (λ o. o.0) done) in
          (
            capdu,
            body,
            map_err-ok ScllError.build made capdu built,
            sent
                ∙ ap (λ n. (ok (body, n), x1)) word
                ∙ ap (λ y. (ok (body, sw_ok), y)) (ap (λ o. o.1) done),
          )
