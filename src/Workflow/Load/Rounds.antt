-- ===== src/Workflow/Load/Rounds.antt =====
-- The number of rounds of the loop of `load_package` in crates/scll-core/src/workflow/ssd.rs.
use scll_rust.Prelude.{
  ℕ, zero, suc, ◌+◌, ◌<◌, ◌≡◌, refl, ap, ◌∙◌, List, [], ◌∷◌, length, Bool, true, false, leb, Option,
  none, some, Result, ok, err, stuck, arith,
}
use scll_rust.Prelude.Actions.{Action, resume}
use scll_rust.Prelude.Heapless.{Heapless}
use scll_rust.Error.{ScllError}
use scll_rust.Scp.Backend.{Scp03Backend, Scp02Backend}
use scll_rust.Scp.Sessions.{ScpSession}
use scll_rust.Session.{Transport}
use scll_rust.Cap.Stream.{Inflate, InflateCtx, LoadFileDataBlock}
use scll_rust.Workflow.Load.{Progress, behind, send_block, after_block, load_blocks}
use scll_rust.Workflow.Load.Blocks.{send_block-Sent, send_none}

resume_cong :
    {W E : Type 0} {A B : Type 0} (out : Result E A × W) (f g : A → Action W E B)
    → ((a : A) (w : W) → out ≡ (ok a, w) → f a w ≡ g a w)
    → resume out f ≡ resume out g
unfolding resume
resume_cong (ok a, w) f g same = same a w refl
resume_cong (err e, w) f g same = refl
resume_cong (stuck, w) f g same = refl

module _ ⦃hl : Heapless⦄ {W : Type 0} (i : Inflate) (t : Transport W) (b03 : Scp03Backend W)
    (b02 : Scp02Backend W) where
  after_block_cong :
      (f g : Progress i → Action (ScpSession × W) ScllError ℕ) (step : Option (Bool × Progress i))
      (x : ScpSession × W)
      → ((p : Progress i) (y : ScpSession × W) → step ≡ some (false, p) → f p y ≡ g p y)
      → after_block i t b03 b02 f step x ≡ after_block i t b03 b02 g step x
  unfolding after_block
  after_block_cong f g none x same = refl
  after_block_cong f g (some (true, p)) x same = refl
  after_block_cong f g (some (false, p)) x same =
      ap (λ out. resume out λ n y. (ok (suc n), y)) (same p x refl)

  -- A block that is not the last brings the loop nearer to its end.
  send_block-sent :
      (total : ℕ) (p p' : Progress i) (block : List ℕ × LoadFileDataBlock × InflateCtx i)
      (x x' : ScpSession × W)
      → send_block i t b03 b02 total p block x ≡ (ok (some (false, p')), x')
      → (p.sent < p'.sent) × (p'.sent < total)
  send_block-sent total p p' ([], stream, infl) x x' h =
      absurd (cc ((send_none i t b03 b02 total p stream infl _ x x' h).0))
  send_block-sent total p p' (o ∷ out, stream, infl) x x' h =
      let made = (send_block-Sent i t b03 b02 total p o out stream infl _ x x' h).0 in
      let more : leb total (p.sent + length (o ∷ out)) ≡ false = cc made in
      let here : p' ≡ behind p (length (o ∷ out)) stream infl = cc made in
      let sent : p'.sent ≡ p.sent + length (o ∷ out) = ap (λ q. q.sent) here in
      (omega (arith, sent), ground (arith, sent, more))

  load_blocks-suc :
      (rounds total : ℕ) (p : Progress i) (x : ScpSession × W)
      → p.sent < total
      → total < p.sent + rounds
      → load_blocks i t b03 b02 rounds total p x ≡ load_blocks i t b03 b02 (suc rounds) total p x
  unfolding load_blocks
  load_blocks-suc zero total p x some_left enough = absurd (omega (arith, some_left, enough))
  load_blocks-suc (suc rounds) total p x some_left enough = resume_cong _ _ _ λ block x1 given.
      resume_cong _ _ _ λ step x2 sent. after_block_cong _ _ step x2 λ p' y last.
        let moved = send_block-sent total p p' block x1 x2 (sent ∙ ap (λ s. (ok s, x2)) last) in
        load_blocks-suc rounds total p' y (moved.1) (omega (arith, moved.0, enough))

  -- Where octets are left to send, and there are more rounds than octets left, more rounds change
  -- nothing, whatever the card answers.
  pub load_blocks-more :
      (k rounds total : ℕ) (p : Progress i) (x : ScpSession × W)
      → p.sent < total
      → total < p.sent + rounds
      → load_blocks i t b03 b02 rounds total p x ≡ load_blocks i t b03 b02 (rounds + k) total p x
  load_blocks-more zero rounds total p x some_left enough =
      let same : rounds ≡ rounds + 0 = omega arith in
      ap (λ n. load_blocks i t b03 b02 n total p x) same
  load_blocks-more (suc k) rounds total p x some_left enough =
      let same : suc (rounds + k) ≡ rounds + suc k = omega arith in
      load_blocks-more k rounds total p x some_left enough
      ∙ load_blocks-suc (rounds + k) total p x some_left (omega (arith, enough))
      ∙ ap (λ n. load_blocks i t b03 b02 n total p x) same
