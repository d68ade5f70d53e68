-- ===== src/Workflow/OpenScp/Conversation.antt =====
-- The exchanges that open a channel in crates/scll-core/src/workflow/open_scp.rs, whichever the protocol.
use scll_rust.Prelude.{ℕ, ◌≡◌, sym, ap, ◌∙◌, List, false, not, ◌==◌, Result, ok, arith}
use scll_rust.Prelude.Heapless.{Heapless}
use scll_rust.Error.{ScllError}
use scll_rust.Scp.Backend.{KeyBackend}
use scll_rust.Scp.Sessions.{ScpSession, kvn, i_param, security_level}
use scll_rust.Session.{Transport, sw_ok, transmit_plain}
use scll_rust.Session.Exchange.{Answer, plain-Answer}
use scll_rust.Workflow.OpenScp.{Channel}

-- The effective parameters are those of the session.
abbrev pub with_parameters : ScpSession → ℕ → ℕ → ℕ → Channel
with_parameters s k i level = record {
  session = s;
  kvn_effective = k;
  i_param_effective = i;
  security_level_effective = level;
}

abbrev pub of_session : ScpSession → Channel
of_session s = with_parameters s (kvn s) (i_param s) (security_level s)

-- A channel that has the parameters of the session is the session's.
pub same_channel :
    {W : Type 0} (s : ScpSession) (k i level : ℕ) (o : Channel) (w w' : W)
    → kvn s ≡ k
    → i_param s ≡ i
    → security_level s ≡ level
    → Path (Result ScllError Channel × W) (ok (with_parameters s k i level), w) (ok o, w')
    → (o ≡ of_session s) × (w ≡ w')
same_channel s k i level o w w' same_kvn same_i same_level h =
    let made : with_parameters s k i level ≡ o = cc (ap (λ x. x.0) h) in
    (
      sym made
          ∙ ap (λ x. with_parameters s x i level) (sym same_kvn)
          ∙ ap (λ x. with_parameters s (kvn s) x level) (sym same_i)
          ∙ ap (λ x. with_parameters s (kvn s) (i_param s) x) (sym same_level),
      ap (λ x. x.1) h,
    )

status_good : (sw : ℕ) → not (sw == sw_ok) ≡ false → sw ≡ sw_ok
status_good sw h = ground arith

module _ ⦃hl : Heapless⦄ where
  module _ {W : Type 0} (t : Transport W) (key : KeyBackend W) where
    -- A challenge is drawn, INITIALIZE UPDATE is sent with it and answered with 9000, the answer
    -- goes into the handshake, and the command that comes out of it is sent and answered with 9000.
    pub record Conversation (size : ℕ) (Frame : List ℕ → List ℕ → Type 0)
        (Shake : List ℕ → List ℕ → List ℕ → W → W → Type 0) (w w' : W) : Type 0 where
      pub host_challenge : List ℕ
      pub w1 : W
      pub drawn : key.random_bytes size w ≡ (ok host_challenge, w1)
      pub iu_capdu : List ℕ
      pub framed : Frame host_challenge iu_capdu
      pub iu_rapdu : List ℕ
      pub iu_data : List ℕ
      pub w2 : W
      pub asked : t.transmit iu_capdu w1 ≡ (ok iu_rapdu, w2)
      pub told : Answer iu_rapdu iu_data sw_ok
      pub ea : List ℕ
      pub w3 : W
      pub shaken : Shake host_challenge iu_data ea w2 w3
      pub ea_rapdu : List ℕ
      pub ea_data : List ℕ
      pub sent : t.transmit ea w3 ≡ (ok ea_rapdu, w')
      pub accepted : Answer ea_rapdu ea_data sw_ok

    -- A plain exchange whose status word has been found to be 9000.
    plain_good :
        (capdu : List ℕ) (parts : List ℕ × ℕ) (w w' : W)
        → transmit_plain t capdu w ≡ (ok parts, w')
        → not (parts.1 == sw_ok) ≡ false
        → (rapdu : List ℕ) × (t.transmit capdu w ≡ (ok rapdu, w')) × Answer rapdu (parts.0) sw_ok
    plain_good capdu (body, sw) w w' h good =
        let (rapdu, sent, answer) = plain-Answer t capdu body sw w w' h in
        (rapdu, sent, rw (sym (status_good sw good)) answer)

    pub converse :
        (size : ℕ) (Frame : List ℕ → List ℕ → Type 0)
        (Shake : List ℕ → List ℕ → List ℕ → W → W → Type 0) (w w' : W) (host_challenge : List ℕ)
        (w1 : W) (drawn : key.random_bytes size w ≡ (ok host_challenge, w1)) (iu_capdu : List ℕ)
        (framed : Frame host_challenge iu_capdu) (iu_parts : List ℕ × ℕ) (w2 : W)
        (asked : transmit_plain t iu_capdu w1 ≡ (ok iu_parts, w2))
        (good : not (iu_parts.1 == sw_ok) ≡ false) (ea : List ℕ) (w3 : W)
        (shaken : Shake host_challenge (iu_parts.0) ea w2 w3) (ea_parts : List ℕ × ℕ)
        (sent : transmit_plain t ea w3 ≡ (ok ea_parts, w'))
        (ea_good : not (ea_parts.1 == sw_ok) ≡ false)
        → Conversation size Frame Shake w w'
    converse size Frame Shake w w' host_challenge w1 drawn iu_capdu framed iu_parts w2 asked good ea
          w3 shaken ea_parts sent ea_good =
        let (iu_rapdu, asked', told) = plain_good iu_capdu iu_parts w1 w2 asked good in
        let (ea_rapdu, sent', accepted) = plain_good ea ea_parts w3 w' sent ea_good in
        record {
          host_challenge = host_challenge;
          w1 = w1;
          drawn = drawn;
          iu_capdu = iu_capdu;
          framed = framed;
          iu_rapdu = iu_rapdu;
          iu_data = iu_parts.0;
          w2 = w2;
          asked = asked';
          told = told;
          ea = ea;
          w3 = w3;
          shaken = shaken;
          ea_rapdu = ea_rapdu;
          ea_data = ea_parts.0;
          sent = sent';
          accepted = accepted;
        }
