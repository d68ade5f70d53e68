-- ===== src/Workflow/OpenScp/By02.antt =====
-- open_scp of crates/scll-core/src/workflow/open_scp.rs when the protocol is SCP02.
use scll_rust.Prelude.{ℕ, ◌≡◌, refl, ap, ◌∙◌, List, false, not, ◌==◌, Result, ok}
use scll_rust.Prelude.Actions.{went_on, went_on_lift, went_on_guard, went_on_renamed}
use scll_rust.Prelude.Heapless.{Heapless}
use scll_rust.Error.{ScllError}
use scll_rust.Scp.Backend.{KeyBackend, Scp02Backend}
use scll_rust.Scp.Scp02
use scll_rust.Scp.Scp02.{Scp02State}
use scll_rust.Scp.Scp02.Opened
use scll_rust.Scp.Scp02.Opened.{Handshake02, begin-Handshake02}
use scll_rust.Scp.Sessions.{by_scp02, kvn, i_param, security_level}
use scll_rust.Session.{Transport, sw_ok, transmit_plain}
use scll_rust.Workflow.OpenScp.{OpenScpArgs, Channel, scp02_key_id, open_scp02}
use scll_rust.Workflow.OpenScp.Update.{IsUpdate, iu_02-IsUpdate}
use scll_rust.Workflow.OpenScp.Conversation.{
  Conversation, with_parameters, of_session, same_channel, converse,
}

module _ ⦃hl : Heapless⦄ where
  module _ {W : Type 0} (t : Transport W) (key : KeyBackend W) where
    module _ (b02 : Scp02Backend W) (args : OpenScpArgs) where
      abbrev pub Shaken02 : ℕ → Scp02State → List ℕ → List ℕ → List ℕ → W → W → Type 0
      Shaken02 i st hc response ea =
          Handshake02 key b02 args.sd_keys.enc args.sd_keys.mac args.sd_keys.dek i args.kvn
            args.requested_level hc response st ea

      -- INITIALIZE UPDATE with the requested key version number and the challenge of 8 octets.
      abbrev pub Updated02 : List ℕ → List ℕ → Type 0
      Updated02 hc capdu = IsUpdate args.kvn 8 hc capdu

      -- What has happened when a channel is open by SCP02.
      abbrev pub Authenticated02 : ℕ → Channel → W → W → Type 0
      Authenticated02 i o w w' =
          (st : Scp02State) × Conversation t key 8 Updated02 (Shaken02 i st) w w'
          × (o ≡ of_session (by_scp02 st))

      channel02 :
          (i : ℕ) (hc response ea : List ℕ) (iu : Scp02.IuResponse) (st : Scp02State) (o : Channel)
          (w2 w3 w4 w' : W)
          → Scp02.parse_iu_response response ≡ ok iu
          → Shaken02 i st hc response ea w2 w3
          → Path
              (Result ScllError Channel × W)
              (ok (with_parameters (by_scp02 st) iu.kvn i st.security_level), w4)
              (ok o, w')
          → (o ≡ of_session (by_scp02 st)) × (w4 ≡ w')
      unfolding kvn i_param security_level
      channel02 i hc response ea iu st o w2 w3 w4 w' parsed hand h =
          let response : hand.iu ≡ iu = cc (parsed, hand.parsed) in
          same_channel (by_scp02 st) iu.kvn i st.security_level o w4 w'
            (hand.same_kvn ∙ ap (λ x. x.kvn) response) hand.same_i refl h

      pub authenticated02 :
          (i : ℕ) (o : Channel) (w w' : W)
          → open_scp02 t key b02 args i w ≡ (ok o, w')
          → Authenticated02 i o w w'
      unfolding open_scp02
      authenticated02 i o w w' h0 =
          let (hc, w1, drawn, h1) = went_on_renamed _ _ _ _ _ h0 in
          let (iu_capdu, framed, h2) = went_on_lift _ _ _ _ _ h1 in
          let (iu_parts, w2, asked, h3) = went_on _ _ _ _ h2 in
          let (good, h4) = went_on_guard _ _ _ _ _ _ h3 in
          let (iu, parsed, h5) = went_on_lift _ _ _ _ _ h4 in
          let (begun, w3, shaken, h6) = went_on _ _ _ _ h5 in
          let (ea_parts, w4, sent, h7) = went_on _ _ _ _ h6 in
          let (ea_good, h8) = went_on_guard _ _ _ _ _ _ h7 in
          authenticated_lem i o w w' hc w1 drawn iu_capdu framed iu_parts w2 asked good iu parsed
            (begun.0) (begun.1) w3 shaken ea_parts w4 sent ea_good h8
        where
          authenticated_lem :
              (i : ℕ) (o : Channel) (w w' : W) (hc : List ℕ) (w1 : W)
              (drawn : key.random_bytes 8 w ≡ (ok hc, w1)) (iu_capdu : List ℕ)
              (framed : Scp02.iu_command args.kvn scp02_key_id hc ≡ ok iu_capdu)
              (iu_parts : List ℕ × ℕ) (w2 : W)
              (asked : transmit_plain t iu_capdu w1 ≡ (ok iu_parts, w2))
              (good : not (iu_parts.1 == sw_ok) ≡ false) (iu : Scp02.IuResponse)
              (parsed : Scp02.parse_iu_response (iu_parts.0) ≡ ok iu) (st : Scp02State)
              (ea : List ℕ) (w3 : W)
              (shaken : Opened.begin key b02 args.sd_keys.enc args.sd_keys.mac args.sd_keys.dek i
                  args.kvn args.requested_level hc
                  (iu_parts.0)
                  w2
                ≡ (ok (st, ea), w3))
              (ea_parts : List ℕ × ℕ) (w4 : W) (sent : transmit_plain t ea w3 ≡ (ok ea_parts, w4))
              (ea_good : not (ea_parts.1 == sw_ok) ≡ false)
              → Path
                  (Result ScllError Channel × W)
                  (ok (with_parameters (by_scp02 st) iu.kvn i st.security_level), w4)
                  (ok o, w')
              → Authenticated02 i o w w'
          authenticated_lem i o w w' hc w1 drawn iu_capdu framed iu_parts w2 asked good iu parsed st
                ea w3 shaken ea_parts w4 sent ea_good h =
              let hand =
                begin-Handshake02 key b02 args.sd_keys.enc args.sd_keys.mac args.sd_keys.dek i
                  args.kvn args.requested_level hc (iu_parts.0) st ea w2 w3 shaken in
              let (same, world) =
                channel02 i hc (iu_parts.0) ea iu st o w2 w3 w4 w' parsed hand h in
              (
                st,
                converse t key 8 Updated02 (Shaken02 i st) w w' hc w1 drawn iu_capdu
                    (iu_02-IsUpdate args.kvn hc iu_capdu framed) iu_parts w2 asked good ea w3 hand
                    ea_parts (sent ∙ ap (λ x. (ok ea_parts, x)) world) ea_good,
                same,
              )
