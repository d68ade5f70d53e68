-- ===== src/Workflow/OpenScp/By03.antt =====
-- open_scp of crates/scll-core/src/workflow/open_scp.rs when the protocol is SCP03.
use scll_rust.Prelude.{ℕ, ◌≡◌, refl, ap, ◌∙◌, List, false, length, not, ◌==◌, Result, ok}
use scll_rust.Prelude.Actions.{went_on, went_on_lift, went_on_guard, went_on_renamed}
use scll_rust.Prelude.Heapless.{Heapless}
use scll_rust.Aid.{Aid}
use scll_rust.Error.{ScllError}
use scll_rust.Scp.Backend.{KeyBackend, Scp03Backend, from_i, field_len}
use scll_rust.Scp.Scp03
use scll_rust.Scp.Scp03.{Scp03State}
use scll_rust.Scp.Scp03.Open
use scll_rust.Scp.Scp03.Open.Checked.{Handshake, begin-Handshake}
use scll_rust.Scp.Sessions.{by_scp03, kvn, i_param, security_level}
use scll_rust.Session.{Transport, sw_ok, transmit_plain}
use scll_rust.Workflow.OpenScp.{OpenScpArgs, Channel, open_scp03}
use scll_rust.Workflow.OpenScp.Update.{IsUpdate, iu_03-IsUpdate}
use scll_rust.Workflow.OpenScp.Conversation.{
  Conversation, with_parameters, of_session, same_channel, converse,
}

module _ ⦃hl : Heapless⦄ where
  module _ {W : Type 0} (t : Transport W) (key : KeyBackend W) where
    module _ (b03 : Scp03Backend W) (args : OpenScpArgs) (invoker : Aid) where
      abbrev pub Shaken03 : Scp03State → List ℕ → List ℕ → List ℕ → W → W → Type 0
      Shaken03 st hc response ea =
          Handshake key b03 args.sd_keys.enc args.sd_keys.mac args.kvn args.requested_level hc
            invoker.as_bytes response st ea

      -- INITIALIZE UPDATE with the requested key version number and the challenge.
      abbrev pub Updated03 : List ℕ → List ℕ → Type 0
      Updated03 hc capdu = IsUpdate args.kvn (length hc) hc capdu

      -- What has happened when a channel is open by SCP03.
      abbrev pub Authenticated03 : ℕ → Channel → W → W → Type 0
      Authenticated03 i o w w' =
          (st : Scp03State) × Conversation t key (field_len (from_i i)) Updated03 (Shaken03 st) w w'
          × (o ≡ of_session (by_scp03 st))

      channel03 :
          (hc response ea : List ℕ) (iu : Scp03.IuResponse) (st : Scp03State) (o : Channel)
          (w2 w3 w4 w' : W)
          → Scp03.parse_iu_response response ≡ ok iu
          → Shaken03 st hc response ea w2 w3
          → Path
              (Result ScllError Channel × W)
              (ok (with_parameters (by_scp03 st) iu.kvn iu.i_param st.security_level), w4)
              (ok o, w')
          → (o ≡ of_session (by_scp03 st)) × (w4 ≡ w')
      unfolding kvn i_param security_level
      channel03 hc response ea iu st o w2 w3 w4 w' parsed hand h =
          let response : hand.iu ≡ iu = cc (parsed, hand.parsed) in
          same_channel (by_scp03 st) iu.kvn iu.i_param st.security_level o w4 w'
            (hand.same_kvn ∙ ap (λ x. x.kvn) response) (hand.same_i ∙ ap (λ x. x.i_param) response)
            refl h

      pub authenticated03 :
          (i : ℕ) (o : Channel) (w w' : W)
          → open_scp03 t key b03 args invoker i w ≡ (ok o, w')
          → Authenticated03 i o w w'
      unfolding open_scp03
      authenticated03 i o w w' h0 =
          let (hc, w1, drawn, h1) = went_on_renamed _ _ _ _ _ h0 in
          let (iu_capdu, framed, h2) = went_on_lift _ _ _ _ _ h1 in
          let (iu_parts, w2, asked, h3) = went_on _ _ _ _ h2 in
          let (good, h4) = went_on_guard _ _ _ _ _ _ h3 in
          let (iu, parsed, h5) = went_on_lift _ _ _ _ _ h4 in
          let (begun, w3, shaken, h6) = went_on _ _ _ _ h5 in
          let (ea_parts, w4, sent, h7) = went_on _ _ _ _ h6 in
          let (ea_good, h8) = went_on_guard _ _ _ _ _ _ h7 in
          authenticated_lem i o w w' hc w1 drawn iu_capdu framed iu_parts w2 asked good iu parsed
            (begun.0) (begun.1) w3 shaken ea_parts w4 sent ea_good h8
        where
          authenticated_lem :
              (i : ℕ) (o : Channel) (w w' : W) (hc : List ℕ) (w1 : W)
              (drawn : key.random_bytes (field_len (from_i i)) w ≡ (ok hc, w1)) (iu_capdu : List ℕ)
              (framed : Scp03.iu_command args.kvn hc ≡ ok iu_capdu) (iu_parts : List ℕ × ℕ) (w2 : W)
              (asked : transmit_plain t iu_capdu w1 ≡ (ok iu_parts, w2))
              (good : not (iu_parts.1 == sw_ok) ≡ false) (iu : Scp03.IuResponse)
              (parsed : Scp03.parse_iu_response (iu_parts.0) ≡ ok iu) (st : Scp03State)
              (ea : List ℕ) (w3 : W)
              (shaken : Open.begin key b03 args.sd_keys.enc args.sd_keys.mac args.kvn
                  args.requested_level hc invoker.as_bytes
                  (iu_parts.0)
                  w2
                ≡ (ok (st, ea), w3))
              (ea_parts : List ℕ × ℕ) (w4 : W) (sent : transmit_plain t ea w3 ≡ (ok ea_parts, w4))
              (ea_good : not (ea_parts.1 == sw_ok) ≡ false)
              → Path
                  (Result ScllError Channel × W)
                  (ok (with_parameters (by_scp03 st) iu.kvn iu.i_param st.security_level), w4)
                  (ok o, w')
              → Authenticated03 i o w w'
          authenticated_lem i o w w' hc w1 drawn iu_capdu framed iu_parts w2 asked good iu parsed st
                ea w3 shaken ea_parts w4 sent ea_good h =
              let hand =
                begin-Handshake key b03 args.sd_keys.enc args.sd_keys.mac args.kvn
                  args.requested_level hc invoker.as_bytes (iu_parts.0) st ea w2 w3 shaken in
              let (same, world) = channel03 hc (iu_parts.0) ea iu st o w2 w3 w4 w' parsed hand h in
              (
                st,
                converse t key (field_len (from_i i)) Updated03 (Shaken03 st) w w' hc w1 drawn
                    iu_capdu (iu_03-IsUpdate args.kvn hc iu_capdu framed) iu_parts w2 asked good ea
                    w3 hand ea_parts (sent ∙ ap (λ x. (ok ea_parts, x)) world) ea_good,
                same,
              )
