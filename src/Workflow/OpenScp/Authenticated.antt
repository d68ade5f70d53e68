-- ===== src/Workflow/OpenScp/Authenticated.antt =====
-- What has happened when open_scp of crates/scll-core/src/workflow/open_scp.rs reports a channel.
use scll_rust.Prelude.{ℕ, ◌≤◌, ◌≡◌, length, true, ◌⊎◌, List, some, ok}
use scll_rust.Prelude.Heapless.{Heapless}
use scll_rust.Aid.{Aid}
use scll_rust.Scp.{ScpVariant, scp02, scp03}
use scll_rust.Scp
use scll_rust.Scp.Backend.{KeyBackend, Scp03Backend, Scp02Backend}
use scll_rust.Command.Apdu.{read_apdu}
use scll_rust.Command.Frame.{command}
use scll_rust.Scp.Backend.{from_i, field_len}
use scll_rust.Scp.Scp03.{Scp03State}
use scll_rust.Scp.Scp02.{Scp02State}
use scll_rust.Scp.Sessions.{
  by_scp03, by_scp02, protocol_03, protocol_02, kvn, i_param, security_level, session_id,
}
use scll_rust.Session.{Transport, sw_ok, select}
use scll_rust.Session.Exchange.{Answer}
use scll_rust.Session.Name.{Names}
use scll_rust.Workflow.OpenScp.{OpenScpArgs, OpenScpReport}
use scll_rust.Workflow.OpenScp.Conversation.{Conversation}
use scll_rust.Workflow.OpenScp.By03.{Shaken03, Updated03}
use scll_rust.Workflow.OpenScp.By02.{Shaken02, Updated02}

module _ ⦃hl : Heapless⦄ where
  -- The invoker is the name that the card gave, if it gave one of 5 to 16 octets, and otherwise the
  -- target.
  abbrev pub Invoked : List ℕ → Aid → Aid → Type 0
  Invoked fci target invoker =
      (Names fci invoker.as_bytes × (5 ≤ length invoker.as_bytes) × (length invoker.as_bytes ≤ 16))
      ⊎ ((invoker ≡ target)
          × ((name : List ℕ) → Names fci name → 5 ≤ length name → length name ≤ 16 → ⊥))

  -- The effective parameters are those of the session that the handshake made.
  abbrev pub About03 : Scp03State → OpenScpReport → Type 0
  About03 st report =
      (report.session ≡ by_scp03 st)
      × (report.effective.scp_protocol_effective ≡ protocol_03)
      × (report.effective.kvn_effective ≡ st.kvn)
      × (report.effective.i_param_effective ≡ st.i_param)
      × (report.effective.security_level_effective ≡ st.security_level)
      × (report.effective.session_id ≡ st.session)

  abbrev pub About02 : Scp02State → OpenScpReport → Type 0
  About02 st report =
      (report.session ≡ by_scp02 st)
      × (report.effective.scp_protocol_effective ≡ protocol_02)
      × (report.effective.kvn_effective ≡ st.kvn)
      × (report.effective.i_param_effective ≡ st.i_param)
      × (report.effective.security_level_effective ≡ st.security_level)
      × (report.effective.session_id ≡ st.session)

  -- What the caller asked for is in the report.
  abbrev pub Asked : OpenScpArgs → Aid → Aid → OpenScpReport → Type 0
  Asked args target invoker report =
      (report.effective.target_aid ≡ target)
      × (report.effective.target_kind ≡ args.target_kind)
      × (report.effective.sd_aid_used_for_keys ≡ target)
      × (report.effective.kvn_requested ≡ args.kvn)
      × (report.effective.security_level_requested ≡ args.requested_level)
      × (report.effective.invoker_aid_used ≡ invoker)

  module _ {W : Type 0} (t : Transport W) (key : KeyBackend W) (b03 : Scp03Backend W)
      (b02 : Scp02Backend W) (args : OpenScpArgs) where
    -- The handshake by the protocol that was chosen, and the report on the session that it made.
    abbrev pub Opened : Aid → ScpVariant → OpenScpReport → W → W → Type 0
    Opened invoker (scp03 i) report w w' =
        (st : Scp03State) × Conversation t key (field_len (from_i i))
          (Updated03 t key b03 args invoker) (Shaken03 t key b03 args invoker st) w w'
        × About03 st report
    Opened invoker (scp02 i) report w w' =
        (st : Scp02State) × Conversation t key 8 (Updated02 t key b02 args)
          (Shaken02 t key b02 args i st) w w'
        × About02 st report

    -- A card reads the command as SELECT by the name of the target, and answered with the data and
    -- 9000.
    abbrev pub Selected : List ℕ → W → W → Type 0
    Selected fci w w' =
        (capdu : List ℕ) × (rapdu : List ℕ) × (read_apdu capdu
          ≡ some (command 0x00 0xA4 0x04 0x00 args.target_aid true))
        × (t.transmit capdu w ≡ (ok rapdu, w'))
        × Answer rapdu fci sw_ok

    pub record Reported (report : OpenScpReport) (w w' : W) : Type 0 where
      pub variant : ScpVariant
      pub chosen : Scp.select args.advertised args.force_scp ≡ some variant
      pub fci : List ℕ
      pub w1 : W
      pub selected : Selected fci w w1
      pub target : Aid
      pub invoker : Aid
      pub target_checked :
          (target.as_bytes ≡ args.target_aid)
          × (5 ≤ length args.target_aid)
          × (length args.target_aid ≤ 16)
      pub invoked : Invoked fci target invoker
      pub opened : Opened invoker variant report w1 w'
      pub asked : Asked args target invoker report
