-- ===== src/Workflow/OpenScp.antt =====
-- crates/scll-core/src/workflow/open_scp.rs: opening a secure channel. `Conversation`, `By03`
-- and `By02` are about the exchanges, and `Authenticated` about the whole.
pub mod Update
pub mod Conversation
pub mod By03
pub mod By02
pub mod Authenticated
use scll_rust.Prelude.{
  ℕ, List, [], ◌==◌, not, Option, none, some, Result, ok, err, stuck, ok_or, reject_if,
}
use scll_rust.Prelude.Actions.{Action, ◌>>=◌, ◌>>◌, lift, map_error}
use scll_rust.Prelude.Heapless.{Heapless}
use scll_rust.Aid.{Aid, new}
use scll_rust.Error.{ScllError, from_general_sw}
use scll_rust.Scp.{ScpVariant, scp02, scp03, select}
use scll_rust.Scp.Backend.{KeyBackend, Scp03Backend, Scp02Backend, from_i, field_len}
use scll_rust.Scp.Scp03
use scll_rust.Scp.Scp03.Open
use scll_rust.Scp.Scp02
use scll_rust.Scp.Scp02.Opened
use scll_rust.Scp.Sessions.{
  ScpSession, by_scp03, by_scp02, ScpProtocol, protocol, session_id, security_level,
}
use scll_rust.Session
use scll_rust.Session.{Transport, sw_ok, transmit_plain}
use scll_rust.Session.Parts.{fci_df_name}

abbrev pub scp02_key_id : ℕ
scp02_key_id = 0x00

pub record SdKeys : Type 0 where
  pub enc : ℕ
  pub mac : ℕ
  pub dek : ℕ

pub data ScpTargetKind : Type 0 where
  security_domain_aid application_aid : ScpTargetKind

pub record OpenScpArgs : Type 0 where
  pub target_aid : List ℕ
  pub target_kind : ScpTargetKind
  pub sd_keys : SdKeys
  pub advertised : List ScpVariant
  pub force_scp : Option ScpVariant
  pub kvn : ℕ
  pub requested_level : ℕ

pub record OpenScpParams : Type 0 where
  pub target_aid : Aid
  pub target_kind : ScpTargetKind
  pub sd_aid_used_for_keys : Aid
  pub scp_protocol_effective : ScpProtocol
  pub kvn_requested : ℕ
  pub kvn_effective : ℕ
  pub i_param_effective : ℕ
  pub security_level_requested : ℕ
  pub security_level_effective : ℕ
  pub session_id : ℕ
  pub invoker_aid_used : Aid

-- The list of warnings, always empty, is left out.
pub record OpenScpReport : Type 0 where
  pub session : ScpSession
  pub effective : OpenScpParams

-- The session with the three effective parameters beside it.
pub record Channel : Type 0 where
  pub session : ScpSession
  pub kvn_effective : ℕ
  pub i_param_effective : ℕ
  pub security_level_effective : ℕ

abbrev pub report_of : OpenScpArgs → Aid → Aid → Channel → OpenScpReport
report_of args target_aid invoker_aid o = record {
  session = o.session;
  effective = record {
    target_aid = target_aid;
    target_kind = args.target_kind;
    sd_aid_used_for_keys = target_aid;
    scp_protocol_effective = protocol o.session;
    kvn_requested = args.kvn;
    kvn_effective = o.kvn_effective;
    i_param_effective = o.i_param_effective;
    security_level_requested = args.requested_level;
    security_level_effective = o.security_level_effective;
    session_id = session_id o.session;
    invoker_aid_used = invoker_aid;
  };
}

module _ ⦃hl : Heapless⦄ where
  -- `.and_then(|name| Aid::new(name).ok()).unwrap_or_else(..)`
  abbrev pub or_target : Aid → Result ScllError Aid → Result ScllError Aid
  or_target target (ok a) = ok a
  or_target target (err e) = ok target
  or_target target stuck = stuck

  unfoldable pub invoker_of : Result ScllError (Option (List ℕ)) → Aid → Result ScllError Aid
  invoker_of (ok (some name)) target = or_target target (new name)
  invoker_of (ok none) target = ok target
  invoker_of (err e) target = ok target
  invoker_of stuck target = stuck

  module _ {W : Type 0} (t : Transport W) (key : KeyBackend W) where
    unfoldable pub open_scp03 : Scp03Backend W → OpenScpArgs → Aid → ℕ → Action W ScllError Channel
    open_scp03 b args invoker_aid i_param = do
      host_challenge ← map_error ScllError.backend (key.random_bytes (field_len (from_i i_param)))
      iu_capdu ← lift (Scp03.iu_command args.kvn host_challenge)
      (iu_data, sw) ← transmit_plain t iu_capdu
      lift (reject_if (not (sw == sw_ok)) (from_general_sw sw))
      iu ← lift (Scp03.parse_iu_response iu_data)
      (state, ea) ←
          Open.begin key b args.sd_keys.enc args.sd_keys.mac args.kvn args.requested_level
            host_challenge invoker_aid.as_bytes iu_data
      (d, ea_sw) ← transmit_plain t ea
      lift (reject_if (not (ea_sw == sw_ok)) (ScllError.external_auth_fail ea_sw))
      lift (
          ok (record {
            session = by_scp03 state;
            kvn_effective = iu.kvn;
            i_param_effective = iu.i_param;
            security_level_effective = state.security_level;
          }))

    unfoldable pub open_scp02 : Scp02Backend W → OpenScpArgs → ℕ → Action W ScllError Channel
    open_scp02 b args i_param = do
      host_challenge ← map_error ScllError.backend (key.random_bytes 8)
      iu_capdu ← lift (Scp02.iu_command args.kvn scp02_key_id host_challenge)
      (iu_data, sw) ← transmit_plain t iu_capdu
      lift (reject_if (not (sw == sw_ok)) (from_general_sw sw))
      iu ← lift (Scp02.parse_iu_response iu_data)
      (state, ea) ←
          Opened.begin key b args.sd_keys.enc args.sd_keys.mac args.sd_keys.dek i_param args.kvn
            args.requested_level host_challenge iu_data
      (d, ea_sw) ← transmit_plain t ea
      lift (reject_if (not (ea_sw == sw_ok)) (ScllError.external_auth_fail ea_sw))
      lift (
          ok (record {
            session = by_scp02 state;
            kvn_effective = iu.kvn;
            i_param_effective = i_param;
            security_level_effective = state.security_level;
          }))

    unfoldable pub open_variant :
        Scp03Backend W
        → Scp02Backend W
        → OpenScpArgs
        → Aid
        → ScpVariant
        → Action W ScllError Channel
    open_variant b03 b02 args invoker_aid (scp03 i_param) = open_scp03 b03 args invoker_aid i_param
    open_variant b03 b02 args invoker_aid (scp02 i_param) = open_scp02 b02 args i_param

    unfoldable pub open_scp :
        Scp03Backend W → Scp02Backend W → OpenScpArgs → Action W ScllError OpenScpReport
    open_scp b03 b02 args = do
      variant ←
          lift (ok_or (select args.advertised args.force_scp) ScllError.scp_protocol_unsupported)
      fci ← Session.select t args.target_aid
      target_aid ← lift (new args.target_aid)
      invoker_aid ← lift (invoker_of (fci_df_name fci) target_aid)
      opened ← open_variant b03 b02 args invoker_aid variant
      lift (ok (report_of args target_aid invoker_aid opened))
