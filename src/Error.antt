-- ===== src/Error.antt =====
-- crates/scll-core/src/error.rs with the error types it wraps. The text that an error carries
-- (a fixed-capacity string) is the list of its octets.
use scll_rust.Prelude.{ℕ, List, ◌==◌, if◌then◌else◌}
use scll_rust.Tlv.{TlvError}
use scll_rust.Command.{BuildError}

-- `component` is the missing component's position in the list of their names.
pub data CapError : Type 0 where
  not_a_zip malformed inflate : CapError
  missing_component : ℕ → CapError

pub data BackendError : Type 0 where
  key_import key_gen crypto rng unsupported : List ℕ → BackendError

pub data TransportError : Type 0 where
  card_removed reader_gone timeout protocol_error : TransportError
  other : List ℕ → TransportError

pub data ScllError : Type 0 where
  transport_unavailable card_removed reader_gone timeout : ScllError
  scp_protocol_unsupported no_common_security_level kvn_mismatch : ScllError
  card_cryptogram_fail card_challenge_fail : ScllError
  external_auth_fail : ℕ → ScllError
  security_status_not_satisfied no_open_channel key_not_found : ScllError
  key_type_unsupported : ℕ → List ℕ → ScllError
  key_check_value_mismatch cannot_delete_active_keyset : ScllError
  invalid_aid : ℕ → ScllError
  aid_already_exists package_aid_exists package_not_found resident_sd_not_found : ScllError
  load_too_large ssd_has_applets elf_has_other_instances : ScllError
  card_not_usable illegal_lifecycle_transition conditions_not_satisfied : ScllError
  isd_aid_not_found session_not_isd target_no_longer_exists terminate_out_of_scope : ScllError
  parent_lacks_am unsupported_privilege : ScllError
  card : ℕ → ScllError
  malformed_response : TlvError → ScllError
  build : BuildError → ScllError
  cap : CapError → ScllError
  backend : BackendError → ScllError

unfoldable pub from_general_sw : ℕ → ScllError
from_general_sw sw =
    if sw == 0x6982
    then ScllError.security_status_not_satisfied
    else if sw == 0x6985
    then ScllError.conditions_not_satisfied
    else ScllError.card sw
