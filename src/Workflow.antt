-- ===== src/Workflow.antt =====
-- crates/scll-core/src/workflow: the operations that the library offers. What they share stands here.
pub mod OpenScp
pub mod CardStatus
pub mod InstallParams
pub mod Managed
pub mod Keys
pub mod Load
use scll_rust.Prelude.{ℕ}

-- error.rs; the text of a warning is always empty, and is left out.
pub data WarningKind : Type 0 where
  card_recognition_data_missing key_information_template_missing : WarningKind
  card_capability_info_missing get_status_parse_failed : WarningKind
  life_cycle_no_op inventory_truncated : WarningKind
  unknown_life_cycle_byte : ℕ → WarningKind

-- limits.rs, `MAX_WARNINGS`
abbrev pub max_warnings : ℕ
max_warnings = 16
