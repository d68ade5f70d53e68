-- ===== src/Tests/ManagedRuns.antt =====
-- Runs of crates/scll-core/src/workflow/{applet, keys}.rs, and the theorems on them.
use scll_rust.Prelude.{ℕ, suc, ◌≡◌, refl, List, [], ◌∷◌, ◌++◌, true, some, ok, arith}
use scll_rust.Prelude.Actions.{resume, rename}
use scll_rust.Prelude.Slices.{slice, index}
use scll_rust.Prelude.Heapless.{Heapless, plain}
use scll_rust.Aid.{Aid, new}
use scll_rust.Tlv.{parse}
use scll_rust.Command.{push, push_body, build}
use scll_rust.Command.PutKey.{Kcv, push_head, push_block, push_blocks, put_key}
use scll_rust.Scp.Sessions.{ScpSession, by_scp02, wrap, unwrap, protocol}
use scll_rust.Session.{Transport, transmit_in_session}
use scll_rust.Session.Parts.{split_sw}
use scll_rust.Tests.SessionRuns.{marks_02, marks_03, session_at}
use scll_rust.Workflow.InstallParams.{push_tlv, build_install_params}
use scll_rust.Workflow.InstallParams.RoundTrip.{objects_of, build_install_params-parse}
use scll_rust.Workflow.Managed.{
  InstallAppletArgs, InstallAppletParams, DeleteAppletArgs, DeleteObjectParams, always,
  installed_params, deleted_params,
}
use scll_rust.Workflow.Keys.{
  KeyLoading, PutSdKeysArgs, PutKeysParams, aes128, put_params, kcvs_of, encrypt, kcv_of,
  verify_kcv_echo, send_keys, put_sd_keys,
}
use scll_rust.Workflow.Keys.Put.{KeysPut, put_sd_keys-KeysPut}

instance abbrev vectors : Heapless
vectors = plain

abbrev aid_at : ℕ → List ℕ
aid_at n = 0xA0 ∷ 0x00 ∷ 0x00 ∷ 0x01 ∷ n ∷ []

abbrev aid : ℕ → Aid
aid n = record { as_bytes = aid_at n }

abbrev willing_card : Transport ℕ
willing_card = record { transmit = λ capdu w. (ok (0x90 ∷ 0x00 ∷ []), suc w) }

params_parsed :
    build_install_params (0x01 ∷ []) (0x02 ∷ []) ≡ ok (0xC9 ∷ 0x01 ∷ 0x01 ∷ 0xEF ∷ 0x01 ∷ 0x02 ∷ [])
unfolding build_install_params push_tlv
params_parsed = refl

build_install_params-parse_example :
    (out : List ℕ) × (build_install_params (0x01 ∷ []) (0x02 ∷ []) ≡ ok out)
    × (parse out ≡ ok (objects_of (0x01 ∷ []) (0x02 ∷ [])))
build_install_params-parse_example =
    build_install_params-parse (0x01 ∷ []) (0x02 ∷ []) (omega arith, tt) (omega arith, tt)
      (omega arith) (omega arith) (omega arith)

abbrev install_args : InstallAppletArgs
install_args = record {
  parent_sd_aid = aid_at 1;
  package_aid = aid_at 2;
  module_aid = aid_at 3;
  instance_aid = aid_at 4;
  privileges = record { byte_1 = 0x04; byte_2 = 0x00; byte_3 = 0x00 };
  system_install_params = [];
  applet_install_params = [];
}

abbrev install_report : InstallAppletParams
install_report = installed_params install_args (aid 4) (aid 2) (aid 3) [] [] (aid 1)

abbrev delete_args : DeleteAppletArgs
delete_args = record { instance_aid = aid_at 4; elf_aid = some (aid_at 2); cascade_elf = always }

abbrev delete_report : DeleteObjectParams
delete_report = deleted_params delete_args (aid 4) (aid 4) (aid 2 ∷ []) true

abbrev kcv : Kcv
kcv = record { kcv_1 = 0x01; kcv_2 = 0x02; kcv_3 = 0x03 }

abbrev loading : KeyLoading ℕ
loading = record {
  compute_kcv = λ key w. (ok kcv, w);
  scp03_encrypt = λ dek key w. (ok (key ∷ key ∷ []), w);
  scp02_encrypt_for_session = λ session key w. (ok (key ∷ []), w);
}

-- The blob shows by which key it was made.
abbrev in_session : KeyLoading ℕ
in_session = record {
  compute_kcv = λ key w. (ok kcv, w);
  scp03_encrypt = λ dek key w. (ok (dek ∷ key ∷ []), w);
  scp02_encrypt_for_session = λ session key w. (ok (session ∷ key ∷ []), w);
}

-- A card that gives the version number and the check values back.
abbrev echoing_card : Transport ℕ
echoing_card = record {
  transmit = λ capdu w. (ok ((0x31 ∷ kcvs_of kcv kcv kcv) ++ (0x90 ∷ 0x00 ∷ [])), suc w);
}

abbrev keys_args : PutSdKeysArgs
keys_args = record {
  dek = 3;
  new_keys = record { enc = 11; mac = 12; dek = 13; kind = aes128 };
  new_kvn = 0x31;
  target_sd_aid = aid_at 1;
}

abbrev keys_report : PutKeysParams
keys_report = put_params keys_args true (aid 1) (protocol (session_at 2)) (kcvs_of kcv kcv kcv)

keys_run :
    put_sd_keys echoing_card loading marks_03 marks_02 keys_args (session_at 0, 0)
    ≡ (ok keys_report, (session_at 2, 1))
unfolding put_sd_keys encrypt kcv_of send_keys verify_kcv_echo new resume rename protocol
    transmit_in_session split_sw slice index wrap unwrap put_key push_blocks push_block push_head
    build push push_body
keys_run = refl

put_sd_keys-KeysPut_example :
    KeysPut echoing_card loading marks_03 marks_02 keys_args keys_report
      (session_at 0)
      0
      (session_at 2, 1)
put_sd_keys-KeysPut_example =
    put_sd_keys-KeysPut echoing_card loading marks_03 marks_02 keys_args keys_report (session_at 0)
      0 (session_at 2, 1) keys_run

-- The same keys in an SCP02 session: the handle of the session encrypts them.
abbrev session_02 : ScpSession
session_02 = by_scp02 (record { session = 6; i_param = 0x55; security_level = 0x03; kvn = 0x20 })

encrypt_02 : encrypt in_session 3 11 (session_02, 0) ≡ (ok (6 ∷ 11 ∷ []), (session_02, 0))
unfolding encrypt rename
encrypt_02 = refl
