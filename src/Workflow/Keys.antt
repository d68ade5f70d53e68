-- ===== src/Workflow/Keys.antt =====
-- crates/scll-core/src/workflow/keys.rs: adding a keyset to a Security Domain, and deleting one. `Echo`
-- is about the check values that the card gives back, and `Put` about adding a keyset.
pub mod Echo
pub mod Put
use scll_rust.Prelude.{
  ℕ, List, [], ◌∷◌, ◌++◌, length, take, leb, eq_octets, Bool, true, false, not, ◌&&◌, ◌==◌,
  if◌then◌else◌, none, some, Result, ok, err, stuck, map_err, reject_if,
}
use scll_rust.Prelude.Actions.{Action, ◌>>=◌, ◌>>◌, lift, map_error}
use scll_rust.Prelude.Heapless.{Heapless}
use scll_rust.Aid.{Aid, new}
use scll_rust.Command.Builders.{delete_key}
use scll_rust.Command.PutKey.{Kcv, KeyBlock, key_type_aes, kcv_octets, put_key}
use scll_rust.Error.{ScllError, BackendError, from_general_sw}
use scll_rust.Response.{KeyType, aes, des}
use scll_rust.Scp.Backend.{Scp03Backend, Scp02Backend}
use scll_rust.Scp.Sessions.{
  ScpSession, by_scp03, by_scp02, ScpProtocol, protocol_02, protocol_03, protocol,
}
use scll_rust.Session.{Transport, sw_ok, sw_ref_not_found, transmit_in_session}
use scll_rust.Workflow.Managed.{ask}

abbrev pub key_type_3des : ℕ
key_type_3des = 0x80

abbrev pub p1_add : ℕ
p1_add = 0x00

abbrev pub kcv_echo_len : ℕ
kcv_echo_len = 10

-- backend/key.rs
pub data KeyKind : Type 0 where
  aes128 aes192 aes256 triple_des_double : KeyKind

abbrev pub clear_len : KeyKind → ℕ
clear_len aes192 = 24
clear_len aes256 = 32
clear_len aes128 = 16
clear_len triple_des_double = 16

-- The methods of the backend that only these workflows call.
pub record KeyLoading (W : Type 0) : Type 0 where
  pub compute_kcv : ℕ → Action W BackendError Kcv
  pub scp03_encrypt : ℕ → ℕ → Action W BackendError (List ℕ)
  pub scp02_encrypt_for_session : ℕ → ℕ → Action W BackendError (List ℕ)

pub record NewKeyset : Type 0 where
  pub enc : ℕ
  pub mac : ℕ
  pub dek : ℕ
  pub kind : KeyKind

pub record PutSdKeysArgs : Type 0 where
  pub dek : ℕ
  pub new_keys : NewKeyset
  pub new_kvn : ℕ
  pub target_sd_aid : List ℕ

pub record PutKeysParams : Type 0 where
  pub target_sd_aid : Aid
  pub scp_protocol : ScpProtocol
  pub new_kvn : ℕ
  pub key_type : KeyType
  pub key_length : ℕ
  pub kcvs : List ℕ

pub record DeleteKeyParams : Type 0 where
  pub target_sd_aid : Aid
  pub kvn : ℕ

abbrev pub is_scp03 : ScpProtocol → Bool
is_scp03 protocol_03 = true
is_scp03 protocol_02 = false

abbrev pub put_params : PutSdKeysArgs → Bool → Aid → ScpProtocol → List ℕ → PutKeysParams
put_params args by_aes target_sd_aid scp_protocol kcvs = record {
  target_sd_aid = target_sd_aid;
  scp_protocol = scp_protocol;
  new_kvn = args.new_kvn;
  key_type = if by_aes then aes else des;
  key_length = if by_aes then clear_len args.new_keys.kind else 16;
  kcvs = kcvs;
}

-- An action on the world of the backend, which does not touch the session.
abbrev pub beside {ℓ} :
    {W : Type 0} {E : Type 0} {A : Type ℓ} → Action W E A → Action (ScpSession × W) E A
beside act (session, w) = let (r, w') = act w in (r, (session, w'))

abbrev pub key_block : ℕ → List ℕ → Kcv → ℕ → KeyBlock
key_block key_type encrypted_key kcv clear_key_len = record {
  key_type = key_type;
  encrypted_key = encrypted_key;
  kcv = kcv;
  clear_key_len = clear_key_len;
}

abbrev pub kcvs_of : Kcv → Kcv → Kcv → List ℕ
kcvs_of enc mac dek = kcv_octets enc ++ (kcv_octets mac ++ kcv_octets dek)

unfoldable pub verify_kcv_echo : List ℕ → ℕ → Kcv → Kcv → Kcv → Result ScllError (List ℕ)
verify_kcv_echo echo new_kvn kcv_enc kcv_mac kcv_dek =
    let kcvs = kcvs_of kcv_enc kcv_mac kcv_dek in
    if leb kcv_echo_len (length echo) && not (eq_octets (take kcv_echo_len echo) (new_kvn ∷ kcvs))
    then err ScllError.key_check_value_mismatch
    else ok kcvs

module _ {W : Type 0} (k : KeyLoading W) where
  unfoldable pub encrypt : ℕ → ℕ → Action (ScpSession × W) ScllError (List ℕ)
  encrypt dek new_key (by_scp03 s, w) =
      beside (map_error ScllError.backend (k.scp03_encrypt dek new_key)) (by_scp03 s, w)
  encrypt dek new_key (by_scp02 s, w) =
      beside (map_error ScllError.backend (k.scp02_encrypt_for_session s.session new_key))
        (by_scp02 s, w)

  unfoldable pub kcv_of : ℕ → Action (ScpSession × W) ScllError Kcv
  kcv_of key = beside (map_error ScllError.backend (k.compute_kcv key))

module _ ⦃hl : Heapless⦄ {W : Type 0} (t : Transport W) (k : KeyLoading W) (b03 : Scp03Backend W)
    (b02 : Scp02Backend W) where
  -- From the assembly of the blocks on: the command, its answer and the check of the echo.
  unfoldable pub send_keys :
      PutSdKeysArgs
      → Bool
      → List ℕ × List ℕ × List ℕ
      → Kcv × Kcv × Kcv
      → Action (ScpSession × W) ScllError (List ℕ)
  send_keys args by_aes (enc_blob, mac_blob, dek_blob) (kcv_enc, kcv_mac, kcv_dek) = do
    let key_type_byte = if by_aes then key_type_aes else key_type_3des
    let len = if by_aes then clear_len args.new_keys.kind else 16
    capdu ← lift (
        map_err ScllError.build (
          put_key p1_add args.new_kvn (key_block key_type_byte enc_blob kcv_enc len)
            (key_block key_type_byte mac_blob kcv_mac len)
            (key_block key_type_byte dek_blob kcv_dek len)))
    (echo, sw) ← transmit_in_session t b03 b02 capdu
    lift (reject_if (not (sw == sw_ok)) (from_general_sw sw))
    lift (verify_kcv_echo echo args.new_kvn kcv_enc kcv_mac kcv_dek)

  unfoldable pub put_sd_keys : PutSdKeysArgs → Action (ScpSession × W) ScllError PutKeysParams
  put_sd_keys args (session, w) =
      (do
        let by_aes = is_scp03 (protocol session)
        enc_blob ← encrypt k args.dek args.new_keys.enc
        mac_blob ← encrypt k args.dek args.new_keys.mac
        dek_blob ← encrypt k args.dek args.new_keys.dek
        kcv_enc ← kcv_of k args.new_keys.enc
        kcv_mac ← kcv_of k args.new_keys.mac
        kcv_dek ← kcv_of k args.new_keys.dek
        kcvs ← send_keys args by_aes (enc_blob, mac_blob, dek_blob) (kcv_enc, kcv_mac, kcv_dek)
        target_sd_aid ← lift (new args.target_sd_aid)
        (λ x. (ok (put_params args by_aes target_sd_aid (protocol (x.0)) kcvs), x)))
        (session, w)

  unfoldable pub delete_sd_keyset : ℕ → List ℕ → Action (ScpSession × W) ScllError DeleteKeyParams
  delete_sd_keyset kvn target_sd_aid = do
    ask t b03 b02 (delete_key none (some kvn)) ((sw_ref_not_found, ScllError.key_not_found) ∷ [])
    aid ← lift (new target_sd_aid)
    lift (ok (record { target_sd_aid = aid; kvn = kvn }))
