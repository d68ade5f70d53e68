-- ===== src/Workflow/Keys/Put.antt =====
-- What has happened when put_sd_keys of crates/scll-core/src/workflow/keys.rs reports success.
use scll_rust.Prelude.{
  ℕ, ◌≡◌, refl, sym, ap, ◌∙◌, List, Bool, false, not, ◌==◌, if◌then◌else◌, Result, ok, map_err-ok,
  arith,
}
use scll_rust.Prelude.Actions.{Action, map_error, rename-ok, went_on, went_on_lift, went_on_guard}
use scll_rust.Prelude.Heapless.{Heapless}
use scll_rust.Command.PutKey.{Kcv, put_key, key_type_aes}
use scll_rust.Error.{ScllError, BackendError}
use scll_rust.Scp.Backend.{Scp03Backend, Scp02Backend}
use scll_rust.Aid.{Aid, new-ok}
use scll_rust.Scp.Sessions.{ScpSession, by_scp03, by_scp02, protocol}
use scll_rust.Session.{Transport, sw_ok, transmit_in_session}
use scll_rust.Workflow.Keys.{
  PutSdKeysArgs, verify_kcv_echo, kcvs_of, key_block, key_type_3des, p1_add, clear_len, send_keys,
  KeyLoading, PutKeysParams, put_params, is_scp03, encrypt, kcv_of, put_sd_keys, beside, KeyKind,
  aes128, aes192, aes256, triple_des_double,
}
use scll_rust.Workflow.Keys.Echo.{EchoFits, verify_kcv_echo_iff}

module _ (args : PutSdKeysArgs) where
  -- The octet of the key type, and the length of the keys in the clear.
  abbrev type_of : Bool → ℕ
  type_of by_aes = if by_aes then key_type_aes else key_type_3des

  abbrev len_of : Bool → ℕ
  len_of by_aes = if by_aes then clear_len args.new_keys.kind else 16

-- The key type and the clear length that PUT KEY names: AES keys of their own size in an SCP03
-- session, and double-length DES keys in an SCP02 session.
abbrev pub form_of : ScpSession → KeyKind → ℕ × ℕ
form_of (by_scp03 s) aes128 = (0x88, 16)
form_of (by_scp03 s) aes192 = (0x88, 24)
form_of (by_scp03 s) aes256 = (0x88, 32)
form_of (by_scp03 s) triple_des_double = (0x88, 16)
form_of (by_scp02 s) kind = (0x80, 16)

form_of_lem :
    (args : PutSdKeysArgs) (s : ScpSession)
    → form_of s args.new_keys.kind
      ≡ (type_of args (is_scp03 (protocol s)), len_of args (is_scp03 (protocol s)))
unfolding protocol
form_of_lem args (by_scp02 s) = refl
form_of_lem args (by_scp03 s) = by_kind args.new_keys.kind
  where
    by_kind : (kind : KeyKind) → form_of (by_scp03 s) kind ≡ (key_type_aes, clear_len kind)
    by_kind aes128 = refl
    by_kind aes192 = refl
    by_kind aes256 = refl
    by_kind triple_des_double = refl

module _ ⦃hl : Heapless⦄ {W : Type 0} (t : Transport W) (k : KeyLoading W) (b03 : Scp03Backend W)
    (b02 : Scp02Backend W) (args : PutSdKeysArgs) where
  -- PUT KEY with the three blocks, of the key type and the clear length, was sent and answered with
  -- 9000, and the echo fits.
  abbrev pub Added :
      ℕ × ℕ → List ℕ × List ℕ × List ℕ → Kcv × Kcv × Kcv → ScpSession × W → ScpSession × W → Type 0
  Added form blobs kcvs x x' =
      (capdu : List ℕ) × (echo : List ℕ) × (put_key 0x00 args.new_kvn
          (key_block (form.0) (blobs.0) (kcvs.0) (form.1))
          (key_block (form.0) (blobs.1) (kcvs.1) (form.1))
          (key_block (form.0) (blobs.2) (kcvs.2) (form.1))
        ≡ ok capdu)
      × (transmit_in_session t b03 b02 capdu x ≡ (ok (echo, sw_ok), x'))
      × EchoFits echo args.new_kvn (kcvs_of (kcvs.0) (kcvs.1) (kcvs.2))

  send_keys-Added :
      (by_aes : Bool) (blobs : List ℕ × List ℕ × List ℕ) (kcvs : Kcv × Kcv × Kcv) (out : List ℕ)
      (x x' : ScpSession × W)
      → send_keys t k b03 b02 args by_aes blobs kcvs x ≡ (ok out, x')
      → Added (type_of args by_aes, len_of args by_aes) blobs kcvs x x'
        × (out ≡ kcvs_of (kcvs.0) (kcvs.1) (kcvs.2))
  unfolding send_keys
  send_keys-Added by_aes blobs kcvs out x x' h0 =
      let (capdu, built, h1) = went_on_lift _ _ _ _ _ h0 in
      let (answer, x1, sent, h2) = went_on _ _ _ _ h1 in
      let (good, h3) = went_on_guard _ _ _ _ _ _ h2 in
      added by_aes blobs kcvs out capdu (answer.0) (answer.1) x x1 x'
        (map_err-ok ScllError.build _ capdu built) sent good h3
    where
      added :
          (by_aes : Bool) (blobs : List ℕ × List ℕ × List ℕ) (kcvs : Kcv × Kcv × Kcv)
          (out capdu echo : List ℕ) (sw : ℕ) (x x1 x' : ScpSession × W)
          → put_key p1_add args.new_kvn
              (key_block (type_of args by_aes) (blobs.0) (kcvs.0) (len_of args by_aes))
              (key_block (type_of args by_aes) (blobs.1) (kcvs.1) (len_of args by_aes))
              (key_block (type_of args by_aes) (blobs.2) (kcvs.2) (len_of args by_aes))
            ≡ ok capdu
          → transmit_in_session t b03 b02 capdu x ≡ (ok (echo, sw), x1)
          → not (sw == sw_ok) ≡ false
          → Path
              (Result ScllError (List ℕ) × (ScpSession × W))
              (verify_kcv_echo echo args.new_kvn (kcvs.0) (kcvs.1) (kcvs.2), x1)
              (ok out, x')
          → Added (type_of args by_aes, len_of args by_aes) blobs kcvs x x'
            × (out ≡ kcvs_of (kcvs.0) (kcvs.1) (kcvs.2))
      added by_aes blobs kcvs out capdu echo sw x x1 x' built sent good done =
          let word : sw ≡ sw_ok = ground (arith, good) in
          let (same, fits) =
            (verify_kcv_echo_iff echo args.new_kvn (kcvs.0) (kcvs.1) (kcvs.2) out).0
              (ap (λ o. o.0) done) in
          (
            (
              capdu,
              echo,
              built,
              sent
                  ∙ ap (λ n. (ok (echo, n), x1)) word
                  ∙ ap (λ y. (ok (echo, sw_ok), y)) (ap (λ o. o.1) done),
              fits,
            ),
            same,
          )

  -- The key was encrypted by the method of the session's protocol: under SCP03 with the static data
  -- encryption key, and under SCP02 with the keys of the session.
  abbrev pub Encrypted : ScpSession → ℕ → W → List ℕ → W → Type 0
  Encrypted (by_scp03 s) new_key w blob w' = k.scp03_encrypt args.dek new_key w ≡ (ok blob, w')
  Encrypted (by_scp02 s) new_key w blob w' =
      k.scp02_encrypt_for_session s.session new_key w ≡ (ok blob, w')

  beside-ok :
      {A : Type 0} (act : Action W BackendError A) (s : ScpSession) (w : W) (a : A)
      (x' : ScpSession × W)
      → beside (map_error ScllError.backend act) (s, w) ≡ (ok a, x')
      → (s ≡ x'.0) × (act w ≡ (ok a, x'.1))
  beside-ok act s w a x' h =
      (ap (λ o. o.1.0) h, rename-ok ScllError.backend (act w) a (x'.1) (ap (λ o. (o.0, o.1.1)) h))

  encrypt-Encrypted :
      (new_key : ℕ) (s : ScpSession) (w : W) (blob : List ℕ) (x' : ScpSession × W)
      → encrypt k args.dek new_key (s, w) ≡ (ok blob, x')
      → (s ≡ x'.0) × Encrypted s new_key w blob (x'.1)
  unfolding encrypt
  encrypt-Encrypted new_key (by_scp03 s) w blob x' h =
      beside-ok (k.scp03_encrypt args.dek new_key) (by_scp03 s) w blob x' h
  encrypt-Encrypted new_key (by_scp02 s) w blob x' h =
      beside-ok (k.scp02_encrypt_for_session s.session new_key) (by_scp02 s) w blob x' h

  -- The same for a state that is known to have the session.
  Encrypted-in :
      (new_key : ℕ) (s : ScpSession) (x x' : ScpSession × W) (blob : List ℕ)
      → s ≡ x.0
      → encrypt k args.dek new_key x ≡ (ok blob, x')
      → (s ≡ x'.0) × Encrypted s new_key (x.1) blob (x'.1)
  Encrypted-in new_key s (s', w) x' blob same h =
      encrypt-Encrypted new_key s w blob x' (ap (λ r. encrypt k args.dek new_key (r, w)) same ∙ h)

  checked_in :
      (new_key : ℕ) (s : ScpSession) (x x' : ScpSession × W) (kcv : Kcv)
      → s ≡ x.0
      → kcv_of k new_key x ≡ (ok kcv, x')
      → (s ≡ x'.0) × (k.compute_kcv new_key (x.1) ≡ (ok kcv, x'.1))
  unfolding kcv_of
  checked_in new_key s (s', w) x' kcv same h =
      let (kept, made) = beside-ok (k.compute_kcv new_key) s' w kcv x' h in (same ∙ kept, made)

  -- The steps of a keyset that has been added in a session, with the worlds between them.
  pub record KeysPut (report : PutKeysParams) (s : ScpSession) (w : W) (x' : ScpSession × W)
      : Type 0 where
    pub enc_blob : List ℕ
    pub mac_blob : List ℕ
    pub dek_blob : List ℕ
    pub w1 : W
    pub w2 : W
    pub w3 : W
    pub enc_encrypted : Encrypted s args.new_keys.enc w enc_blob w1
    pub mac_encrypted : Encrypted s args.new_keys.mac w1 mac_blob w2
    pub dek_encrypted : Encrypted s args.new_keys.dek w2 dek_blob w3
    pub enc_kcv : Kcv
    pub mac_kcv : Kcv
    pub dek_kcv : Kcv
    pub w4 : W
    pub w5 : W
    pub w6 : W
    pub enc_checked : k.compute_kcv args.new_keys.enc w3 ≡ (ok enc_kcv, w4)
    pub mac_checked : k.compute_kcv args.new_keys.mac w4 ≡ (ok mac_kcv, w5)
    pub dek_checked : k.compute_kcv args.new_keys.dek w5 ≡ (ok dek_kcv, w6)
    pub sent :
        Added
          (form_of s args.new_keys.kind)
          (enc_blob, mac_blob, dek_blob)
          (enc_kcv, mac_kcv, dek_kcv)
          (s, w6)
          x'
    pub reported : report.kcvs ≡ kcvs_of enc_kcv mac_kcv dek_kcv
    pub numbered : report.new_kvn ≡ args.new_kvn
    pub target : report.target_sd_aid.as_bytes ≡ args.target_sd_aid

  -- What was sent in a state that has the session, and the report.
  put_lem :
      (report : PutKeysParams) (s : ScpSession) (x6 x7 x' : ScpSession × W)
      (blobs : List ℕ × List ℕ × List ℕ) (kcvs : Kcv × Kcv × Kcv) (out : List ℕ) (target : Aid)
      → s ≡ x6.0
      → send_keys t k b03 b02 args (is_scp03 (protocol s)) blobs kcvs x6 ≡ (ok out, x7)
      → Path
          (Result ScllError PutKeysParams × (ScpSession × W))
          (ok (put_params args (is_scp03 (protocol s)) target (protocol (x7.0)) out), x7)
          (ok report, x')
      → Added (form_of s args.new_keys.kind) blobs kcvs (s, x6.1) x'
        × (report.kcvs ≡ kcvs_of (kcvs.0) (kcvs.1) (kcvs.2))
        × (report.new_kvn ≡ args.new_kvn)
        × (report.target_sd_aid ≡ target)
  put_lem report s (s6, w6) x7 x' blobs kcvs out target kept put done =
      let (added, same) =
        send_keys-Added (is_scp03 (protocol s)) blobs kcvs out (s, w6) x7
          (ap (λ r. send_keys t k b03 b02 args (is_scp03 (protocol s)) blobs kcvs (r, w6)) kept
            ∙ put) in
      let told : put_params args (is_scp03 (protocol s)) target (protocol (x7.0)) out ≡ report =
        cc (ap (λ o. o.0) done) in
      let world : x7 ≡ x' = ap (λ o. o.1) done in
      (
        rw (form_of_lem args s, sym world) added,
        sym (ap (λ r. r.kcvs) told) ∙ same,
        sym (ap (λ r. r.new_kvn) told),
        sym (ap (λ r. r.target_sd_aid) told),
      )

  -- If `put_sd_keys` reports success, then the three keys were encrypted by the backend, each with the
  -- static data encryption key in an SCP03 session and with the session's keys in an SCP02 session,
  -- their check values were computed, PUT KEY was built with the type AES and the clear length of the
  -- keys or with the type DES and the length 16, sent in that session, and answered with 9000, and the
  -- answer is too short to be an echo, or its first ten octets are the new version number and the
  -- check values. The report has the check values, the new version number and the target.
  pub put_sd_keys-KeysPut :
      (report : PutKeysParams) (s : ScpSession) (w : W) (x' : ScpSession × W)
      → put_sd_keys t k b03 b02 args (s, w) ≡ (ok report, x')
      → KeysPut report s w x'
  unfolding put_sd_keys
  put_sd_keys-KeysPut report s w x' h0 =
      let (enc_blob, x1, e1, h1) = went_on _ _ _ _ h0 in
      let (mac_blob, x2, e2, h2) = went_on _ _ _ _ h1 in
      let (dek_blob, x3, e3, h3) = went_on _ _ _ _ h2 in
      let (enc_kcv, x4, c1, h4) = went_on _ _ _ _ h3 in
      let (mac_kcv, x5, c2, h5) = went_on _ _ _ _ h4 in
      let (dek_kcv, x6, c3, h6) = went_on _ _ _ _ h5 in
      let (kcvs, x7, put, h7) = went_on _ _ _ _ h6 in
      let (target, checked, h8) = went_on_lift _ _ _ _ _ h7 in
      let (s1, enc_encrypted) = Encrypted-in args.new_keys.enc s (s, w) x1 enc_blob refl e1 in
      let (s2, mac_encrypted) = Encrypted-in args.new_keys.mac s x1 x2 mac_blob s1 e2 in
      let (s3, dek_encrypted) = Encrypted-in args.new_keys.dek s x2 x3 dek_blob s2 e3 in
      let (s4, enc_checked) = checked_in args.new_keys.enc s x3 x4 enc_kcv s3 c1 in
      let (s5, mac_checked) = checked_in args.new_keys.mac s x4 x5 mac_kcv s4 c2 in
      let (s6, dek_checked) = checked_in args.new_keys.dek s x5 x6 dek_kcv s5 c3 in
      let (sent, reported, numbered, named) =
        put_lem report s x6 x7 x' (enc_blob, mac_blob, dek_blob) (enc_kcv, mac_kcv, dek_kcv) kcvs
          target s6 put h8 in
      record {
        enc_blob = enc_blob;
        mac_blob = mac_blob;
        dek_blob = dek_blob;
        w1 = x1.1;
        w2 = x2.1;
        w3 = x3.1;
        enc_encrypted = enc_encrypted;
        mac_encrypted = mac_encrypted;
        dek_encrypted = dek_encrypted;
        enc_kcv = enc_kcv;
        mac_kcv = mac_kcv;
        dek_kcv = dek_kcv;
        w4 = x4.1;
        w5 = x5.1;
        w6 = x6.1;
        enc_checked = enc_checked;
        mac_checked = mac_checked;
        dek_checked = dek_checked;
        sent = sent;
        reported = reported;
        numbered = numbered;
        target = ap (λ a. a.as_bytes) named ∙ (new-ok args.target_sd_aid target checked).0;
      }
