-- ===== src/Scp/Scp02/Opened.antt =====
-- `begin` of crates/scll-core/src/scp/scp02.rs, and what it has checked when it opens a channel.
use scll_rust.Prelude.{
  ℕ, ◌≡◌, ◌⊎◌, refl, sym, ap, List, ◌++◌, true, false, not, ◌&&◌, ◌==◌, Result, ok, reject_if,
  arith,
}
use scll_rust.Prelude.Actions.{
  Action, ◌>>=◌, ◌>>◌, lift, map_error, went_on, went_on_lift, went_on_guard, went_on_renamed,
}
use scll_rust.Prelude.Heapless.{Heapless}
use scll_rust.Error.{ScllError}
use scll_rust.Scp.Backend.{KeyBackend, Scp02Backend, with_session, with_session-ok}
use scll_rust.Scp.Scp02.{
  IuResponse, Scp02State, cap_security_level, ea_plaintext, parse_iu_response,
}

module _ ⦃hl : Heapless⦄ {W : Type 0} (key : KeyBackend W) (b : Scp02Backend W) where
  unfoldable pub begin :
      ℕ → ℕ → ℕ → ℕ → ℕ → ℕ → List ℕ → List ℕ → Action W ScllError (Scp02State × List ℕ)
  begin base_enc base_mac base_dek i_param kvn_expected requested_level host_challenge response = do
    iu ← lift (parse_iu_response response)
    lift (
        reject_if (not (kvn_expected == 0x00) && not (iu.kvn == kvn_expected))
          ScllError.kvn_mismatch)
    session ←
        map_error ScllError.backend (b.derive_session base_enc base_mac base_dek iu.seq_counter)
    let card_ch8 = iu.seq_counter ++ iu.card_challenge
    expected_card ← map_error ScllError.backend (b.card_cryptogram session host_challenge card_ch8)
    lift (
        reject_if (not (key.ct_eq expected_card iu.card_cryptogram)) ScllError.card_cryptogram_fail)
    security_level ← lift (cap_security_level i_param requested_level)
    host_cryptogram ←
        map_error ScllError.backend (b.host_cryptogram session host_challenge card_ch8)
    ea_plain ← lift (ea_plaintext security_level host_cryptogram)
    wrapped ← λ w. with_session (b.wrap_command session ea_plain w)
    lift (
        ok (
          record {
            session = wrapped.0;
            i_param = i_param;
            security_level = security_level;
            kvn = iu.kvn;
          },
          wrapped.1,
        ))

  -- The steps of a handshake that has been carried out, with the world between them.
  pub record Handshake02 (base_enc base_mac base_dek i_param kvn_expected requested_level : ℕ)
      (host_challenge response : List ℕ) (st : Scp02State) (ea : List ℕ) (w w' : W) : Type 0 where
    pub iu : IuResponse
    pub parsed : parse_iu_response response ≡ ok iu
    pub version : (kvn_expected ≡ 0) ⊎ (iu.kvn ≡ kvn_expected)
    pub session : ℕ
    pub w1 : W
    pub derived : b.derive_session base_enc base_mac base_dek iu.seq_counter w ≡ (ok session, w1)
    pub expected_card : List ℕ
    pub w2 : W
    pub computed :
        b.card_cryptogram session host_challenge (iu.seq_counter ++ iu.card_challenge) w1
        ≡ (ok expected_card, w2)
    pub verified : key.ct_eq expected_card iu.card_cryptogram ≡ true
    pub level : cap_security_level i_param requested_level ≡ ok st.security_level
    pub host_cryptogram : List ℕ
    pub w3 : W
    pub answered :
        b.host_cryptogram session host_challenge (iu.seq_counter ++ iu.card_challenge) w2
        ≡ (ok host_cryptogram, w3)
    pub plain : List ℕ
    pub framed : ea_plaintext st.security_level host_cryptogram ≡ ok plain
    pub wrapped : b.wrap_command session plain w3 ≡ (ok ea, st.session, w')
    pub same_i : st.i_param ≡ i_param
    pub same_kvn : st.kvn ≡ iu.kvn

  right_version :
      (pinned kvn : ℕ)
      → (not (pinned == 0) && not (kvn == pinned)) ≡ false
      → (pinned ≡ 0) ⊎ (kvn ≡ pinned)
  right_version pinned kvn h = ground arith

  module _ (base_enc base_mac base_dek i_param kvn_expected requested_level : ℕ)
      (host_challenge response : List ℕ) where
    abbrev state_of : IuResponse → ℕ → ℕ → Scp02State
    state_of iu level session = record {
      session = session;
      i_param = i_param;
      security_level = level;
      kvn = iu.kvn;
    }

    handshake :
        (st : Scp02State) (ea : List ℕ) (w w' : W) (iu : IuResponse)
        (parsed : parse_iu_response response ≡ ok iu)
        (version : (not (kvn_expected == 0) && not (iu.kvn == kvn_expected)) ≡ false) (session : ℕ)
        (w1 : W)
        (derived : b.derive_session base_enc base_mac base_dek iu.seq_counter w ≡ (ok session, w1))
        (expected_card : List ℕ) (w2 : W)
        (computed : b.card_cryptogram session host_challenge
            (iu.seq_counter ++ iu.card_challenge)
            w1
          ≡ (ok expected_card, w2))
        (verified : not (key.ct_eq expected_card iu.card_cryptogram) ≡ false) (level : ℕ)
        (capped : cap_security_level i_param requested_level ≡ ok level) (host_cryptogram : List ℕ)
        (w3 : W)
        (answered : b.host_cryptogram session host_challenge
            (iu.seq_counter ++ iu.card_challenge)
            w2
          ≡ (ok host_cryptogram, w3))
        (plain : List ℕ) (framed : ea_plaintext level host_cryptogram ≡ ok plain) (session' : ℕ)
        (ea' : List ℕ) (w4 : W)
        (wrapped : with_session (b.wrap_command session plain w3) ≡ (ok (session', ea'), w4))
        → Path
            (Result ScllError (Scp02State × List ℕ) × W)
            (ok (state_of iu level session', ea'), w4)
            (ok (st, ea), w')
        → Handshake02 base_enc base_mac base_dek i_param kvn_expected requested_level host_challenge
            response st ea w w'
    handshake st ea w w' iu parsed version session w1 derived expected_card w2 computed verified
          level capped host_cryptogram w3 answered plain framed session' ea' w4 wrapped done =
        let pair : Path (Scp02State × List ℕ) (state_of iu level session', ea') (st, ea) =
          cc (ap (λ o. o.0) done) in
        rw (sym (ap (λ p. p.0) pair), sym (ap (λ p. p.1) pair), sym (ap (λ o. o.1) done))
          (record {
            iu = iu;
            parsed = parsed;
            version = right_version kvn_expected iu.kvn version;
            session = session;
            w1 = w1;
            derived = derived;
            expected_card = expected_card;
            w2 = w2;
            computed = computed;
            verified = ground (arith, verified);
            level = capped;
            host_cryptogram = host_cryptogram;
            w3 = w3;
            answered = answered;
            plain = plain;
            framed = framed;
            wrapped = with_session-ok (b.wrap_command session plain w3) session' ea' w4 wrapped;
            same_i = refl;
            same_kvn = refl;
          })

    -- SCP02's `begin` opens a channel only after a complete handshake: the response parses, its key
    -- version number is the pinned one unless none was pinned, the card's cryptogram equals the one
    -- that the backend computes over the sequence counter and the challenge in the session derived
    -- from that counter, the level is the requested one capped by `i`, and the command to send is
    -- EXTERNAL AUTHENTICATE with that level and the host's cryptogram, wrapped in that session.
    pub begin-Handshake02 :
        (st : Scp02State) (ea : List ℕ) (w w' : W)
        → begin base_enc base_mac base_dek i_param kvn_expected requested_level host_challenge
            response w
          ≡ (ok (st, ea), w')
        → Handshake02 base_enc base_mac base_dek i_param kvn_expected requested_level host_challenge
            response st ea w w'
    unfolding begin
    begin-Handshake02 st ea w w' h0 =
        let (iu, parsed, h1) = went_on_lift _ _ _ _ _ h0 in
        let (version, h2) = went_on_guard _ _ _ _ _ _ h1 in
        let (session, w1, derived, h3) = went_on_renamed _ _ _ _ _ h2 in
        let (expected_card, w2, computed, h4) = went_on_renamed _ _ _ _ _ h3 in
        let (verified, h5) = went_on_guard _ _ _ _ _ _ h4 in
        let (level, capped, h6) = went_on_lift _ _ _ _ _ h5 in
        let (host_cryptogram, w3, answered, h7) = went_on_renamed _ _ _ _ _ h6 in
        let (plain, framed, h8) = went_on_lift _ _ _ _ _ h7 in
        let (wrapped, w4, sent, h9) = went_on _ _ _ _ h8 in
        handshake st ea w w' iu parsed version session w1 derived expected_card w2 computed verified
          level capped host_cryptogram w3 answered plain framed (wrapped.0) (wrapped.1) w4 sent h9
