-- ===== src/Scp/Scp03/Open/Checked.antt =====
-- What `begin` of crates/scll-core/src/scp/scp03.rs has checked when it opens a channel.
use scll_rust.Prelude.{
  ℕ, ◌≡◌, ◌⊎◌, refl, sym, ap, List, true, false, not, ◌&&◌, ◌==◌, Option, none, some, Result, ok,
  arith,
}
use scll_rust.Prelude.Actions.{
  went_on, rename-ok, not_rejected, went_on_lift, went_on_guard, went_on_renamed,
}
use scll_rust.Prelude.Heapless.{Heapless}
use scll_rust.Error.{ScllError}
use scll_rust.Scp.Backend.{with_session, with_session-ok, KeyBackend, Scp03Backend}
use scll_rust.Scp.Scp03.{
  IuResponse, Scp03State, cap_security_level, ea_plaintext, parse_iu_response,
}
use scll_rust.Scp.Scp03.Open.{wrap_ea, check_challenge, begin}

module _ ⦃hl : Heapless⦄ {W : Type 0} (key : KeyBackend W) (b : Scp03Backend W) where
  -- The card's challenge is the one derived from its sequence counter, if it sent one.
  abbrev pub ChallengeChecked : ℕ → IuResponse → List ℕ → Option (List ℕ) → W → W → Type 0
  ChallengeChecked static_enc iu invoker_aid none w w' = w ≡ w'
  ChallengeChecked static_enc iu invoker_aid (some seq) w w' =
      (expected : List ℕ) × (b.pseudo_card_challenge static_enc iu.mode seq invoker_aid w
        ≡ (ok expected, w'))
      × (key.ct_eq expected iu.card_challenge ≡ true)

  challenge_checked :
      (static_enc : ℕ) (iu : IuResponse) (invoker_aid : List ℕ) (seq : Option (List ℕ)) (w w' : W)
      (u : Unit {0})
      → check_challenge key b static_enc iu invoker_aid seq w ≡ (ok u, w')
      → ChallengeChecked static_enc iu invoker_aid seq w w'
  unfolding check_challenge
  challenge_checked static_enc iu invoker_aid none w w' u h = ap (λ o. o.1) h
  challenge_checked static_enc iu invoker_aid (some seq) w w' u h =
      let (expected, w1, run, rest) = went_on _ _ _ _ h in
      let (equal, world) = not_rejected _ _ _ _ _ rest in
      (expected, rw (sym world) (rename-ok _ _ _ _ run), ground (arith, equal))

  -- The steps of a handshake that has been carried out, with the world between them.
  pub record Handshake (static_enc static_mac kvn_expected requested_level : ℕ)
      (host_challenge invoker_aid response : List ℕ) (st : Scp03State) (ea : List ℕ) (w w' : W)
      : Type 0 where
    pub iu : IuResponse
    pub parsed : parse_iu_response response ≡ ok iu
    pub version : (kvn_expected ≡ 0) ⊎ (iu.kvn ≡ kvn_expected)
    pub session : ℕ
    pub w1 : W
    pub derived :
        b.derive_session static_enc static_mac iu.mode host_challenge iu.card_challenge w
        ≡ (ok session, w1)
    pub expected_card : List ℕ
    pub w2 : W
    pub computed :
        b.card_cryptogram session host_challenge iu.card_challenge w1 ≡ (ok expected_card, w2)
    pub verified : key.ct_eq expected_card iu.card_cryptogram ≡ true
    pub w3 : W
    pub challenge : ChallengeChecked static_enc iu invoker_aid iu.sequence_counter w2 w3
    pub level : cap_security_level iu.i_param requested_level ≡ ok st.security_level
    pub host_cryptogram : List ℕ
    pub w4 : W
    pub answered :
        b.host_cryptogram session host_challenge iu.card_challenge w3 ≡ (ok host_cryptogram, w4)
    pub plain : List ℕ
    pub framed : ea_plaintext st.security_level host_cryptogram ≡ ok plain
    pub wrapped : b.wrap_command session plain w4 ≡ (ok ea, st.session, w')
    pub same_i : st.i_param ≡ iu.i_param
    pub same_kvn : st.kvn ≡ iu.kvn

  -- What `begin` returns at its end.
  abbrev state_of : IuResponse → ℕ → ℕ → Scp03State
  state_of iu level session = record {
    session = session;
    i_param = iu.i_param;
    security_level = level;
    kvn = iu.kvn;
  }

  right_version :
      (pinned kvn : ℕ)
      → (not (pinned == 0) && not (kvn == pinned)) ≡ false
      → (pinned ≡ 0) ⊎ (kvn ≡ pinned)
  right_version pinned kvn h = ground arith

  module _ (static_enc static_mac kvn_expected requested_level : ℕ)
      (host_challenge invoker_aid response : List ℕ) where
    handshake :
        (st : Scp03State) (ea : List ℕ) (w w' : W) (iu : IuResponse)
        (parsed : parse_iu_response response ≡ ok iu)
        (version : (not (kvn_expected == 0) && not (iu.kvn == kvn_expected)) ≡ false) (session : ℕ)
        (w1 : W)
        (derived : b.derive_session static_enc static_mac iu.mode host_challenge iu.card_challenge w
          ≡ (ok session, w1))
        (expected_card : List ℕ) (w2 : W)
        (computed : b.card_cryptogram session host_challenge iu.card_challenge w1
          ≡ (ok expected_card, w2))
        (verified : not (key.ct_eq expected_card iu.card_cryptogram) ≡ false) (w3 : W)
        (challenge : check_challenge key b static_enc iu invoker_aid iu.sequence_counter w2
          ≡ (ok tt, w3))
        (level : ℕ) (capped : cap_security_level iu.i_param requested_level ≡ ok level)
        (host_cryptogram : List ℕ) (w4 : W)
        (answered : b.host_cryptogram session host_challenge iu.card_challenge w3
          ≡ (ok host_cryptogram, w4))
        (plain : List ℕ) (framed : ea_plaintext level host_cryptogram ≡ ok plain) (session' : ℕ)
        (ea' : List ℕ) (w5 : W)
        (wrapped : with_session (b.wrap_command session plain w4) ≡ (ok (session', ea'), w5))
        → Path
            (Result ScllError (Scp03State × List ℕ) × W)
            (ok (state_of iu level session', ea'), w5)
            (ok (st, ea), w')
        → Handshake static_enc static_mac kvn_expected requested_level host_challenge invoker_aid
            response st ea w w'
    handshake st ea w w' iu parsed version session w1 derived expected_card w2 computed verified w3
          challenge level capped host_cryptogram w4 answered plain framed session' ea' w5 wrapped
          done =
        let pair : Path (Scp03State × List ℕ) (state_of iu level session', ea') (st, ea) =
          cc (ap (λ o. o.0) done) in
        rw (sym (ap (λ p. p.0) pair), sym (ap (λ p. p.1) pair), sym (ap (λ o. o.1) done))
          (record {
            iu = iu;
            parsed = parsed;
            version = right_version kvn_expected iu.kvn version;
            session = session;
            w1 = w1;
            derived = derived;
            expected_card = expected_card;
            w2 = w2;
            computed = computed;
            verified = ground (arith, verified);
            w3 = w3;
            challenge =
                challenge_checked static_enc iu invoker_aid iu.sequence_counter w2 w3 tt challenge;
            level = capped;
            host_cryptogram = host_cryptogram;
            w4 = w4;
            answered = answered;
            plain = plain;
            framed = framed;
            wrapped = with_session-ok (b.wrap_command session plain w4) session' ea' w5 wrapped;
            same_i = refl;
            same_kvn = refl;
          })

  -- `begin` opens a channel only after a complete handshake: the response parses, its key version
  -- number is the pinned one unless none was pinned, the card's cryptogram equals the one that the
  -- backend computes in the session derived from the two challenges, a pseudo-random challenge is
  -- the one derived from the sequence counter, the level is the requested one capped by the card's
  -- `i`, and the command to send is EXTERNAL AUTHENTICATE with that level and the host's cryptogram,
  -- wrapped in that session.
  pub begin-Handshake :
      (static_enc static_mac kvn_expected requested_level : ℕ)
      (host_challenge invoker_aid response : List ℕ) (st : Scp03State) (ea : List ℕ) (w w' : W)
      → begin key b static_enc static_mac kvn_expected requested_level host_challenge invoker_aid
          response w
        ≡ (ok (st, ea), w')
      → Handshake static_enc static_mac kvn_expected requested_level host_challenge invoker_aid
          response st ea w w'
  unfolding begin wrap_ea
  begin-Handshake static_enc static_mac kvn_expected requested_level host_challenge invoker_aid
        response st ea w w' h0 =
      let (iu, parsed, h1) = went_on_lift _ _ _ _ _ h0 in
      let (version, h2) = went_on_guard _ _ _ _ _ _ h1 in
      let (session, w1, derived, h3) = went_on_renamed _ _ _ _ _ h2 in
      let (expected_card, w2, computed, h4) = went_on_renamed _ _ _ _ _ h3 in
      let (verified, h5) = went_on_guard _ _ _ _ _ _ h4 in
      let (u, w3, challenge, h6) = went_on _ _ _ _ h5 in
      let (level, capped, h7) = went_on_lift _ _ _ _ _ h6 in
      let (host_cryptogram, w4, answered, h8) = went_on_renamed _ _ _ _ _ h7 in
      let (plain, framed, h9) = went_on_lift _ _ _ _ _ h8 in
      let (wrapped, w5, sent, h10) = went_on _ _ _ _ h9 in
      handshake static_enc static_mac kvn_expected requested_level host_challenge invoker_aid
        response st ea w w' iu parsed version session w1 derived expected_card w2 computed verified
        w3 challenge level capped host_cryptogram w4 answered plain framed (wrapped.0) (wrapped.1)
        w5 sent h10
