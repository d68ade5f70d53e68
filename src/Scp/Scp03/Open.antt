-- ===== src/Scp/Scp03/Open.antt =====
-- `begin` of crates/scll-core/src/scp/scp03.rs, which acts on the backend. `Open` is checked in
-- `Checked`.
pub mod Checked
use scll_rust.Prelude.{
  ℕ, List, Bool, true, false, not, ◌&&◌, ◌==◌, Option, none, some, Result, ok, err, stuck,
  reject_if, map_err,
}
use scll_rust.Prelude.Actions.{Action, ◌>>=◌, ◌>>◌, lift, map_error}
use scll_rust.Prelude.Heapless.{Heapless}
use scll_rust.Error.{ScllError, BackendError}
use scll_rust.Scp.Backend.{with_session, KeyBackend, Scp03Backend}
use scll_rust.Scp.Scp03.{
  IuResponse, Scp03State, cap_security_level, ea_plaintext, parse_iu_response,
}

module _ ⦃hl : Heapless⦄ {W : Type 0} (key : KeyBackend W) (b : Scp03Backend W) where
  -- `Scp03State::wrap_command`: the outcome, and the state after with either outcome.
  unfoldable pub wrap_command : Scp03State → List ℕ → W → Result ScllError (List ℕ) × Scp03State × W
  wrap_command s capdu w = wrapped (b.wrap_command s.session capdu w)
    where
      wrapped : Result BackendError (List ℕ) × ℕ × W → Result ScllError (List ℕ) × Scp03State × W
      wrapped (r, session, w') = (map_err ScllError.backend r, record s { session = session }, w')

  -- The call of `scp03_wrap_command` at the end of `begin`, with the session it leaves.
  unfoldable pub wrap_ea : ℕ → List ℕ → Action W ScllError (ℕ × List ℕ)
  wrap_ea session ea_plain w = with_session (b.wrap_command session ea_plain w)

  -- The `if let Some(seq)` part.
  unfoldable pub check_challenge :
      ℕ → IuResponse → List ℕ → Option (List ℕ) → Action W ScllError (Unit {0})
  check_challenge static_enc iu invoker_aid none = lift (ok tt)
  check_challenge static_enc iu invoker_aid (some seq) = do
    expected ←
        map_error ScllError.backend (b.pseudo_card_challenge static_enc iu.mode seq invoker_aid)
    lift (reject_if (not (key.ct_eq expected iu.card_challenge)) ScllError.card_challenge_fail)

  unfoldable pub begin :
      ℕ → ℕ → ℕ → ℕ → List ℕ → List ℕ → List ℕ → Action W ScllError (Scp03State × List ℕ)
  begin static_enc static_mac kvn_expected requested_level host_challenge invoker_aid response = do
    iu ← lift (parse_iu_response response)
    lift (
        reject_if (not (kvn_expected == 0x00) && not (iu.kvn == kvn_expected))
          ScllError.kvn_mismatch)
    session ←
        map_error ScllError.backend
          (b.derive_session static_enc static_mac iu.mode host_challenge iu.card_challenge)
    expected_card ←
        map_error ScllError.backend (b.card_cryptogram session host_challenge iu.card_challenge)
    lift (
        reject_if (not (key.ct_eq expected_card iu.card_cryptogram)) ScllError.card_cryptogram_fail)
    check_challenge static_enc iu invoker_aid iu.sequence_counter
    security_level ← lift (cap_security_level iu.i_param requested_level)
    host_cryptogram ←
        map_error ScllError.backend (b.host_cryptogram session host_challenge iu.card_challenge)
    ea_plain ← lift (ea_plaintext security_level host_cryptogram)
    wrapped ← wrap_ea session ea_plain
    lift (
        ok (
          record {
            session = wrapped.0;
            i_param = iu.i_param;
            security_level = security_level;
            kvn = iu.kvn;
          },
          wrapped.1,
        ))
