-- ===== src/Scp/Backend.antt =====
-- The interface to the cryptography of crates/scll-core/src/backend/{key, scp03, scp02}.rs, as far
-- as the secure channel uses it: one field per method, which acts on the world `W`, that is the
-- key and session tables of an implementation. A handle is its index. What a method does to the
-- handle it is lent is in the handle it gives back, with an error too.
use scll_rust.Prelude.{
  ℕ, List, Bool, ◌==◌, not, bit_and, if◌then◌else◌, ◌≡◌, refl, ap, Result, ok, err, stuck,
}
use scll_rust.Prelude.Actions.{Action}
use scll_rust.Error.{ScllError, BackendError}

pub data ScpMode : Type 0 where
  s8 s16 : ScpMode

unfoldable pub from_i : ℕ → ScpMode
from_i i_param = if not (bit_and i_param 0x08 == 0) then s16 else s8

abbrev pub field_len : ScpMode → ℕ
field_len s8 = 8
field_len s16 = 16

pub record KeyBackend (W : Type 0) : Type 0 where
  -- Fills a buffer of the given length.
  pub random_bytes : ℕ → Action W BackendError (List ℕ)
  pub ct_eq : List ℕ → List ℕ → Bool

pub record Scp03Backend (W : Type 0) : Type 0 where
  pub derive_session : ℕ → ℕ → ScpMode → List ℕ → List ℕ → Action W BackendError ℕ
  pub card_cryptogram : ℕ → List ℕ → List ℕ → Action W BackendError (List ℕ)
  pub host_cryptogram : ℕ → List ℕ → List ℕ → Action W BackendError (List ℕ)
  pub pseudo_card_challenge : ℕ → ScpMode → List ℕ → List ℕ → Action W BackendError (List ℕ)
  pub wrap_command : ℕ → List ℕ → W → Result BackendError (List ℕ) × ℕ × W
  pub unwrap_response : ℕ → List ℕ → W → Result BackendError (List ℕ) × ℕ × W

pub record Scp02Backend (W : Type 0) : Type 0 where
  pub derive_session : ℕ → ℕ → ℕ → List ℕ → Action W BackendError ℕ
  pub card_cryptogram : ℕ → List ℕ → List ℕ → Action W BackendError (List ℕ)
  pub host_cryptogram : ℕ → List ℕ → List ℕ → Action W BackendError (List ℕ)
  pub wrap_command : ℕ → List ℕ → W → Result BackendError (List ℕ) × ℕ × W
  pub unwrap_response : ℕ → List ℕ → W → Result BackendError (List ℕ) × ℕ × W

-- The outcome of a method that was lent a session handle, followed by `?`: with the handle after.
unfoldable pub with_session :
    {W : Type 0} → Result BackendError (List ℕ) × ℕ × W → Result ScllError (ℕ × List ℕ) × W
with_session (ok bytes, session, w) = (ok (session, bytes), w)
with_session (err e, session, w) = (err (ScllError.backend e), w)
with_session (stuck, session, w) = (stuck, w)

pub with_session-ok :
    {W : Type 0} (out : Result BackendError (List ℕ) × ℕ × W) (session : ℕ) (bytes : List ℕ) (w : W)
    → with_session out ≡ (ok (session, bytes), w)
    → out ≡ (ok bytes, session, w)
unfolding with_session
with_session-ok (ok bytes', session', w') session bytes w h =
    let inner : Path (ℕ × List ℕ) (session', bytes') (session, bytes) = cc (ap (λ o. o.0) h) in
    let world : w' ≡ w = ap (λ o. o.1) h in
    rw (world, ap (λ p. p.0) inner, ap (λ p. p.1) inner) refl
with_session-ok (err e, session', w') session bytes w h = absurd (cc (ap (λ o. o.0) h))
with_session-ok (stuck, session', w') session bytes w h = absurd (cc (ap (λ o. o.0) h))
