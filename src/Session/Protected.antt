-- ===== src/Session/Protected.antt =====
-- transmit_in_session of crates/scll-core/src/workflow/session.rs: what is sent and what is returned,
-- and what an exchange leaves of the channel.
use scll_rust.Prelude.{ℕ, ◌≡◌, refl, sym, ap, map_err-ok, ◌∙◌, List, Result, ok, err, stuck}
use scll_rust.Prelude.Actions.{Action, resume, rename, went_on, went_on_renamed}
use scll_rust.Prelude.Heapless.{Heapless}
use scll_rust.Error.{ScllError, BackendError, TransportError}
use scll_rust.Scp.Backend.{Scp03Backend, Scp02Backend}
use scll_rust.Scp.Sessions.{
  ScpSession, by_scp03, by_scp02, ScpProtocol, security_level, i_param, kvn, protocol, wrap, unwrap,
  lent, set_handle,
}
use scll_rust.Session.StatusWord.{split_sw_iff}
use scll_rust.Session.{Transport, map_transport, transmit_over, transmit_in_session}
use scll_rust.Session.Exchange.{Answer}

-- What stays of a session: its protocol and its parameters, without the handle.
unfoldable pub channel : ScpSession → ScpProtocol × ℕ × ℕ × ℕ
channel s = (protocol s, security_level s, i_param s, kvn s)

module _ {W : Type 0} where
  -- The action keeps what stays of the session, with any outcome.
  abbrev Keeps {ℓ} : {A : Type ℓ} → Action (ScpSession × W) ScllError A → Type 0
  Keeps act = (s : ScpSession) (w : W) → channel ((act (s, w)).1.0) ≡ channel s

  resume-Keeps {ℓ κ} :
      {A : Type ℓ} {B : Type κ} (out : Result ScllError A × (ScpSession × W))
      (f : A → Action (ScpSession × W) ScllError B)
      → ((a : A) → Keeps (f a))
      → channel ((resume out f).1.0) ≡ channel (out.1.0)
  unfolding resume
  resume-Keeps (ok a, (s, w)) f keeps = keeps a s w
  resume-Keeps (err e, (s, w)) f keeps = refl
  resume-Keeps (stuck, (s, w)) f keeps = refl

  rename-Keeps {ℓ} :
      {A : Type ℓ} (g : TransportError → ScllError)
      (out : Result TransportError A × (ScpSession × W))
      → channel ((rename g out).1.0) ≡ channel (out.1.0)
  unfolding rename
  rename-Keeps g (ok a, (s, w)) = refl
  rename-Keeps g (err e, (s, w)) = refl
  rename-Keeps g (stuck, (s, w)) = refl

  lent-Keeps :
      (s : ScpSession) (out : Result BackendError (List ℕ) × ℕ × W)
      → channel ((lent s out).1.0) ≡ channel s
  unfolding channel protocol security_level i_param kvn
  lent-Keeps (by_scp03 s) out = refl
  lent-Keeps (by_scp02 s) out = refl

  module _ ⦃hl : Heapless⦄ (t : Transport W) (b03 : Scp03Backend W) (b02 : Scp02Backend W) where
    wrap-Keeps : (capdu : List ℕ) → Keeps (wrap b03 b02 capdu)
    unfolding wrap
    wrap-Keeps capdu (by_scp03 s) w = lent-Keeps (by_scp03 s) (b03.wrap_command s.session capdu w)
    wrap-Keeps capdu (by_scp02 s) w = lent-Keeps (by_scp02 s) (b02.wrap_command s.session capdu w)

    unwrap-Keeps : (rapdu : List ℕ) → Keeps (unwrap b03 b02 rapdu)
    unfolding unwrap
    unwrap-Keeps rapdu (by_scp03 s) w =
        lent-Keeps (by_scp03 s) (b03.unwrap_response s.session rapdu w)
    unwrap-Keeps rapdu (by_scp02 s) w =
        lent-Keeps (by_scp02 s) (b02.unwrap_response s.session rapdu w)

    -- An exchange through the open channel, whatever becomes of it, leaves the protocol, the
    -- security level, the `i` parameter and the key version number of the session as they were.
    pub transmit_in_session-channel :
        (capdu : List ℕ) (s : ScpSession) (w : W)
        → channel ((transmit_in_session t b03 b02 capdu (s, w)).1.0) ≡ channel s
    unfolding transmit_in_session
    transmit_in_session-channel capdu s w =
        resume-Keeps (wrap b03 b02 capdu (s, w)) _ (λ wrapped s1 w1.
          resume-Keeps (rename map_transport (transmit_over t wrapped (s1, w1))) _ (λ rapdu s2 w2.
            resume-Keeps (unwrap b03 b02 rapdu (s2, w2)) _ (λ unwrapped s3 w3. refl)
            ∙ unwrap-Keeps rapdu s2 w2)
          ∙ rename-Keeps map_transport (transmit_over t wrapped (s1, w1)))
        ∙ wrap-Keeps capdu s w

    over_transport :
        (wrapped rapdu : List ℕ) (s s' : ScpSession) (w w' : W)
        → transmit_over t wrapped (s, w) ≡ (ok rapdu, (s', w'))
        → (t.transmit wrapped w ≡ (ok rapdu, w')) × (s ≡ s')
    over_transport wrapped rapdu s s' w w' h = (ap (λ o. (o.0, o.1.1)) h, ap (λ o. o.1.0) h)

    -- The session's own backend wrapped the command with the session's handle, and the session has the
    -- handle after it.
    abbrev pub Wrapped : ScpSession → List ℕ → W → List ℕ → ScpSession → W → Type 0
    Wrapped (by_scp03 s) capdu w wrapped s1 w1 =
        (handle : ℕ) × (b03.wrap_command s.session capdu w ≡ (ok wrapped, handle, w1))
        × (s1 ≡ by_scp03 (record s { session = handle }))
    Wrapped (by_scp02 s) capdu w wrapped s1 w1 =
        (handle : ℕ) × (b02.wrap_command s.session capdu w ≡ (ok wrapped, handle, w1))
        × (s1 ≡ by_scp02 (record s { session = handle }))

    -- The same for an answer that is unwrapped.
    abbrev pub Unwrapped : ScpSession → List ℕ → W → List ℕ → ScpSession → W → Type 0
    Unwrapped (by_scp03 s) rapdu w unwrapped s1 w1 =
        (handle : ℕ) × (b03.unwrap_response s.session rapdu w ≡ (ok unwrapped, handle, w1))
        × (s1 ≡ by_scp03 (record s { session = handle }))
    Unwrapped (by_scp02 s) rapdu w unwrapped s1 w1 =
        (handle : ℕ) × (b02.unwrap_response s.session rapdu w ≡ (ok unwrapped, handle, w1))
        × (s1 ≡ by_scp02 (record s { session = handle }))

    lent-ok :
        (s s1 : ScpSession) (out : Result BackendError (List ℕ) × ℕ × W) (octets : List ℕ) (w1 : W)
        → lent s out ≡ (ok octets, (s1, w1))
        → (handle : ℕ) × (out ≡ (ok octets, handle, w1)) × (s1 ≡ set_handle s handle)
    lent-ok s s1 (r, handle, w) octets w1 h =
        let good : r ≡ ok octets = map_err-ok ScllError.backend r octets (ap (λ o. o.0) h) in
        let world : w ≡ w1 = ap (λ o. o.1.1) h in
        (
          handle,
          ap (λ x. (x, handle, w)) good ∙ ap (λ x. (ok octets, handle, x)) world,
          sym (ap (λ o. o.1.0) h),
        )

    wrap-Wrapped :
        (capdu wrapped : List ℕ) (s s1 : ScpSession) (w w1 : W)
        → wrap b03 b02 capdu (s, w) ≡ (ok wrapped, (s1, w1))
        → Wrapped s capdu w wrapped s1 w1
    unfolding wrap
    wrap-Wrapped capdu wrapped (by_scp03 s) s1 w w1 h = lent-ok (by_scp03 s) s1 _ wrapped w1 h
    wrap-Wrapped capdu wrapped (by_scp02 s) s1 w w1 h = lent-ok (by_scp02 s) s1 _ wrapped w1 h

    unwrap-Unwrapped :
        (rapdu unwrapped : List ℕ) (s s1 : ScpSession) (w w1 : W)
        → unwrap b03 b02 rapdu (s, w) ≡ (ok unwrapped, (s1, w1))
        → Unwrapped s rapdu w unwrapped s1 w1
    unfolding unwrap
    unwrap-Unwrapped rapdu unwrapped (by_scp03 s) s1 w w1 h =
        lent-ok (by_scp03 s) s1 _ unwrapped w1 h
    unwrap-Unwrapped rapdu unwrapped (by_scp02 s) s1 w w1 h =
        lent-ok (by_scp02 s) s1 _ unwrapped w1 h

    -- If `transmit_in_session` returns data and a status word, then the backend of the session's own
    -- protocol wrapped the command with the session's handle, the octets it gave were the one message
    -- sent, the same backend unwrapped the card's answer with the handle that the wrapping left, the
    -- session has changed in its handle alone, and what was unwrapped is the data followed by the
    -- status word.
    pub transmit_in_session-Answer :
        (capdu body : List ℕ) (sw : ℕ) (s s' : ScpSession) (w w' : W)
        → transmit_in_session t b03 b02 capdu (s, w) ≡ (ok (body, sw), (s', w'))
        → (wrapped : List ℕ) × (rapdu : List ℕ) × (unwrapped : List ℕ) × (s1 : ScpSession)
          × (w1 : W) × (w2 : W) × Wrapped s capdu w wrapped s1 w1
          × (t.transmit wrapped w1 ≡ (ok rapdu, w2))
          × Unwrapped s1 rapdu w2 unwrapped s' w'
          × Answer unwrapped body sw
    unfolding transmit_in_session
    transmit_in_session-Answer capdu body sw s s' w w' h0 =
        let (wrapped, sw1, wrapping, h1) = went_on _ _ _ _ h0 in
        let (rapdu, sw2, sent, h2) = went_on_renamed _ _ _ _ _ h1 in
        let (unwrapped, sw3, unwrapping, h3) = went_on _ _ _ _ h2 in
        let (transmitted, kept) =
          over_transport wrapped rapdu (sw1.0) (sw2.0) (sw1.1) (sw2.1) sent in
        let last : sw3 ≡ (s', w') = ap (λ o. o.1) h3 in
        (
          wrapped,
          rapdu,
          unwrapped,
          sw1.0,
          sw1.1,
          sw2.1,
          wrap-Wrapped capdu wrapped s (sw1.0) w (sw1.1) wrapping,
          transmitted,
          unwrap-Unwrapped rapdu unwrapped (sw1.0) s' (sw2.1) w' (
              ap (λ x. unwrap b03 b02 rapdu (x, sw2.1)) kept
              ∙ unwrapping
              ∙ ap (λ x. (ok unwrapped, x)) last),
          (split_sw_iff unwrapped body sw).0 (ap (λ o. o.0) h3),
        )
