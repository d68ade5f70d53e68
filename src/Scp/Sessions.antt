-- ===== src/Scp/Sessions.antt =====
-- The open channel of crates/scll-core/src/scp/mod.rs: its accessors, and wrapping and unwrapping
-- by the backend of either protocol. The session that a method is lent is part of the state.
use scll_rust.Prelude.{ℕ, List, Result, map_err}
use scll_rust.Prelude.Actions.{Action}
use scll_rust.Error.{ScllError, BackendError}
use scll_rust.Scp.Backend.{Scp03Backend, Scp02Backend}
use scll_rust.Scp.Scp03.{Scp03State}
use scll_rust.Scp.Scp02.{Scp02State}

pub data ScpSession : Type 0 where
  by_scp03 : Scp03State → ScpSession
  by_scp02 : Scp02State → ScpSession

pub data ScpProtocol : Type 0 where
  protocol_02 protocol_03 : ScpProtocol

unfoldable pub security_level : ScpSession → ℕ
security_level (by_scp03 s) = s.security_level
security_level (by_scp02 s) = s.security_level

unfoldable pub i_param : ScpSession → ℕ
i_param (by_scp03 s) = s.i_param
i_param (by_scp02 s) = s.i_param

unfoldable pub kvn : ScpSession → ℕ
kvn (by_scp03 s) = s.kvn
kvn (by_scp02 s) = s.kvn

unfoldable pub protocol : ScpSession → ScpProtocol
protocol (by_scp03 s) = protocol_03
protocol (by_scp02 s) = protocol_02

unfoldable pub session_id : ScpSession → ℕ
session_id (by_scp03 s) = s.session
session_id (by_scp02 s) = s.session

-- The session with another handle.
abbrev pub set_handle : ScpSession → ℕ → ScpSession
set_handle (by_scp03 s) handle = by_scp03 (record s { session = handle })
set_handle (by_scp02 s) handle = by_scp02 (record s { session = handle })

module _ {W : Type 0} where
  -- The outcome of a method of the backend as the outcome of a method of the state.
  abbrev pub lent :
      ScpSession
      → Result BackendError (List ℕ) × ℕ × W
      → Result ScllError (List ℕ) × (ScpSession × W)
  lent session (r, handle, w) = (map_err ScllError.backend r, (set_handle session handle, w))

  unfoldable pub wrap :
      Scp03Backend W → Scp02Backend W → List ℕ → Action (ScpSession × W) ScllError (List ℕ)
  wrap b03 b02 capdu (by_scp03 s, w) = lent (by_scp03 s) (b03.wrap_command s.session capdu w)
  wrap b03 b02 capdu (by_scp02 s, w) = lent (by_scp02 s) (b02.wrap_command s.session capdu w)

  unfoldable pub unwrap :
      Scp03Backend W → Scp02Backend W → List ℕ → Action (ScpSession × W) ScllError (List ℕ)
  unwrap b03 b02 rapdu (by_scp03 s, w) = lent (by_scp03 s) (b03.unwrap_response s.session rapdu w)
  unwrap b03 b02 rapdu (by_scp02 s, w) = lent (by_scp02 s) (b02.unwrap_response s.session rapdu w)
