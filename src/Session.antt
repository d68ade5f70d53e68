-- ===== src/Session.antt =====
-- crates/scll-core/src/workflow/session.rs: one exchange with the card, in the clear or through an
-- open channel. `StatusWord` is about the parts of a response, and `Exchange` about an exchange.
pub mod Parts
pub mod StatusWord
pub mod Exchange
pub mod Protected
pub mod Name
use scll_rust.Prelude.{
  ℕ, ◌+◌, ◌-◌, ◌*◌, List, [], ◌∷◌, Bool, length, is_empty, ltb, ◌==◌, if◌then◌else◌, Option, none,
  some, Result, ok, err, stuck, ok_or, map_err,
}
use scll_rust.Prelude.Slices.{index, slice}
use scll_rust.Prelude.Actions.{Action, ◌>>=◌, lift, map_error}
use scll_rust.Prelude.Heapless.{Heapless}
use scll_rust.Tlv.{Tlv, parse}
use scll_rust.Command.Builders.{select_by_aid}
use scll_rust.Error.{ScllError, TransportError, from_general_sw}
use scll_rust.Session.Parts.{split_sw}
use scll_rust.Scp.Backend.{Scp03Backend, Scp02Backend}
use scll_rust.Scp.Sessions.{ScpSession, wrap, unwrap}

abbrev pub sw_ok : ℕ
sw_ok = 0x9000

abbrev pub sw_file_not_found : ℕ
sw_file_not_found = 0x6A82

abbrev pub sw_ref_not_found : ℕ
sw_ref_not_found = 0x6A88

abbrev pub sw_wrong_data : ℕ
sw_wrong_data = 0x6A80

abbrev pub sw_more_data : ℕ
sw_more_data = 0x6310

abbrev pub sw_conditions : ℕ
sw_conditions = 0x6985

-- The trait of crates/scll-core/src/transport.rs, as far as it is used here.
pub record Transport (W : Type 0) : Type 0 where
  pub transmit : List ℕ → Action W TransportError (List ℕ)

unfoldable pub map_transport : TransportError → ScllError
map_transport TransportError.card_removed = ScllError.card_removed
map_transport TransportError.reader_gone = ScllError.reader_gone
map_transport TransportError.timeout = ScllError.timeout
map_transport TransportError.protocol_error = ScllError.transport_unavailable
map_transport (TransportError.other detail) = ScllError.transport_unavailable

module _ ⦃hl : Heapless⦄ where
  module _ {W : Type 0} (t : Transport W) where
    unfoldable pub transmit_plain : List ℕ → Action W ScllError (List ℕ × ℕ)
    transmit_plain capdu = do
      rapdu ← map_error map_transport (t.transmit capdu)
      lift (split_sw rapdu)

    unfoldable pub select : List ℕ → Action W ScllError (List ℕ)
    select aid = do
      capdu ← lift (map_err ScllError.build (select_by_aid aid))
      (body, sw) ← transmit_plain capdu
      lift (
          if sw == sw_ok
          then ok body
          else if sw == sw_file_not_found
          then err ScllError.card_not_usable
          else err (from_general_sw sw))

    -- The transport does not see the session.
    abbrev pub transmit_over : List ℕ → Action (ScpSession × W) TransportError (List ℕ)
    transmit_over capdu (session, w) = let (r, w') = t.transmit capdu w in (r, (session, w'))

    unfoldable pub transmit_in_session :
        Scp03Backend W → Scp02Backend W → List ℕ → Action (ScpSession × W) ScllError (List ℕ × ℕ)
    transmit_in_session b03 b02 capdu_plaintext = do
      wrapped ← wrap b03 b02 capdu_plaintext
      rapdu ← map_error map_transport (transmit_over wrapped)
      unwrapped ← unwrap b03 b02 rapdu
      lift (split_sw unwrapped)
