-- ===== src/Scp/Scp02.antt =====
-- crates/scll-core/src/scp/scp02.rs: the host's side of opening an SCP02 channel. `Exact` is about
-- the parser and the security level, and `Opened` about `begin`. Arrays are lists.
pub mod Exact
pub mod Opened
use scll_rust.Prelude.{
  ℕ, List, [], ◌∷◌, ◌++◌, Bool, not, ◌&&◌, ◌||◌, length, ◌==◌, bit_and, bit_or, if◌then◌else◌,
  Result, ok, err, stuck, map_err, reject_if, ◌>>=◌, ◌>>◌,
}
use scll_rust.Prelude.Slices.{index, slice}
use scll_rust.Prelude.Heapless.{Heapless}
use scll_rust.Command.{push}
use scll_rust.Error.{ScllError}

abbrev pub scp_id_scp02 : ℕ
scp_id_scp02 = 0x02

abbrev pub iu_response_len : ℕ
iu_response_len = 28

pub record IuResponse : Type 0 where
  pub kvn : ℕ
  pub seq_counter : List ℕ
  pub card_challenge : List ℕ
  pub card_cryptogram : List ℕ

pub record Scp02State : Type 0 where
  pub session : ℕ
  pub i_param : ℕ
  pub security_level : ℕ
  pub kvn : ℕ

unfoldable pub cap_security_level : ℕ → ℕ → Result ScllError ℕ
cap_security_level i_param requested =
    let allowed = if i_param == 0x15 || i_param == 0x55 then bit_or 0x03 0x10 else 0x03 in
    let effective = bit_and requested allowed in
    if effective == 0 then err ScllError.no_common_security_level else ok effective

unfoldable pub parse_iu_response : List ℕ → Result ScllError IuResponse
parse_iu_response bytes = do
  reject_if (not (length bytes == iu_response_len)) ScllError.scp_protocol_unsupported
  scp_id ← index bytes 11
  reject_if (not (scp_id == scp_id_scp02)) ScllError.scp_protocol_unsupported
  seq_counter ← slice bytes 12 14
  card_challenge ← slice bytes 14 20
  card_cryptogram ← slice bytes 20 28
  kvn ← index bytes 10
  ok (record {
    kvn = kvn;
    seq_counter = seq_counter;
    card_challenge = card_challenge;
    card_cryptogram = card_cryptogram;
  })

module _ ⦃hl : Heapless⦄ where
  unfoldable pub extend : List ℕ → List ℕ → Result ScllError (List ℕ)
  extend apdu src = map_err ScllError.build (push apdu src)

  unfoldable pub iu_command : ℕ → ℕ → List ℕ → Result ScllError (List ℕ)
  iu_command kvn key_id host_challenge = do
    a1 ← extend [] (0x80 ∷ 0x50 ∷ kvn ∷ key_id ∷ 0x08 ∷ [])
    a2 ← extend a1 host_challenge
    extend a2 (0x00 ∷ [])

  unfoldable pub ea_plaintext : ℕ → List ℕ → Result ScllError (List ℕ)
  ea_plaintext security_level host_cryptogram = do
    a1 ← extend [] (0x84 ∷ 0x82 ∷ security_level ∷ 0x00 ∷ 0x08 ∷ [])
    extend a1 host_cryptogram
