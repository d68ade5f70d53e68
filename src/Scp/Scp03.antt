-- ===== src/Scp/Scp03.antt =====
-- crates/scll-core/src/scp/scp03.rs: the host's side of opening an SCP03 channel. `Open` is
-- the function `begin`, `Response` is about the parser and `Levels` about the security level.
pub mod Response
pub mod Exact
pub mod Levels
pub mod Open
use scll_rust.Prelude.{
  ℕ, ◌+◌, ◌*◌, List, [], ◌∷◌, Bool, true, false, not, ◌&&◌, length, ltb, ◌==◌, bit_and, bit_or,
  if◌then◌else◌, Option, none, some, Result, ok, err, stuck, ok_or, map_err, ◌>>=◌, ◌>>◌, reject_if,
}
use scll_rust.Prelude.Bits.{u8_try_from}
use scll_rust.Prelude.Slices.{index, slice}
use scll_rust.Prelude.Heapless.{Heapless}
use scll_rust.Command.{overflow, push}
use scll_rust.Error.{ScllError}
use scll_rust.Scp.{i_pseudo_random, i_rmac, i_renc, i_supported}
use scll_rust.Scp.Backend.{ScpMode, from_i, field_len}

abbrev pub scp_id_scp03 : ℕ
scp_id_scp03 = 0x03

abbrev pub iu_prefix_len : ℕ
iu_prefix_len = 13

abbrev pub iu_i_offset : ℕ
iu_i_offset = 12

abbrev pub seq_counter_len : ℕ
seq_counter_len = 3

abbrev pub scp03_s16_max : ℕ
scp03_s16_max = 16

pub record IuResponse : Type 0 where
  pub kvn : ℕ
  pub i_param : ℕ
  pub mode : ScpMode
  pub card_challenge : List ℕ
  pub card_cryptogram : List ℕ
  pub sequence_counter : Option (List ℕ)

pub record Scp03State : Type 0 where
  pub session : ℕ
  pub i_param : ℕ
  pub security_level : ℕ
  pub kvn : ℕ

unfoldable pub cap_security_level : ℕ → ℕ → Result ScllError ℕ
cap_security_level i_param requested =
    let with_rmac = if not (bit_and i_param i_rmac == 0) then bit_or 0x03 0x10 else 0x03 in
    let allowed = if not (bit_and i_param i_renc == 0) then bit_or with_rmac 0x20 else with_rmac in
    let effective = bit_and requested allowed in
    if effective == 0 then err ScllError.no_common_security_level else ok effective

module _ ⦃hl : Heapless⦄ where
  unfoldable pub extend : List ℕ → List ℕ → Result ScllError (List ℕ)
  extend apdu src = map_err ScllError.build (push apdu src)

  unfoldable pub iu_command : ℕ → List ℕ → Result ScllError (List ℕ)
  iu_command kvn host_challenge = do
    lc ← ok_or (u8_try_from (length host_challenge)) (ScllError.build overflow)
    a1 ← extend [] (0x80 ∷ 0x50 ∷ kvn ∷ 0x00 ∷ lc ∷ [])
    a2 ← extend a1 host_challenge
    extend a2 (0x00 ∷ [])

  unfoldable pub ea_plaintext : ℕ → List ℕ → Result ScllError (List ℕ)
  ea_plaintext security_level host_cryptogram = do
    lc ← ok_or (u8_try_from (length host_cryptogram)) (ScllError.build overflow)
    a1 ← extend [] (0x84 ∷ 0x82 ∷ security_level ∷ 0x00 ∷ lc ∷ [])
    extend a1 host_cryptogram

  -- `Vec::new()` of capacity `SCP03_S16_MAX` with one `extend_from_slice`.
  unfoldable pub field_vec : List ℕ → Result ScllError (List ℕ)
  field_vec src = ok_or (hl.extend scp03_s16_max [] src) ScllError.scp_protocol_unsupported

  unfoldable pub parse_seq : List ℕ → Bool → ℕ → Result ScllError (Option (List ℕ))
  parse_seq bytes true seq_start =
      slice bytes seq_start (seq_start + seq_counter_len) >>= λ sc. ok (some sc)
  parse_seq bytes false seq_start = ok none

  -- From `let mode` on.
  unfoldable pub parse_fields : List ℕ → ℕ → Result ScllError IuResponse
  parse_fields bytes i_param = do
    let mode = from_i i_param
    let field = field_len mode
    let pseudo = not (bit_and i_param i_pseudo_random == 0)
    let expected = iu_prefix_len + 2 * field + (if pseudo then seq_counter_len else 0)
    reject_if (not (length bytes == expected)) ScllError.scp_protocol_unsupported
    let chal_start = iu_prefix_len
    let crypto_start = chal_start + field
    let seq_start = crypto_start + field
    challenge ← slice bytes chal_start crypto_start
    card_challenge ← field_vec challenge
    cryptogram ← slice bytes crypto_start seq_start
    card_cryptogram ← field_vec cryptogram
    sequence_counter ← parse_seq bytes pseudo seq_start
    kvn ← index bytes 10
    ok (record {
      kvn = kvn;
      i_param = i_param;
      mode = mode;
      card_challenge = card_challenge;
      card_cryptogram = card_cryptogram;
      sequence_counter = sequence_counter;
    })

  unfoldable pub parse_iu_response : List ℕ → Result ScllError IuResponse
  parse_iu_response bytes = do
    reject_if (ltb (length bytes) iu_prefix_len) ScllError.scp_protocol_unsupported
    scp_id ← index bytes 11
    reject_if (not (scp_id == scp_id_scp03)) ScllError.scp_protocol_unsupported
    i_param ← index bytes iu_i_offset
    reject_if (not (i_supported i_param)) ScllError.no_common_security_level
    parse_fields bytes i_param
