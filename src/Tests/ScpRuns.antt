-- ===== src/Tests/ScpRuns.antt =====
-- Runs of crates/scll-core/src/scp, and the theorems on them.
use scll_rust.Prelude.{
  ℕ, suc, ◌≡◌, refl, ◌⊎◌, ◌↔◌, List, [], ◌∷◌, ◌++◌, length, Bool, true, false, ◌==◌, if◌then◌else◌,
  none, some, ok, err, replicate,
}
use scll_rust.Prelude.Actions.{resume, rename}
use scll_rust.Prelude.Slices.{slice, index}
use scll_rust.Prelude.Heapless.{Heapless, plain}
use scll_rust.Command.{push}
use scll_rust.Error.{ScllError}
use scll_rust.Scp.{ScpVariant, scp02, scp03, i_supported, in_scope, select}
use scll_rust.Scp.Backend.{s8, from_i, with_session, KeyBackend, Scp03Backend}
use scll_rust.Scp.Scp03.{
  IuResponse, Scp03State, cap_security_level, parse_iu_response, parse_fields, parse_seq, field_vec,
  extend, ea_plaintext,
}
use scll_rust.Scp.Scp03.Response.{IsIuResponse, iu_octets}
use scll_rust.Scp.Scp03.Exact.{parse_iu_response_iff, parse_iu_response_total}
use scll_rust.Scp.Scp03.Open.{begin, check_challenge, wrap_ea}
use scll_rust.Scp.Scp03.Open.Checked.{Handshake, begin-Handshake}

instance abbrev vectors : Heapless
vectors = plain

abbrev advertised : List ScpVariant
advertised = scp02 0x55 ∷ scp03 0x30 ∷ scp03 0x70 ∷ scp03 0x71 ∷ []

select_highest : select advertised none ≡ some (scp03 0x70)
unfolding select in_scope i_supported
select_highest = refl

-- A response in S8 mode with a pseudo-random challenge.
abbrev iu : IuResponse
iu = record {
  kvn = 0x30;
  i_param = 0x70;
  mode = s8;
  card_challenge = replicate 8 0x11;
  card_cryptogram = replicate 8 0x22;
  sequence_counter = some (0x00 ∷ 0x00 ∷ 0x2A ∷ []);
}

abbrev pub response : List ℕ
response =
    replicate 10 0x00
    ++ (0x30 ∷ 0x03 ∷ 0x70 ∷ replicate 8 0x11 ++ (replicate 8 0x22 ++ (0x00 ∷ 0x00 ∷ 0x2A ∷ [])))

parse_response : parse_iu_response response ≡ ok iu
unfolding parse_iu_response parse_fields parse_seq field_vec slice index i_supported from_i
parse_response = refl

parse_iu_response_iff_example :
    (parse_iu_response response ≡ ok iu)
    ↔ ((kdd : List ℕ) × (length kdd ≡ 10) × IsIuResponse iu × (response ≡ iu_octets kdd iu))
parse_iu_response_iff_example = parse_iu_response_iff response iu

parse_iu_response_total_example :
    ((r : IuResponse) × (parse_iu_response response ≡ ok r))
    ⊎ (parse_iu_response response ≡ err ScllError.scp_protocol_unsupported)
    ⊎ (parse_iu_response response ≡ err ScllError.no_common_security_level)
parse_iu_response_total_example = parse_iu_response_total response

-- A backend with one session whose cryptograms and challenges are those of the response; the world
-- counts the calls.
abbrev pub equal_octets : List ℕ → List ℕ → Bool
equal_octets [] [] = true
equal_octets (a ∷ as_) (b ∷ bs) = if a == b then equal_octets as_ bs else false
equal_octets _ _ = false

abbrev pub one_key : KeyBackend ℕ
one_key = record { random_bytes = λ n w. (ok (replicate n 0), suc w); ct_eq = equal_octets }

abbrev pub one_session : Scp03Backend ℕ
one_session = record {
  derive_session = λ enc mac mode hc cc w. (ok 7, suc w);
  card_cryptogram = λ s hc cc w. (ok (replicate 8 0x22), suc w);
  host_cryptogram = λ s hc cc w. (ok (replicate 8 0x33), suc w);
  pseudo_card_challenge = λ enc mode seq aid w. (ok (replicate 8 0x11), suc w);
  wrap_command = λ s capdu w. (ok capdu, s, suc w);
  unwrap_response = λ s rapdu w. (ok rapdu, s, suc w);
}

abbrev opened : Scp03State
opened = record { session = 7; i_param = 0x70; security_level = 0x33; kvn = 0x30 }

abbrev ea : List ℕ
ea = 0x84 ∷ 0x82 ∷ 0x33 ∷ 0x00 ∷ 0x08 ∷ replicate 8 0x33

begin_run :
    begin one_key one_session 1 2 0x00 0x33 (replicate 8 0x44) [] response 0 ≡ (ok (opened, ea), 5)
unfolding begin check_challenge wrap_ea with_session resume rename parse_iu_response parse_fields
    parse_seq field_vec slice index i_supported from_i cap_security_level ea_plaintext extend push
begin_run = refl

begin-Handshake_example :
    Handshake one_key one_session 1 2 0x00 0x33 (replicate 8 0x44) [] response opened ea 0 5
begin-Handshake_example =
    begin-Handshake one_key one_session 1 2 0x00 0x33 (replicate 8 0x44) [] response opened ea 0 5
      begin_run
