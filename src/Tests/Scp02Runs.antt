-- ===== src/Tests/Scp02Runs.antt =====
-- Runs of crates/scll-core/src/scp/scp02.rs, and the theorems on them.
use scll_rust.Prelude.{
  ℕ, suc, ◌≡◌, refl, ◌↔◌, List, [], ◌∷◌, ◌++◌, length, Bool, true, false, ◌==◌, if◌then◌else◌, ok,
  replicate,
}
use scll_rust.Prelude.Actions.{resume, rename}
use scll_rust.Prelude.Slices.{slice, index}
use scll_rust.Prelude.Heapless.{Heapless, plain}
use scll_rust.Command.{push}
use scll_rust.Scp.Backend.{with_session, KeyBackend, Scp02Backend}
use scll_rust.Scp.Scp02.{
  IuResponse, Scp02State, cap_security_level, parse_iu_response, extend, ea_plaintext,
}
use scll_rust.Scp.Scp02.Exact.{IsIuResponse, iu_octets, parse_iu_response-Exact}
use scll_rust.Scp.Scp02.Opened.{begin, Handshake02, begin-Handshake02}

instance abbrev vectors : Heapless
vectors = plain

abbrev iu : IuResponse
iu = record {
  kvn = 0x20;
  seq_counter = 0x00 ∷ 0x2A ∷ [];
  card_challenge = replicate 6 0x11;
  card_cryptogram = replicate 8 0x22;
}

abbrev response : List ℕ
response = replicate 10 0x00 ++ (0x20 ∷ 0x02 ∷ 0x00 ∷ 0x2A ∷ replicate 6 0x11 ++ replicate 8 0x22)

parse_response : parse_iu_response response ≡ ok iu
unfolding parse_iu_response slice index
parse_response = refl

parse_iu_response-Exact_example :
    (parse_iu_response response ≡ ok iu)
    ↔ ((kdd : List ℕ) × (length kdd ≡ 10) × IsIuResponse iu × (response ≡ iu_octets kdd iu))
parse_iu_response-Exact_example = parse_iu_response-Exact response iu

-- A backend with one session whose card cryptogram is that of the response; the world counts the
-- calls.
abbrev all_equal : List ℕ → List ℕ → Bool
all_equal [] [] = true
all_equal (x ∷ xs) (y ∷ ys) = if x == y then all_equal xs ys else false
all_equal _ _ = false

abbrev one_key : KeyBackend ℕ
one_key = record { random_bytes = λ n w. (ok (replicate n 0), suc w); ct_eq = all_equal }

abbrev one_session : Scp02Backend ℕ
one_session = record {
  derive_session = λ enc mac dek seq w. (ok 3, suc w);
  card_cryptogram = λ s hc cc w. (ok (replicate 8 0x22), suc w);
  host_cryptogram = λ s hc cc w. (ok (replicate 8 0x33), suc w);
  wrap_command = λ s capdu w. (ok capdu, s, suc w);
  unwrap_response = λ s rapdu w. (ok rapdu, s, suc w);
}

abbrev opened : Scp02State
opened = record { session = 3; i_param = 0x55; security_level = 0x13; kvn = 0x20 }

abbrev ea : List ℕ
ea = 0x84 ∷ 0x82 ∷ 0x13 ∷ 0x00 ∷ 0x08 ∷ replicate 8 0x33

begin_run :
    begin one_key one_session 1 2 3 0x55 0x20 0x33 (replicate 8 0x44) response 0
    ≡ (ok (opened, ea), 4)
unfolding begin with_session resume rename parse_iu_response slice index cap_security_level
    ea_plaintext extend push
begin_run = refl

begin-Handshake02_example :
    Handshake02 one_key one_session 1 2 3 0x55 0x20 0x33 (replicate 8 0x44) response opened ea 0 4
begin-Handshake02_example =
    begin-Handshake02 one_key one_session 1 2 3 0x55 0x20 0x33 (replicate 8 0x44) response opened ea
      0 4 begin_run
