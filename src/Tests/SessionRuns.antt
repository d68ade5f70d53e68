-- ===== src/Tests/SessionRuns.antt =====
-- Runs of crates/scll-core/src/workflow/session.rs, and the theorems on them.
use scll_rust.Prelude.{
  ℕ, suc, ◌+◌, ◌*◌, ◌≤◌, ◌≡◌, refl, ◌↔◌, List, [], ◌∷◌, ◌++◌, length, some, true, ok, err, arith,
}
use scll_rust.Prelude.Actions.{resume, rename}
use scll_rust.Prelude.Slices.{slice, index}
use scll_rust.Prelude.Heapless.{Heapless, plain}
use scll_rust.Tlv.{parse}
use scll_rust.Command.{push, push_body, build}
use scll_rust.Command.Apdu.{read_apdu}
use scll_rust.Command.Frame.{command}
use scll_rust.Command.Builders.{select_by_aid}
use scll_rust.Error.{ScllError}
use scll_rust.Scp.Backend.{Scp03Backend, Scp02Backend}
use scll_rust.Scp.Sessions.{ScpSession, by_scp03, wrap, unwrap}
use scll_rust.Session.Parts.{split_sw, fci_df_name, find}
use scll_rust.Session.{Transport, sw_ok, transmit_plain, select, transmit_in_session}
use scll_rust.Session.StatusWord.{split_sw_iff}
use scll_rust.Session.Exchange.{Answer, select-Answer}
use scll_rust.Session.Protected.{
  channel, Wrapped, Unwrapped, transmit_in_session-channel, transmit_in_session-Answer,
}

instance abbrev vectors : Heapless
vectors = plain

abbrev fci : List ℕ
fci = 0x6F ∷ 0x04 ∷ 0x84 ∷ 0x02 ∷ 0xA0 ∷ 0x01 ∷ []

df_name_in_template : fci_df_name fci ≡ ok (some (0xA0 ∷ 0x01 ∷ []))
unfolding fci_df_name find parse
df_name_in_template = refl

split_too_short : split_sw (0x90 ∷ []) ≡ err (ScllError.card 0)
unfolding split_sw
split_too_short = refl

split_sw_iff_example : (split_sw (fci ++ (0x90 ∷ 0x00 ∷ [])) ≡ ok (fci, 0x9000)) ↔ (
    (sw1 : ℕ) × (sw2 : ℕ) × (fci ++ (0x90 ∷ 0x00 ∷ []) ≡ fci ++ (sw1 ∷ sw2 ∷ []))
    × (0x9000 ≡ sw1 * 256 + sw2)
    × (length fci ≤ 258))
split_sw_iff_example = split_sw_iff (fci ++ (0x90 ∷ 0x00 ∷ [])) fci 0x9000

-- A card that answers everything with the same data; the world counts the exchanges.
abbrev one_answer : Transport ℕ
one_answer = record { transmit = λ capdu w. (ok (fci ++ (0x90 ∷ 0x00 ∷ [])), suc w) }

select_run : select one_answer (0xA0 ∷ []) 0 ≡ (ok fci, 1)
unfolding select transmit_plain resume rename split_sw slice index select_by_aid build push
    push_body
select_run = refl

select-Answer_example :
    (capdu : List ℕ) × (rapdu : List ℕ) × (read_apdu capdu
      ≡ some (command 0x00 0xA4 0x04 0x00 (0xA0 ∷ []) true))
    × (one_answer.transmit capdu 0 ≡ (ok rapdu, 1))
    × Answer rapdu fci sw_ok
select-Answer_example = select-Answer one_answer (0xA0 ∷ []) fci 0 1 (omega arith) select_run

-- A backend that wraps a command by an octet in front, takes an octet off an answer, and counts in
-- the handle.
abbrev pub marks_03 : Scp03Backend ℕ
marks_03 = record {
  derive_session = λ enc mac mode hc cc w. (ok 7, w);
  card_cryptogram = λ s hc cc w. (ok [], w);
  host_cryptogram = λ s hc cc w. (ok [], w);
  pseudo_card_challenge = λ enc mode seq aid w. (ok [], w);
  wrap_command = λ s capdu w. (ok (0x04 ∷ capdu), suc s, w);
  unwrap_response = λ s rapdu w. (ok rapdu, suc s, w);
}

abbrev pub marks_02 : Scp02Backend ℕ
marks_02 = record {
  derive_session = λ enc mac dek seq w. (ok 3, w);
  card_cryptogram = λ s hc cc w. (ok [], w);
  host_cryptogram = λ s hc cc w. (ok [], w);
  wrap_command = λ s capdu w. (ok capdu, s, w);
  unwrap_response = λ s rapdu w. (ok rapdu, s, w);
}

abbrev pub session_at : ℕ → ScpSession
session_at handle =
    by_scp03 (record { session = handle; i_param = 0x70; security_level = 0x33; kvn = 0x30 })

session_run :
    transmit_in_session one_answer marks_03 marks_02 (0x80 ∷ []) (session_at 7, 0)
    ≡ (ok (fci, 0x9000), (session_at 9, 1))
unfolding transmit_in_session resume rename split_sw slice index wrap unwrap
session_run = refl

transmit_in_session-channel_example :
    channel ((transmit_in_session one_answer marks_03 marks_02 (0x80 ∷ []) (session_at 7, 0)).1.0)
    ≡ channel (session_at 7)
transmit_in_session-channel_example =
    transmit_in_session-channel one_answer marks_03 marks_02 (0x80 ∷ []) (session_at 7) 0

transmit_in_session-Answer_example :
    (wrapped : List ℕ) × (rapdu : List ℕ) × (unwrapped : List ℕ) × (s1 : ScpSession) × (w1 : ℕ)
    × (w2 : ℕ) × Wrapped one_answer marks_03 marks_02 (session_at 7) (0x80 ∷ []) 0 wrapped s1 w1
    × (one_answer.transmit wrapped w1 ≡ (ok rapdu, w2))
    × Unwrapped one_answer marks_03 marks_02 s1 rapdu w2 unwrapped (session_at 9) 1
    × Answer unwrapped fci 0x9000
transmit_in_session-Answer_example =
    transmit_in_session-Answer one_answer marks_03 marks_02 (0x80 ∷ []) fci 0x9000 (session_at 7)
      (session_at 9) 0 1 session_run
