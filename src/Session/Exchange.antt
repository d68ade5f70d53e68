-- ===== src/Session/Exchange.antt =====
-- An exchange of crates/scll-core/src/workflow/session.rs that succeeds, and what no exchange changes.
use scll_rust.Prelude.{
  ℕ, ◌+◌, ◌*◌, ◌≤◌, ◌≡◌, sym, ap, List, [], ◌∷◌, ◌++◌, true, length, ◌==◌, ==_iff, if◌then◌else◌,
  inl, inr, some, ok, err, map_err, arith, Bool-cases,
}
use scll_rust.Prelude.Actions.{went_on, went_on_lift, went_on_renamed}
use scll_rust.Prelude.Heapless.{Heapless}
use scll_rust.Command.Apdu.{read_apdu}
use scll_rust.Command.Frame.{command}
use scll_rust.Command.Builders.Scopes.{select_by_aid-load_block-set_card_status}
use scll_rust.Error.{ScllError, from_general_sw}
use scll_rust.Session.StatusWord.{split_sw_iff}
use scll_rust.Session.{Transport, sw_ok, sw_file_not_found, transmit_plain, select}

-- `rapdu` is `body` followed by the two octets of the status word.
abbrev pub Answer : List ℕ → List ℕ → ℕ → Type 0
Answer rapdu body sw =
    (sw1 : ℕ) × (sw2 : ℕ) × (rapdu ≡ body ++ (sw1 ∷ sw2 ∷ []))
    × (sw ≡ sw1 * 256 + sw2)
    × (length body ≤ 258)

module _ ⦃hl : Heapless⦄ {W : Type 0} (t : Transport W) where
  pub plain-Answer :
      (capdu body : List ℕ) (sw : ℕ) (w w' : W)
      → transmit_plain t capdu w ≡ (ok (body, sw), w')
      → (rapdu : List ℕ) × (t.transmit capdu w ≡ (ok rapdu, w')) × Answer rapdu body sw
  unfolding transmit_plain
  plain-Answer capdu body sw w w' h =
      let (rapdu, w1, sent, parted) = went_on_renamed _ _ _ _ _ h in
      let world : w1 ≡ w' = ap (λ o. o.1) parted in
      (rapdu, rw (sym world) sent, (split_sw_iff rapdu body sw).0 (ap (λ o. o.0) parted))

  success :
      (sw : ℕ) (body body' : List ℕ)
      → (if sw == sw_ok
          then ok body'
          else if sw == sw_file_not_found
          then err ScllError.card_not_usable
          else err (from_general_sw sw))
        ≡ ok body
      → (sw ≡ sw_ok) × (body' ≡ body)
  success sw body body' h = elim (Bool-cases (sw == sw_ok)) [
    | inl good ↦ ((==_iff sw sw_ok).0 good, ground (arith, good, h))
    | inr bad ↦ absurd (ground (arith, bad, h))
  ]

  -- If `select` returns data for an AID of at most 255 octets, then the one command it sent is read
  -- by a card as SELECT by that name, and the card's answer was these data followed by 9000.
  pub select-Answer :
      (aid body : List ℕ) (w w' : W)
      → length aid ≤ 255
      → select t aid w ≡ (ok body, w')
      → (capdu : List ℕ) × (rapdu : List ℕ) × (read_apdu capdu
          ≡ some (command 0x00 0xA4 0x04 0x00 aid true))
        × (t.transmit capdu w ≡ (ok rapdu, w'))
        × Answer rapdu body sw_ok
  unfolding select
  select-Answer aid body w w' small h0 =
      let (capdu, built, h1) = went_on_lift _ _ _ _ _ h0 in
      let (parts, w1, sent, h2) = went_on _ _ _ _ h1 in
      let (good, same) = success (parts.1) body (parts.0) (ap (λ o. o.0) h2) in
      let (rapdu, answered, answer) = plain-Answer capdu (parts.0) (parts.1) w w1 sent in
      let (apdu, made, reads, short) =
        (select_by_aid-load_block-set_card_status aid 0 0 true small).0 in
      let world : w1 ≡ w' = ap (λ o. o.1) h2 in
      let octets : apdu ≡ capdu = cc (ap (map_err ScllError.build) made, built) in
      (capdu, rapdu, rw (sym octets) reads, rw (sym world) answered, rw (sym same, sym good) answer)
