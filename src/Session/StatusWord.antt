-- ===== src/Session/StatusWord.antt =====
-- split_sw of crates/scll-core/src/workflow/session.rs.
use scll_rust.Prelude.{
  ℕ, ◌+◌, ◌-◌, ◌*◌, ◌≤◌, ◌<◌, ◌≡◌, ◌↔◌, inl, inr, refl, sym, ap, ◌∙◌, List, [], ◌∷◌, ◌++◌, length,
  take, drop, leb, ltb, leb→le, if◌then◌else◌, ok, err, arith, Bool-cases, length-append,
  length-drop, take-append-drop,
}
use scll_rust.Prelude.Slices.{slice_at, index_at, get_elem?-append}
use scll_rust.Prelude.Heapless.{Heapless}
use scll_rust.Error.{ScllError}
use scll_rust.Session.Parts.{split_sw}

module _ ⦃hl : Heapless⦄ where
  split_at :
      (front : List ℕ) (sw1 sw2 : ℕ)
      → split_sw (front ++ (sw1 ∷ sw2 ∷ [])) ≡ (
          if leb (length front) 258
          then ok (front, sw1 * 256 + sw2)
          else err (ScllError.card (sw1 * 256 + sw2)))
  unfolding split_sw
  split_at front sw1 sw2 =
      let whole : List ℕ = front ++ (sw1 ∷ sw2 ∷ []) in
      ground (
        arith,
        length-append front (sw1 ∷ sw2 ∷ []),
        index_at {E = ScllError} whole (length whole - 2) sw1 (
            get_elem?-append front (sw1 ∷ sw2 ∷ []) (length whole - 2) 0
              (omega (arith, length-append front (sw1 ∷ sw2 ∷ [])))),
        index_at {E = ScllError} whole (length whole - 1) sw2 (
            get_elem?-append front (sw1 ∷ sw2 ∷ []) (length whole - 1) 1
              (omega (arith, length-append front (sw1 ∷ sw2 ∷ [])))),
        slice_at {E = ScllError} whole [] front (sw1 ∷ sw2 ∷ []) 0 (length whole - 2) refl refl
            (omega (arith, length-append front (sw1 ∷ sw2 ∷ []))),
        hl.extend_lem ℕ 258 [] front,
      )

  too_short : (rapdu : List ℕ) → length rapdu < 2 → split_sw rapdu ≡ err (ScllError.card 0)
  unfolding split_sw
  too_short rapdu h = ground arith

  abbrev Ends : List ℕ → Type 0
  Ends rapdu = (front : List ℕ) × (sw1 : ℕ) × (sw2 : ℕ) × (rapdu ≡ front ++ (sw1 ∷ sw2 ∷ []))

  ends : (rapdu : List ℕ) → 2 ≤ length rapdu → Ends rapdu
  ends rapdu h =
      let n : ℕ = length rapdu - 2 in
      two (drop n rapdu) (omega (arith, length-drop n rapdu, h)) (take-append-drop n rapdu)
    where
      two :
          (tail : List ℕ)
          → length tail ≡ 2
          → take (length rapdu - 2) rapdu ++ tail ≡ rapdu
          → Ends rapdu
      two [] k e = absurd (omega (arith, k))
      two (a ∷ []) k e = absurd (omega (arith, k))
      two (a ∷ b ∷ []) k e = (take (length rapdu - 2) rapdu, a, b, sym e)
      two (a ∷ b ∷ c ∷ rest) k e = absurd (omega (arith, k))

  -- `split_sw` returns data and a status word exactly if the response is the data, of at most 258
  -- octets, followed by the two octets of the status word.
  pub split_sw_iff :
      (rapdu body : List ℕ) (sw : ℕ)
      → (split_sw rapdu ≡ ok (body, sw)) ↔ (
          (sw1 : ℕ) × (sw2 : ℕ) × (rapdu ≡ body ++ (sw1 ∷ sw2 ∷ []))
          × (sw ≡ sw1 * 256 + sw2)
          × (length body ≤ 258))
  split_sw_iff rapdu body sw = (parted, back)
    where
      back :
          ((sw1 : ℕ) × (sw2 : ℕ) × (rapdu ≡ body ++ (sw1 ∷ sw2 ∷ []))
            × (sw ≡ sw1 * 256 + sw2)
            × (length body ≤ 258))
          → split_sw rapdu ≡ ok (body, sw)
      back (sw1, sw2, e, word, fits) = rw e (split_at body sw1 sw2 ∙ ground (arith, word, fits))

      at_end :
          Ends rapdu
          → split_sw rapdu ≡ ok (body, sw)
          → (sw1 : ℕ) × (sw2 : ℕ) × (rapdu ≡ body ++ (sw1 ∷ sw2 ∷ []))
            × (sw ≡ sw1 * 256 + sw2)
            × (length body ≤ 258)
      at_end (front, sw1, sw2, e) h = elim (Bool-cases (leb (length front) 258)) [
        | inl fits ↦
            let made : split_sw rapdu ≡ ok (front, sw1 * 256 + sw2) =
              ap split_sw e ∙ split_at front sw1 sw2 ∙ rw fits refl in
            let pair : Path (List ℕ × ℕ) (front, sw1 * 256 + sw2) (body, sw) = cc (made, h) in
            let same : front ≡ body = ap (λ p. p.0) pair in
            (sw1, sw2, rw (sym same) e, sym (ap (λ p. p.1) pair), rw (sym same) (leb→le _ _ fits))
        | inr long ↦
            let refused : split_sw rapdu ≡ err (ScllError.card (sw1 * 256 + sw2)) =
              ap split_sw e ∙ split_at front sw1 sw2 ∙ rw long refl in
            absurd (cc (refused, h))
      ]

      parted :
          split_sw rapdu ≡ ok (body, sw)
          → (sw1 : ℕ) × (sw2 : ℕ) × (rapdu ≡ body ++ (sw1 ∷ sw2 ∷ []))
            × (sw ≡ sw1 * 256 + sw2)
            × (length body ≤ 258)
      parted h = elim (Bool-cases (ltb (length rapdu) 2)) [
        | inl short ↦ absurd (cc (too_short rapdu (ground (arith, short)), h))
        | inr long ↦ at_end (ends rapdu (ground (arith, long))) h
      ]
