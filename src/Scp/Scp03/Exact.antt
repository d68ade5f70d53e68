-- ===== src/Scp/Scp03/Exact.antt =====
-- parse_iu_response of crates/scll-core/src/scp/scp03.rs accepts only what a card may send.
use scll_rust.Prelude.{
  ℕ, ◌+◌, ◌*◌, ◌≤◌, ◌≡◌, ◌↔◌, ◌⊎◌, inl, inr, refl, sym, ap, ◌∙◌, List, [], ◌∷◌, ◌++◌, Bool, true,
  false, ◌==◌, ltb, if◌then◌else◌, Option, none, some, ok, err, arith, length, take, drop,
  length-append, Bool-cases, take-append-drop, length-take, length-drop, ==_iff,
}
use mathlib.Core.List.{append_assoc}
use scll_rust.Prelude.Heapless.{Heapless}
use scll_rust.Error.{ScllError}
use scll_rust.Scp.{i_supported}
use scll_rust.Scp.Backend.{from_i, field_len}
use scll_rust.Scp.Scp03.{IuResponse, parse_fields, parse_iu_response}
use scll_rust.Scp.Scp03.Response.{
  is_pseudo, seq_octets, SeqFits, iu_octets, IsIuResponse, parse_prefix, parse_octets,
}

abbrev Layout : List ℕ → Type 0
Layout bytes =
    (kdd : List ℕ) × (kvn : ℕ) × (scp_id : ℕ) × (i : ℕ) × (rest : List ℕ) × (length kdd ≡ 10)
    × (bytes ≡ (kdd ++ (kvn ∷ scp_id ∷ i ∷ [])) ++ rest)

layout : (bytes : List ℕ) → 13 ≤ length bytes → Layout bytes
layout bytes h =
    three (drop 10 bytes) (omega (arith, length-drop 10 bytes, h)) (take-append-drop 10 bytes)
  where
    three : (tail : List ℕ) → 3 ≤ length tail → take 10 bytes ++ tail ≡ bytes → Layout bytes
    three [] n e = absurd (omega (arith, n))
    three (a ∷ []) n e = absurd (omega (arith, n))
    three (a ∷ b ∷ []) n e = absurd (omega (arith, n))
    three (a ∷ b ∷ c ∷ rest) n e = (
      take 10 bytes,
      a,
      b,
      c,
      rest,
      omega (arith, length-take 10 bytes, h),
      sym e ∙ sym (append_assoc (take 10 bytes) (a ∷ b ∷ c ∷ []) rest),
    )

-- The fields behind the prefix.
abbrev Fields : ℕ → List ℕ → Type 0
Fields i rest =
    (ch : List ℕ) × (cr : List ℕ) × (sq : Option (List ℕ)) × (rest ≡ ch ++ (cr ++ seq_octets sq))
    × (length ch ≡ field_len (from_i i))
    × (length cr ≡ field_len (from_i i))
    × SeqFits (is_pseudo i) sq

fields :
    (i : ℕ) (rest : List ℕ)
    → length rest ≡ 2 * field_len (from_i i) + (if is_pseudo i then 3 else 0)
    → Fields i rest
fields i rest h =
    let f : ℕ = field_len (from_i i) in
    let more : List ℕ = drop f rest in
    let last =
      counted (is_pseudo i) (drop f more)
        (omega (arith, length-drop f more, length-drop f rest, h)) in
    (
      take f rest,
      take f more,
      last.0,
      sym (
          ap (λ l. take f rest ++ l) (ap (λ l. take f more ++ l) (last.1) ∙ take-append-drop f more)
          ∙ take-append-drop f rest),
      ground (arith, length-take f rest, h),
      ground (arith, length-take f more, length-drop f rest, h),
      last.2,
    )
  where
    counted :
        (p : Bool) (bs : List ℕ)
        → length bs ≡ (if p then 3 else 0)
        → (sq : Option (List ℕ)) × (seq_octets sq ≡ bs) × SeqFits p sq
    counted true bs n = (some bs, refl, n)
    counted false [] n = (none, refl, tt)
    counted false (b ∷ bs) n = absurd (omega (arith, n))

module _ ⦃hl : Heapless⦄ where
  wrong_length :
      (bytes : List ℕ) (i : ℕ)
      → (length bytes == 13 + 2 * field_len (from_i i) + (if is_pseudo i then 3 else 0)) ≡ false
      → parse_fields bytes i ≡ err ScllError.scp_protocol_unsupported
  unfolding parse_fields
  wrong_length bytes i h = rw h refl

  too_short :
      (bytes : List ℕ)
      → ltb (length bytes) 13 ≡ true
      → parse_iu_response bytes ≡ err ScllError.scp_protocol_unsupported
  unfolding parse_iu_response
  too_short bytes h = rw h refl

  -- What a response of at least thirteen octets is: a right one, or one that is refused.
  abbrev Outcome : List ℕ → Type 0
  Outcome bytes =
      ((kdd : List ℕ) × (r : IuResponse) × (length kdd ≡ 10)
        × IsIuResponse r
        × (bytes ≡ iu_octets kdd r))
      ⊎ (parse_iu_response bytes ≡ err ScllError.scp_protocol_unsupported)
      ⊎ (parse_iu_response bytes ≡ err ScllError.no_common_security_level)

  right_length :
      (kdd rest : List ℕ) (kvn i : ℕ)
      → length kdd ≡ 10
      → i_supported i ≡ true
      → Fields i rest
      → Outcome ((kdd ++ (kvn ∷ 3 ∷ i ∷ [])) ++ rest)
  unfolding iu_octets
  right_length kdd rest kvn i ten supported (ch, cr, sq, e, ch_len, cr_len, fits) = inl (
    kdd,
    record {
      kvn = kvn;
      i_param = i;
      mode = from_i i;
      card_challenge = ch;
      card_cryptogram = cr;
      sequence_counter = sq;
    },
    ten,
    (supported, refl, ch_len, cr_len, fits),
    ap (λ l. (kdd ++ (kvn ∷ 3 ∷ i ∷ [])) ++ l) e,
  )

  supported-Outcome :
      (kdd rest : List ℕ) (kvn i : ℕ)
      → length kdd ≡ 10
      → i_supported i ≡ true
      → Outcome ((kdd ++ (kvn ∷ 3 ∷ i ∷ [])) ++ rest)
  supported-Outcome kdd rest kvn i ten supported =
      let bytes : List ℕ = (kdd ++ (kvn ∷ 3 ∷ i ∷ [])) ++ rest in
      let expected : ℕ = 13 + 2 * field_len (from_i i) + (if is_pseudo i then 3 else 0) in
      elim (Bool-cases (length bytes == expected)) [
        | inl right ↦ right_length kdd rest kvn i ten supported (
            fields i rest (
              omega (
                arith,
                length-append (kdd ++ (kvn ∷ 3 ∷ i ∷ [])) rest,
                length-append kdd (kvn ∷ 3 ∷ i ∷ []),
                (==_iff (length bytes) expected).0 right,
                ten,
              )))
        | inr wrong ↦
            inr
              (inl (parse_prefix kdd rest kvn 3 i ten ∙ rw supported (wrong_length bytes i wrong)))
      ]

  layout-Outcome :
      (kdd rest : List ℕ) (kvn scp_id i : ℕ)
      → length kdd ≡ 10
      → Outcome ((kdd ++ (kvn ∷ scp_id ∷ i ∷ [])) ++ rest)
  layout-Outcome kdd rest kvn scp_id i ten = elim (Bool-cases (scp_id == 3)) [
    | inl three ↦ elim (Bool-cases (i_supported i)) [
      | inl supported ↦
          rw ((==_iff scp_id 3).0 three) (supported-Outcome kdd rest kvn i ten supported)
      | inr unsupported ↦
          inr (inr (parse_prefix kdd rest kvn scp_id i ten ∙ rw (three, unsupported) refl))
    ]
    | inr other ↦ inr (inl (parse_prefix kdd rest kvn scp_id i ten ∙ rw other refl))
  ]

  outcome : (bytes : List ℕ) → Outcome bytes
  outcome bytes = elim (Bool-cases (ltb (length bytes) 13)) [
    | inl short ↦ inr (inl (too_short bytes short))
    | inr long ↦ at_layout (layout bytes (ground arith))
  ]
    where
      at_layout : Layout bytes → Outcome bytes
      at_layout (kdd, kvn, scp_id, i, rest, ten, e) =
          rw e (layout-Outcome kdd rest kvn scp_id i ten)

  -- `parse_iu_response` accepts exactly ten octets of key diversification data, the key version
  -- number, the octet 3, an `i` parameter in scope, a challenge and a cryptogram of the length that
  -- `i` asks for (8 or 16), and a sequence counter of three octets if and only if `i` announces
  -- pseudo-random challenges; and it returns these fields.
  pub parse_iu_response_iff :
      (bytes : List ℕ) (r : IuResponse)
      → (parse_iu_response bytes ≡ ok r)
        ↔ ((kdd : List ℕ) × (length kdd ≡ 10) × IsIuResponse r × (bytes ≡ iu_octets kdd r))
  parse_iu_response_iff bytes r = (accepted (outcome bytes), back)
    where
      back :
          ((kdd : List ℕ) × (length kdd ≡ 10) × IsIuResponse r × (bytes ≡ iu_octets kdd r))
          → parse_iu_response bytes ≡ ok r
      back (kdd, ten, right, e) = rw e (parse_octets kdd r ten right)

      accepted :
          Outcome bytes
          → parse_iu_response bytes ≡ ok r
          → (kdd : List ℕ) × (length kdd ≡ 10) × IsIuResponse r × (bytes ≡ iu_octets kdd r)
      accepted (inr (inl e)) h = absurd (cc (e, h))
      accepted (inr (inr e)) h = absurd (cc (e, h))
      accepted (inl (kdd, r', ten, right, e)) h =
          let made : parse_iu_response bytes ≡ ok r' = rw e (parse_octets kdd r' ten right) in
          let same : r' ≡ r = cc (made, h) in
          (kdd, ten, rw (sym same) right, e ∙ ap (iu_octets kdd) same)

  -- Every octet string is accepted by `parse_iu_response` as some response, or refused with
  -- `ScpProtocolUnsupported` or `NoCommonSecurityLevel`: no index or slice is out of range.
  pub parse_iu_response_total :
      (bytes : List ℕ)
      → ((r : IuResponse) × (parse_iu_response bytes ≡ ok r))
        ⊎ (parse_iu_response bytes ≡ err ScllError.scp_protocol_unsupported)
        ⊎ (parse_iu_response bytes ≡ err ScllError.no_common_security_level)
  parse_iu_response_total bytes = ended (outcome bytes)
    where
      ended :
          Outcome bytes
          → ((r : IuResponse) × (parse_iu_response bytes ≡ ok r))
            ⊎ (parse_iu_response bytes ≡ err ScllError.scp_protocol_unsupported)
            ⊎ (parse_iu_response bytes ≡ err ScllError.no_common_security_level)
      ended (inl (kdd, r, ten, right, e)) = inl (r, rw e (parse_octets kdd r ten right))
      ended (inr refused) = inr refused
