-- ===== src/Scp/Scp02/Exact.antt =====
-- The response to INITIALIZE UPDATE, and the security level, in crates/scll-core/src/scp/scp02.rs.
use scll_rust.Prelude.{
  ℕ, ◌+◌, ◌*◌, ◌/◌, ◌%◌, ◌≡◌, ◌↔◌, ◌⊎◌, inl, inr, refl, sym, ap, ◌∙◌, List, [], ◌∷◌, ◌++◌, false,
  ◌||◌, ◌==◌, ==_iff, if◌then◌else◌, ok, err, arith, length, take, drop, bit_and, length-append,
  Bool-cases, take-append-drop, length-take, length-drop,
}
use mathlib.Core.List.{append_assoc, append-nil}
use scll_rust.Prelude.Bits.{IsByte, passes, agree_on_bytes}
use scll_rust.Prelude.Slices.{slice_at, index_at, get_elem?-append, get_elem?-append_left}
use scll_rust.Error.{ScllError}
use scll_rust.Scp.Scp02.{IuResponse, cap_security_level, parse_iu_response}

-- The requested level less what SCP02 does not offer: C-MAC and C-DECRYPTION (1 and 2) stay, and
-- R-MAC (16) stays for the `i` parameters 0x15 and 0x55.
abbrev pub offered02 : ℕ → ℕ → ℕ
offered02 i requested =
    requested % 4 + (if i == 0x15 || i == 0x55 then requested / 16 % 2 * 16 else 0)

mask_none : (r : ℕ) → IsByte r → bit_and r 0x03 ≡ r % 4
unfolding passes
mask_none = agree_on_bytes _ _ refl

mask_rmac : (r : ℕ) → IsByte r → bit_and r 0x13 ≡ r % 4 + r / 16 % 2 * 16
unfolding passes
mask_rmac = agree_on_bytes _ _ refl

-- SCP02's `cap_security_level` returns the requested level less what the card does not offer, and
-- `NoCommonSecurityLevel` exactly if nothing is left of it.
pub cap_security_level-offered02 :
    (i requested : ℕ)
    → IsByte requested
    → cap_security_level i requested ≡ (
        if offered02 i requested == 0
        then err ScllError.no_common_security_level
        else ok (offered02 i requested))
unfolding cap_security_level
cap_security_level-offered02 i r hr = ground (arith, mask_none r hr, mask_rmac r hr)

-- The response for the given key diversification data (GPCS, table E-12).
unfoldable pub iu_octets : List ℕ → IuResponse → List ℕ
iu_octets kdd r =
    (kdd ++ (r.kvn ∷ 0x02 ∷ [])) ++ (r.seq_counter ++ (r.card_challenge ++ r.card_cryptogram))

abbrev pub IsIuResponse : IuResponse → Type 0
IsIuResponse r =
    (length r.seq_counter ≡ 2) × (length r.card_challenge ≡ 6) × (length r.card_cryptogram ≡ 8)

module _ (kdd seq ch cr : List ℕ) (kvn scp_id : ℕ) where
  abbrev front : List ℕ
  front = kdd ++ (kvn ∷ scp_id ∷ [])

  abbrev whole : List ℕ
  whole = front ++ (seq ++ (ch ++ cr))

  parse_layout :
      length kdd ≡ 10
      → length seq ≡ 2
      → length ch ≡ 6
      → length cr ≡ 8
      → parse_iu_response whole ≡ (
          if scp_id == 2
          then ok
              (record { kvn = kvn; seq_counter = seq; card_challenge = ch; card_cryptogram = cr })
          else err ScllError.scp_protocol_unsupported)
  unfolding parse_iu_response
  parse_layout ten two six eight =
      let last : whole ≡ ((front ++ seq) ++ ch) ++ (cr ++ []) =
        rw (append-nil cr, append_assoc (front ++ seq) ch cr, append_assoc front seq (ch ++ cr))
          refl in
      ground (
        arith,
        length-append front (seq ++ (ch ++ cr)),
        length-append kdd (kvn ∷ scp_id ∷ []),
        length-append seq (ch ++ cr),
        length-append ch cr,
        index_at {E = ScllError} whole 10 kvn (
            get_elem?-append_left front (seq ++ (ch ++ cr)) 10 kvn
              (get_elem?-append kdd (kvn ∷ scp_id ∷ []) 10 0 (omega (arith, ten)))),
        index_at {E = ScllError} whole 11 scp_id (
            get_elem?-append_left front (seq ++ (ch ++ cr)) 11 scp_id
              (get_elem?-append kdd (kvn ∷ scp_id ∷ []) 11 1 (omega (arith, ten)))),
        slice_at {E = ScllError} whole front seq (ch ++ cr) 12 14 refl
            (omega (arith, length-append kdd (kvn ∷ scp_id ∷ []), ten)) (omega (arith, two)),
        slice_at {E = ScllError} whole (front ++ seq) ch cr 14 20
            (sym (append_assoc front seq (ch ++ cr)))
            (omega
              (arith, length-append front seq, length-append kdd (kvn ∷ scp_id ∷ []), ten, two))
            (omega (arith, six)),
        slice_at {E = ScllError} whole ((front ++ seq) ++ ch) cr [] 20 28 last
            (omega (
              arith,
              length-append (front ++ seq) ch,
              length-append front seq,
              length-append kdd (kvn ∷ scp_id ∷ []),
              ten,
              two,
              six,
            ))
            (omega (arith, eight)),
      )

parse_octets :
    (kdd : List ℕ) (r : IuResponse)
    → length kdd ≡ 10
    → IsIuResponse r
    → parse_iu_response (iu_octets kdd r) ≡ ok r
unfolding iu_octets
parse_octets kdd r ten (two, six, eight) =
    parse_layout kdd r.seq_counter r.card_challenge r.card_cryptogram r.kvn 2 ten two six eight

wrong_length :
    (bytes : List ℕ)
    → (length bytes == 28) ≡ false
    → parse_iu_response bytes ≡ err ScllError.scp_protocol_unsupported
unfolding parse_iu_response
wrong_length bytes h = rw h refl

abbrev Outcome : List ℕ → Type 0
Outcome bytes =
    ((kdd : List ℕ) × (r : IuResponse) × (length kdd ≡ 10)
      × IsIuResponse r
      × (bytes ≡ iu_octets kdd r))
    ⊎ (parse_iu_response bytes ≡ err ScllError.scp_protocol_unsupported)

-- The parts of 28 octets.
abbrev Parts : List ℕ → Type 0
Parts bytes =
    (kdd : List ℕ) × (kvn : ℕ) × (scp_id : ℕ) × (seq : List ℕ) × (ch : List ℕ) × (cr : List ℕ)
    × (length kdd ≡ 10)
    × (length seq ≡ 2)
    × (length ch ≡ 6)
    × (length cr ≡ 8)
    × (bytes ≡ whole kdd seq ch cr kvn scp_id)

parts : (bytes : List ℕ) → length bytes ≡ 28 → Parts bytes
parts bytes h =
    two (drop 10 bytes) (omega (arith, length-drop 10 bytes, h)) (take-append-drop 10 bytes)
  where
    two : (tail : List ℕ) → length tail ≡ 18 → take 10 bytes ++ tail ≡ bytes → Parts bytes
    two [] n e = absurd (omega (arith, n))
    two (a ∷ []) n e = absurd (omega (arith, n))
    two (a ∷ c ∷ rest) n e = (
      take 10 bytes,
      a,
      c,
      take 2 rest,
      take 6 (drop 2 rest),
      drop 6 (drop 2 rest),
      omega (arith, length-take 10 bytes, h),
      omega (arith, length-take 2 rest, n),
      omega (arith, length-take 6 (drop 2 rest), length-drop 2 rest, n),
      omega (arith, length-drop 6 (drop 2 rest), length-drop 2 rest, n),
      rw
          (
            take-append-drop 6 (drop 2 rest),
            take-append-drop 2 rest,
            append_assoc (take 10 bytes) (a ∷ c ∷ []) rest,
          )
          (sym e),
    )

of_id :
    (kdd seq ch cr : List ℕ) (kvn scp_id : ℕ)
    → length kdd ≡ 10
    → length seq ≡ 2
    → length ch ≡ 6
    → length cr ≡ 8
    → Outcome (whole kdd seq ch cr kvn scp_id)
unfolding iu_octets
of_id kdd seq ch cr kvn scp_id ten two six eight = elim (Bool-cases (scp_id == 2)) [
  | inl same ↦ inl (
    kdd,
    record { kvn = kvn; seq_counter = seq; card_challenge = ch; card_cryptogram = cr },
    ten,
    (two, six, eight),
    rw ((==_iff scp_id 2).0 same) refl,
  )
  | inr other ↦ inr (parse_layout kdd seq ch cr kvn scp_id ten two six eight ∙ rw other refl)
]

outcome : (bytes : List ℕ) → Outcome bytes
outcome bytes = elim (Bool-cases (length bytes == 28)) [
  | inl right ↦ at_parts (parts bytes ((==_iff (length bytes) 28).0 right))
  | inr wrong ↦ inr (wrong_length bytes wrong)
]
  where
    at_parts : Parts bytes → Outcome bytes
    at_parts (kdd, kvn, scp_id, seq, ch, cr, ten, two, six, eight, e) =
        rw e (of_id kdd seq ch cr kvn scp_id ten two six eight)

-- SCP02's `parse_iu_response` accepts exactly 28 octets: ten of key diversification data, the key
-- version number, the octet 2, a sequence counter of two, a challenge of six and a cryptogram of
-- eight; and it returns these fields.
pub parse_iu_response-Exact :
    (bytes : List ℕ) (r : IuResponse)
    → (parse_iu_response bytes ≡ ok r)
      ↔ ((kdd : List ℕ) × (length kdd ≡ 10) × IsIuResponse r × (bytes ≡ iu_octets kdd r))
parse_iu_response-Exact bytes r = (accepted (outcome bytes), back)
  where
    back :
        ((kdd : List ℕ) × (length kdd ≡ 10) × IsIuResponse r × (bytes ≡ iu_octets kdd r))
        → parse_iu_response bytes ≡ ok r
    back (kdd, ten, right, e) = rw e (parse_octets kdd r ten right)

    accepted :
        Outcome bytes
        → parse_iu_response bytes ≡ ok r
        → (kdd : List ℕ) × (length kdd ≡ 10) × IsIuResponse r × (bytes ≡ iu_octets kdd r)
    accepted (inr refused) h = absurd (cc (refused, h))
    accepted (inl (kdd, r', ten, right, e)) h =
        let made : parse_iu_response bytes ≡ ok r' = rw e (parse_octets kdd r' ten right) in
        let same : r' ≡ r = cc (made, h) in
        (kdd, ten, rw (sym same) right, e ∙ ap (iu_octets kdd) same)

-- Every octet string is accepted by SCP02's `parse_iu_response` as some response, or refused with
-- `ScpProtocolUnsupported`: no index or slice is out of range.
pub parse_iu_response-total :
    (bytes : List ℕ)
    → ((r : IuResponse) × (parse_iu_response bytes ≡ ok r))
      ⊎ (parse_iu_response bytes ≡ err ScllError.scp_protocol_unsupported)
parse_iu_response-total bytes = ended (outcome bytes)
  where
    ended :
        Outcome bytes
        → ((r : IuResponse) × (parse_iu_response bytes ≡ ok r))
          ⊎ (parse_iu_response bytes ≡ err ScllError.scp_protocol_unsupported)
    ended (inl (kdd, r, ten, right, e)) = inl (r, rw e (parse_octets kdd r ten right))
    ended (inr refused) = inr refused
