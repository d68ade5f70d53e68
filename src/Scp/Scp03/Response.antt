-- ===== src/Scp/Scp03/Response.antt =====
-- The response to INITIALIZE UPDATE as crates/scll-core/src/scp/scp03.rs parses it.
use scll_rust.Prelude.{
  ℕ, ◌+◌, ◌*◌, ◌≤◌, ◌≡◌, refl, sym, ◌∙◌, List, [], ◌∷◌, ◌++◌, Bool, true, false, not, ◌==◌,
  if◌then◌else◌, Option, none, some, ok, err, arith, length, get_elem?, bit_and, length-append,
}
use mathlib.Core.List.{append_assoc, append-nil}
use scll_rust.Prelude.Slices.{slice, slice_at, index_at, get_elem?-append, get_elem?-append_left}
use scll_rust.Prelude.Heapless.{Heapless}
use scll_rust.Error.{ScllError}
use scll_rust.Scp.{i_pseudo_random, i_supported}
use scll_rust.Scp.Backend.{ScpMode, s8, s16, from_i, field_len}
use scll_rust.Scp.Scp03.{IuResponse, field_vec, parse_seq, parse_fields, parse_iu_response}

abbrev pub is_pseudo : ℕ → Bool
is_pseudo i = not (bit_and i i_pseudo_random == 0)

abbrev pub seq_octets : Option (List ℕ) → List ℕ
seq_octets none = []
seq_octets (some sc) = sc

-- The response for the given key diversification data (Amendment D, table 7-4).
unfoldable pub iu_octets : List ℕ → IuResponse → List ℕ
iu_octets kdd r =
    (kdd ++ (r.kvn ∷ 0x03 ∷ r.i_param ∷ []))
    ++ (r.card_challenge ++ (r.card_cryptogram ++ seq_octets r.sequence_counter))

-- A sequence counter is there exactly for pseudo-random challenges, and has three octets.
abbrev pub SeqFits : Bool → Option (List ℕ) → Type 0
SeqFits true (some sc) = length sc ≡ 3
SeqFits false none = Unit {0}
SeqFits _ _ = ⊥

abbrev pub IsIuResponse : IuResponse → Type 0
IsIuResponse r =
    (i_supported r.i_param ≡ true)
    × (r.mode ≡ from_i r.i_param)
    × (length r.card_challenge ≡ field_len r.mode)
    × (length r.card_cryptogram ≡ field_len r.mode)
    × SeqFits (is_pseudo r.i_param) r.sequence_counter

field_len_bound : (m : ScpMode) → field_len m ≤ 16
field_len_bound s8 = omega arith
field_len_bound s16 = omega arith

module _ ⦃hl : Heapless⦄ where
  field_vec_lem : (src : List ℕ) (m : ScpMode) → length src ≡ field_len m → field_vec src ≡ ok src
  unfolding field_vec
  field_vec_lem src m h = ground (arith, hl.extend_lem ℕ 16 [] src, field_len_bound m)

  module _ (front ch cr : List ℕ) (i kvn : ℕ) (sq : Option (List ℕ)) (prefix : length front ≡ 13)
      (kvn_there : get_elem? front 10 ≡ some kvn) (ch_len : length ch ≡ field_len (from_i i))
      (cr_len : length cr ≡ field_len (from_i i)) (seq_fits : SeqFits (is_pseudo i) sq) where
    abbrev whole : List ℕ
    whole = front ++ (ch ++ (cr ++ seq_octets sq))

    seq_length : length (seq_octets sq) ≡ (if is_pseudo i then 3 else 0)
    seq_length = counted (is_pseudo i) sq seq_fits
      where
        counted :
            (p : Bool) (s : Option (List ℕ))
            → SeqFits p s
            → length (seq_octets s) ≡ (if p then 3 else 0)
        counted true (some sc) h = h
        counted true none h = absurd h
        counted false none h = refl
        counted false (some sc) h = absurd h

    length-whole : length whole ≡ 13 + 2 * field_len (from_i i) + (if is_pseudo i then 3 else 0)
    length-whole = omega (
      arith,
      length-append front (ch ++ (cr ++ seq_octets sq)),
      length-append ch (cr ++ seq_octets sq),
      length-append cr (seq_octets sq),
      seq_length,
      prefix,
      ch_len,
      cr_len,
    )

    challenge_slice : slice {E = ScllError} whole 13 (13 + field_len (from_i i)) ≡ ok ch
    challenge_slice =
        slice_at whole front ch (cr ++ seq_octets sq) _ _ refl (sym prefix) (omega (arith, ch_len))

    cryptogram_slice :
        slice {E = ScllError} whole
          (13 + field_len (from_i i))
          (13 + field_len (from_i i) + field_len (from_i i))
        ≡ ok cr
    cryptogram_slice =
        slice_at whole (front ++ ch) cr (seq_octets sq) _ _
          (sym (append_assoc front ch (cr ++ seq_octets sq)))
          (omega (arith, length-append front ch, prefix, ch_len)) (omega (arith, cr_len))

    parse_seq_lem :
        parse_seq whole (is_pseudo i) (13 + field_len (from_i i) + field_len (from_i i)) ≡ ok sq
    unfolding parse_seq
    parse_seq_lem = counter (is_pseudo i) sq seq_fits refl
      where
        counter :
            (p : Bool) (s : Option (List ℕ))
            → SeqFits p s
            → sq ≡ s
            → parse_seq whole p (13 + field_len (from_i i) + field_len (from_i i)) ≡ ok s
        counter true (some sc) h e =
            let last : whole ≡ ((front ++ ch) ++ cr) ++ (sc ++ []) =
              rw
                (
                  e,
                  append-nil sc,
                  append_assoc (front ++ ch) cr sc,
                  append_assoc front ch (cr ++ sc),
                )
                refl in
            rw
              (slice_at {E = ScllError} whole ((front ++ ch) ++ cr) sc []
                (13 + field_len (from_i i) + field_len (from_i i))
                (13 + field_len (from_i i) + field_len (from_i i) + 3) last
                (omega (
                  arith,
                  length-append (front ++ ch) cr,
                  length-append front ch,
                  prefix,
                  ch_len,
                  cr_len,
                ))
                (omega (arith, h)))
              refl
        counter true none h e = absurd h
        counter false none h e = refl
        counter false (some sc) h e = absurd h

    parse_fields_lem :
        parse_fields whole i
        ≡ ok (record {
          kvn = kvn;
          i_param = i;
          mode = from_i i;
          card_challenge = ch;
          card_cryptogram = cr;
          sequence_counter = sq;
        })
    unfolding parse_fields
    parse_fields_lem = ground (
      arith,
      length-whole,
      challenge_slice,
      field_vec_lem ch (from_i i) ch_len,
      cryptogram_slice,
      field_vec_lem cr (from_i i) cr_len,
      parse_seq_lem,
      index_at {E = ScllError} whole 10 kvn
          (get_elem?-append_left front (ch ++ (cr ++ seq_octets sq)) 10 kvn kvn_there),
    )

  -- `parse_iu_response` up to the call of `parse_fields`.
  pub parse_prefix :
      (kdd rest : List ℕ) (kvn scp_id i : ℕ)
      → length kdd ≡ 10
      → let bytes : List ℕ = (kdd ++ (kvn ∷ scp_id ∷ i ∷ [])) ++ rest in
        parse_iu_response bytes ≡ (
          if scp_id == 3
          then (if i_supported i
              then parse_fields bytes i
              else err ScllError.no_common_security_level)
          else err ScllError.scp_protocol_unsupported)
  unfolding parse_iu_response
  parse_prefix kdd rest kvn scp_id i ten =
      let front : List ℕ = kdd ++ (kvn ∷ scp_id ∷ i ∷ []) in
      ground (
        arith,
        length-append front rest,
        length-append kdd (kvn ∷ scp_id ∷ i ∷ []),
        index_at {E = ScllError} (front ++ rest) 11 scp_id (
            get_elem?-append_left front rest 11 scp_id
              (get_elem?-append kdd (kvn ∷ scp_id ∷ i ∷ []) 11 1 (omega (arith, ten)))),
        index_at {E = ScllError} (front ++ rest) 12 i (
            get_elem?-append_left front rest 12 i
              (get_elem?-append kdd (kvn ∷ scp_id ∷ i ∷ []) 12 2 (omega (arith, ten)))),
      )

  -- The responses to INITIALIZE UPDATE are read as what they carry.
  pub parse_octets :
      (kdd : List ℕ) (r : IuResponse)
      → length kdd ≡ 10
      → IsIuResponse r
      → parse_iu_response (iu_octets kdd r) ≡ ok r
  unfolding iu_octets
  parse_octets kdd r ten (supported, mode, ch_len, cr_len, fits) =
      let tail : List ℕ =
        r.card_challenge ++ (r.card_cryptogram ++ seq_octets r.sequence_counter) in
      let front : List ℕ = kdd ++ (r.kvn ∷ 3 ∷ r.i_param ∷ []) in
      let fields =
        parse_fields_lem front r.card_challenge r.card_cryptogram r.i_param r.kvn r.sequence_counter
          (omega (arith, length-append kdd (r.kvn ∷ 3 ∷ r.i_param ∷ []), ten))
          (get_elem?-append kdd (r.kvn ∷ 3 ∷ r.i_param ∷ []) 10 0 (omega (arith, ten)))
          (rw (sym mode) ch_len) (rw (sym mode) cr_len) fits in
      parse_prefix kdd tail r.kvn 3 r.i_param ten ∙ rw (supported) (fields ∙ rw (sym mode) refl)
