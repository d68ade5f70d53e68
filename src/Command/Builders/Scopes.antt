-- ===== src/Command/Builders/Scopes.antt =====
-- What a card reads from the commands of the builders: the header, and a data field of BER-TLV
-- objects that `parse` of crates/scll-core/src/tlv.rs reads back.
use scll_rust.Prelude.{
  Bool-cases, leb→le, ℕ, ◌+◌, ◌/◌, ◌*◌, ◌%◌, ◌≤◌, ◌<◌, ◌≡◌, refl, List, [], ◌∷◌, ◌++◌, Bool, true,
  false, ◌&&◌, length, leb, if◌then◌else◌, Result, ok, err, ◌>>=◌, Option, none, some, arith, ◌⊎◌,
  inl, inr,
}
use scll_rust.Prelude.Bits.{IsByte, IsBytes}
use scll_rust.Prelude.Heapless.{Heapless}
use scll_rust.Tlv.{Tlv, parse}
use scll_rust.Tlv.Grammar.{done}
use scll_rust.Tlv.Parse.{parse_iff}
use scll_rust.Tlv.Short.{Objects-short, parse_short}
use scll_rust.Command.{BuildError, overflow, empty_key_scope, push, push_lv, build}
use scll_rust.Command.Apdu.{Apdu, octets, read_apdu}
use scll_rust.Command.Frame.{
  command, push_lem, push_lv_lem, build_lem, read_apdu-octets, length-octets,
}
use scll_rust.Command.Builders.{
  is_none, select_by_aid, get_data, load_block, set_card_status, p2_first_tlv, p2_next_tlv,
  get_status_p2, get_status, delete_object, push_key_tag, delete_key, begin_rmac_session,
  end_rmac_session,
}

-- `made` is a command that a card reads as `a`, and it fits a `Capdu`.
abbrev pub Reads : Result BuildError (List ℕ) → Apdu → Type 0
Reads made a = (apdu : List ℕ) × (made ≡ ok apdu) × (read_apdu apdu ≡ some a) × (length apdu ≤ 261)

-- The objects that scope a DELETE of keys, and their octets.
unfoldable pub key_objects : Option ℕ → Option ℕ → List Tlv
key_objects kid kvn = object_for 0xD0 kid ++ object_for 0xD2 kvn
  where
    object_for : ℕ → Option ℕ → List Tlv
    object_for tag none = []
    object_for tag (some v) = record { tag = tag; value = v ∷ [] } ∷ []

unfoldable pub key_octets : Option ℕ → Option ℕ → List ℕ
key_octets kid kvn = octets_for 0xD0 kid ++ octets_for 0xD2 kvn
  where
    octets_for : ℕ → Option ℕ → List ℕ
    octets_for tag none = []
    octets_for tag (some v) = tag ∷ 1 ∷ v ∷ []

-- What an optional value is, if it is there, has the property.
abbrev pub AllSome : (ℕ → Type 0) → Option ℕ → Type 0
AllSome P none = Unit {0}
AllSome P (some v) = P v

module _ ⦃hl : Heapless⦄ where
  -- A command built from at most 255 octets of data is read by a card as the header, the data and
  -- the `Le` that it was built from, and it is at most 261 octets long.
  pub build-Reads :
      (cla ins p1 p2 : ℕ) (body : List ℕ) (le : Bool)
      → length body ≤ 255
      → Reads (build cla ins p1 p2 body le) (command cla ins p1 p2 body le)
  build-Reads cla ins p1 p2 body le h = (
    octets (command cla ins p1 p2 body le),
    ground (arith, build_lem cla ins p1 p2 body le),
    read_apdu-octets cla ins p1 p2 body le h,
    length-octets cla ins p1 p2 body le h,
  )

  -- `push(&mut data, &[tag])?; push_lv(&mut data, bytes)?`, and what follows.
  after_field :
      (tag : ℕ) (bytes : List ℕ) (k : List ℕ → Result BuildError (List ℕ))
      → length bytes ≤ 253
      → (push [] (tag ∷ []) >>= λ field. push_lv field bytes >>= k) ≡ k (tag ∷ length bytes ∷ bytes)
  after_field tag bytes k h = ground (arith, push_lem [] (tag ∷ []), push_lv_lem (tag ∷ []) bytes)

  -- For an AID of fewer than 128 octets, DELETE of an object is read by a card as P1 = 0, P2 = 0x80
  -- exactly for a cascading delete, `Le` 0, and data that are the tag '4F', the length and the AID.
  pub delete_object_framed :
      (aid : List ℕ) (cascade : Bool)
      → length aid < 128
      → Reads
          (delete_object aid cascade)
          (command 0x84 0xE4 0x00 (if cascade then 0x80 else 0x00) (0x4F ∷ length aid ∷ aid) true)
  unfolding delete_object
  delete_object_framed aid cascade h =
      rw
        (after_field 0x4F aid (λ d. build 0x84 0xE4 0x00 (if cascade then 0x80 else 0x00) d true)
          (omega arith))
        (build-Reads 0x84 0xE4 0x00 (if cascade then 0x80 else 0x00) (0x4F ∷ length aid ∷ aid) true
          (omega arith))

  -- And `parse` reads these data as the one object with the AID.
  pub delete_object-Reads :
      (aid : List ℕ) (cascade : Bool)
      → IsBytes aid
      → length aid < 128
      → Reads
          (delete_object aid cascade)
          (command 0x84 0xE4 0x00 (if cascade then 0x80 else 0x00) (0x4F ∷ length aid ∷ aid) true)
        × (parse (0x4F ∷ length aid ∷ aid) ≡ ok (record { tag = 0x4F; value = aid } ∷ []))
  delete_object-Reads aid cascade hb h =
      (delete_object_framed aid cascade h, parse_short 0x4F aid (omega arith) hb (omega arith) h)

  -- For an AID of fewer than 128 octets, GET STATUS is read by a card with the given P1, P2 = 2 for
  -- a first request, `Le` 0, and data that `parse` reads as the one object '4F' with the AID; the
  -- request for the next part differs in P2 = 3 alone.
  pub get_status-Reads :
      (p1 : ℕ) (aid : List ℕ)
      → IsBytes aid
      → length aid < 128
      → Reads (get_status p1 aid) (command 0x80 0xF2 p1 p2_first_tlv (0x4F ∷ length aid ∷ aid) true)
        × Reads
            (get_status_p2 p1 p2_next_tlv aid)
            (command 0x80 0xF2 p1 p2_next_tlv (0x4F ∷ length aid ∷ aid) true)
        × (parse (0x4F ∷ length aid ∷ aid) ≡ ok (record { tag = 0x4F; value = aid } ∷ []))
  unfolding get_status get_status_p2
  get_status-Reads p1 aid hb h = (
    rw (after_field 0x4F aid (λ d. build 0x80 0xF2 p1 p2_first_tlv d true) (omega arith))
        (build-Reads 0x80 0xF2 p1 p2_first_tlv (0x4F ∷ length aid ∷ aid) true (omega arith)),
    rw (after_field 0x4F aid (λ d. build 0x80 0xF2 p1 p2_next_tlv d true) (omega arith))
        (build-Reads 0x80 0xF2 p1 p2_next_tlv (0x4F ∷ length aid ∷ aid) true (omega arith)),
    parse_short 0x4F aid (omega arith) hb (omega arith) h,
  )

  begin_short :
      (b : ℕ) (bs : List ℕ)
      → length (b ∷ bs) ≤ 24
      → Reads
          (begin_rmac_session (b ∷ bs))
          (command 0x80 0x7A 0x10 0x00 (length (b ∷ bs) ∷ b ∷ bs) true)
  unfolding begin_rmac_session
  begin_short b bs small =
      let built : begin_rmac_session (b ∷ bs)
          ≡ build 0x80 0x7A 0x10 0x00 (length (b ∷ bs) ∷ b ∷ bs) true =
        ground (arith, push_lv_lem [] (b ∷ bs)) in
      rw built (build-Reads 0x80 0x7A 0x10 0x00 (length (b ∷ bs) ∷ b ∷ bs) true (omega arith))

  -- BEGIN R-MAC SESSION takes 1 to 24 octets: a card then reads them behind their length, with
  -- P1 = 0x10 and `Le` 0. Any other number is refused with `Overflow`.
  pub begin_rmac_session-Reads :
      (bytes : List ℕ)
      → ((1 ≤ length bytes)
          × (length bytes ≤ 24)
          × Reads
              (begin_rmac_session bytes)
              (command 0x80 0x7A 0x10 0x00 (length bytes ∷ bytes) true))
        ⊎ (((length bytes ≡ 0) ⊎ (24 < length bytes)) × (begin_rmac_session bytes ≡ err overflow))
  unfolding begin_rmac_session
  begin_rmac_session-Reads [] = inr (inl refl, refl)
  begin_rmac_session-Reads (b ∷ bs) = elim (Bool-cases (leb (length (b ∷ bs)) 24)) [
    | inl small ↦ inl (omega arith, leb→le _ _ small, begin_short b bs (leb→le _ _ small))
    | inr large ↦ inr (inr (ground arith), ground arith)
  ]

  -- DELETE of keys refuses an empty scope with `EmptyKeyScope`, and else is read by a card with
  -- P1 = P2 = 0, `Le` 0, and data that `parse` reads as the object 'D0' with the key identifier,
  -- if one is given, and then the object 'D2' with the key version number, if one is given.
  pub delete_key-Reads :
      (kid kvn : Option ℕ)
      → AllSome IsByte kid
      → AllSome IsByte kvn
      → (kid ≡ none × kvn ≡ none × delete_key kid kvn ≡ err empty_key_scope)
        ⊎ ((is_none kid && is_none kvn ≡ false)
            × Reads (delete_key kid kvn) (command 0x84 0xE4 0x00 0x00 (key_octets kid kvn) true)
            × (parse (key_octets kid kvn) ≡ ok (key_objects kid kvn)))
  unfolding delete_key push_key_tag key_octets key_objects
  delete_key-Reads none none hi hv = inl (refl, refl, refl)
  delete_key-Reads (some i) none hi hv = inr (
    refl,
    rw (push_lem [] (0xD0 ∷ 1 ∷ i ∷ [])) (build-Reads 0x84 0xE4 0x00 0x00 _ true (omega arith)),
    parse_short 0xD0 (i ∷ []) (omega arith) (hi, tt) (omega arith) (omega arith),
  )
  delete_key-Reads none (some v) hi hv = inr (
    refl,
    rw (push_lem [] (0xD2 ∷ 1 ∷ v ∷ [])) (build-Reads 0x84 0xE4 0x00 0x00 _ true (omega arith)),
    parse_short 0xD2 (v ∷ []) (omega arith) (hv, tt) (omega arith) (omega arith),
  )
  delete_key-Reads (some i) (some v) hi hv = inr (
    refl,
    rw (push_lem [] (0xD0 ∷ 1 ∷ i ∷ []), push_lem (0xD0 ∷ 1 ∷ i ∷ []) (0xD2 ∷ 1 ∷ v ∷ []))
        (build-Reads 0x84 0xE4 0x00 0x00 (0xD0 ∷ 1 ∷ i ∷ 0xD2 ∷ 1 ∷ v ∷ []) true (omega arith)),
    (parse_iff (0xD0 ∷ 1 ∷ i ∷ 0xD2 ∷ 1 ∷ v ∷ []) _
          (omega arith, (omega arith, (hi, (omega arith, (omega arith, (hv, tt))))))).1
        (
          Objects-short 0xD0 (i ∷ []) (0xD2 ∷ 1 ∷ v ∷ []) (omega arith) (omega arith)
              (Objects-short 0xD2 (v ∷ []) [] (omega arith) (omega arith) done),
          omega arith,
        ),
  )

  -- GET DATA for a 16-bit tag is read by a card with the two octets of the tag as P1 and P2, no data
  -- and `Le` 0.
  pub get_data-Reads :
      (tag_p1p2 : ℕ)
      → tag_p1p2 < 65536
      → (p1 : ℕ) × (p2 : ℕ) × Reads (get_data tag_p1p2) (command 0x80 0xCA p1 p2 [] true)
        × (p1 < 256)
        × (p2 < 256)
        × (p1 * 256 + p2 ≡ tag_p1p2)
  unfolding get_data
  get_data-Reads t h = (
    t / 256 % 256,
    t % 256,
    build-Reads 0x80 0xCA (t / 256 % 256) (t % 256) [] true (omega arith),
    omega arith,
    omega arith,
    omega arith,
  )

  -- SELECT, LOAD and SET STATUS with at most 255 octets are read by a card with these octets as the
  -- data: SELECT by name with `Le` 0; LOAD with the block number in P2, the top bit of P1 for the
  -- last block, and `Le` 0; SET STATUS of the card with the state in P2 and no `Le`.
  pub select_by_aid-load_block-set_card_status :
      (bytes : List ℕ) (block_no state : ℕ) (last : Bool)
      → length bytes ≤ 255
      → Reads (select_by_aid bytes) (command 0x00 0xA4 0x04 0x00 bytes true)
        × Reads
            (load_block block_no last bytes)
            (command 0x84 0xE8 (if last then 0x80 else 0x00) block_no bytes true)
        × Reads (set_card_status state bytes) (command 0x84 0xF0 0x80 state bytes false)
  unfolding select_by_aid load_block set_card_status
  select_by_aid-load_block-set_card_status bytes block_no state last h = (
    build-Reads 0x00 0xA4 0x04 0x00 bytes true h,
    build-Reads 0x84 0xE8 (if last then 0x80 else 0x00) block_no bytes true h,
    build-Reads 0x84 0xF0 0x80 state bytes false h,
  )

  -- END R-MAC SESSION is read by a card without data and with `Le` 0, and with P2 = 3 to end the
  -- session, else 1.
  pub end_rmac_session-read :
      (end_session : Bool)
      → read_apdu (end_rmac_session end_session)
        ≡ some (command 0x80 0x78 0x00 (if end_session then 0x03 else 0x01) [] true)
  unfolding end_rmac_session read_apdu
  end_rmac_session-read true =
      ground (arith, hl.extend_lem ℕ 261 [] (0x80 ∷ 0x78 ∷ 0x00 ∷ 0x03 ∷ 0x00 ∷ []))
  end_rmac_session-read false =
      ground (arith, hl.extend_lem ℕ 261 [] (0x80 ∷ 0x78 ∷ 0x00 ∷ 0x01 ∷ 0x00 ∷ []))
