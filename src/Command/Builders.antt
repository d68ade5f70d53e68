-- ===== src/Command/Builders.antt =====
-- The builders of crates/scll-core/src/command/{select, get_data, load, set_status, get_status,
-- delete, rmac_session}.rs. `Scopes` shows what a card reads from their commands.
pub mod Scopes
use scll_rust.Prelude.{
  ℕ, ◌/◌, ◌%◌, List, [], ◌∷◌, Bool, true, false, ◌&&◌, ◌||◌, length, is_empty, ltb, if◌then◌else◌,
  Result, ok, err, stuck, ◌>>=◌, ◌>>◌, reject_if, Option, none, some,
}
use scll_rust.Prelude.Heapless.{Heapless}
use scll_rust.Command.{BuildError, overflow, empty_key_scope, capdu_max, push, push_lv, build}

abbrev pub p2_first_tlv : ℕ
p2_first_tlv = 0x02

abbrev pub p2_next_tlv : ℕ
p2_next_tlv = 0x03

abbrev pub is_none {ℓ} : {A : Type ℓ} → Option A → Bool
is_none none = true
is_none (some a) = false

module _ ⦃hl : Heapless⦄ where
  unfoldable pub select_by_aid : List ℕ → Result BuildError (List ℕ)
  select_by_aid aid = build 0x00 0xA4 0x04 0x00 aid true

  -- `tag_p1p2` is a `u16`.
  unfoldable pub get_data : ℕ → Result BuildError (List ℕ)
  get_data tag_p1p2 = build 0x80 0xCA (tag_p1p2 / 256 % 256) (tag_p1p2 % 256) [] true

  unfoldable pub load_block : ℕ → Bool → List ℕ → Result BuildError (List ℕ)
  load_block block_no last chunk = build 0x84 0xE8 (if last then 0x80 else 0x00) block_no chunk true

  unfoldable pub set_card_status : ℕ → List ℕ → Result BuildError (List ℕ)
  set_card_status p2_state isd_aid = build 0x84 0xF0 0x80 p2_state isd_aid false

  unfoldable pub get_status_p2 : ℕ → ℕ → List ℕ → Result BuildError (List ℕ)
  get_status_p2 p1 p2 aid_qualifier = do
    field ← push [] (0x4F ∷ [])
    field' ← push_lv field aid_qualifier
    build 0x80 0xF2 p1 p2 field' true

  unfoldable pub get_status : ℕ → List ℕ → Result BuildError (List ℕ)
  unfolding get_status_p2
  get_status p1 aid_qualifier = get_status_p2 p1 p2_first_tlv aid_qualifier

  unfoldable pub delete_object : List ℕ → Bool → Result BuildError (List ℕ)
  delete_object aid cascade = do
    field ← push [] (0x4F ∷ [])
    field' ← push_lv field aid
    build 0x84 0xE4 0x00 (if cascade then 0x80 else 0x00) field' true

  -- `if let Some(v) = value { push(&mut data, &[tag, 0x01, v])?; }`
  unfoldable pub push_key_tag : List ℕ → ℕ → Option ℕ → Result BuildError (List ℕ)
  push_key_tag field tag none = ok field
  push_key_tag field tag (some v) = push field (tag ∷ 0x01 ∷ v ∷ [])

  unfoldable pub delete_key : Option ℕ → Option ℕ → Result BuildError (List ℕ)
  delete_key kid kvn = do
    reject_if (is_none kid && is_none kvn) empty_key_scope
    field ← push_key_tag [] 0xD0 kid
    field' ← push_key_tag field 0xD2 kvn
    build 0x84 0xE4 0x00 0x00 field' true

  unfoldable pub begin_rmac_session : List ℕ → Result BuildError (List ℕ)
  begin_rmac_session bytes = do
    reject_if (is_empty bytes || ltb 24 (length bytes)) overflow
    field ← push_lv [] bytes
    build 0x80 0x7A 0x10 0x00 field true

  -- The result of the one `extend_from_slice` is dropped: a failure would leave the vector empty.
  unfoldable pub end_rmac_session : Bool → List ℕ
  end_rmac_session end_session =
      let p2 = if end_session then 0x03 else 0x01 in
      elim (hl.extend capdu_max [] (0x80 ∷ 0x78 ∷ 0x00 ∷ p2 ∷ 0x00 ∷ [])) [
        | some apdu ↦ apdu
        | none ↦ []
      ]
