-- ===== src/Session/Parts.antt =====
-- The parts of a response in crates/scll-core/src/workflow/session.rs: data and status word, and the
-- name of the application in the data of SELECT.
use scll_rust.Prelude.{
  ℕ, ◌+◌, ◌-◌, ◌*◌, List, [], ◌∷◌, length, is_empty, ltb, ◌==◌, if◌then◌else◌, Option, none, some,
  Result, ok, err, ok_or, map_err, ◌>>=◌,
}
use scll_rust.Prelude.Slices.{index, slice}
use scll_rust.Prelude.Heapless.{Heapless}
use scll_rust.Tlv.{Tlv, parse}
use scll_rust.Error.{ScllError}

-- limits.rs, `RAPDU_MAX`
abbrev pub rapdu_max : ℕ
rapdu_max = 258

-- `find` over the objects
unfoldable pub find : List Tlv → ℕ → Option (List ℕ)
find [] tag = none
find (t ∷ tlvs) tag = if t.tag == tag then some t.value else find tlvs tag

module _ ⦃hl : Heapless⦄ where
  -- `data.extend_from_slice` on a fresh vector of `RAPDU_MAX` octets.
  unfoldable pub split_sw : List ℕ → Result ScllError (List ℕ × ℕ)
  split_sw rapdu =
      let n = length rapdu in
      if ltb n 2
      then err (ScllError.card 0x0000)
      else index rapdu (n - 2) >>= λ sw1. index rapdu (n - 1) >>= λ sw2.
          slice rapdu 0 (n - 2) >>= λ front.
          ok_or (hl.extend rapdu_max [] front) (ScllError.card (sw1 * 256 + sw2)) >>= λ body.
          ok (body, sw1 * 256 + sw2)

  unfoldable pub fci_df_name : List ℕ → Result ScllError (Option (List ℕ))
  fci_df_name fci =
      if is_empty fci
      then ok none
      else map_err ScllError.malformed_response (parse fci) >>= λ top.
          in_template (find top 0x6F) top
    where
      in_template : Option (List ℕ) → List Tlv → Result ScllError (Option (List ℕ))
      in_template (some inner) top =
          map_err ScllError.malformed_response (parse inner) >>= λ parsed. ok (find parsed 0x84)
      in_template none top = ok (find top 0x84)
