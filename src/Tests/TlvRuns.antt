-- ===== src/Tests/TlvRuns.antt =====
-- Runs of crates/scll-core/src/tlv.rs on the vectors of its own tests, and the theorems on them.
use scll_rust.Prelude.{
  ℕ, zero, suc, ◌≤◌, ◌≡◌, ◌≢◌, refl, inl, ◌↔◌, List, [], ◌∷◌, length, ok, err, stuck, arith, All,
  replicate,
}
use scll_rust.Prelude.Bits.{IsBytes}
use scll_rust.Prelude.Heapless.{Heapless, plain}
use scll_rust.Tlv.{Tlv, truncated, bad_length, too_many, max_tlvs, parse, encode}
use scll_rust.Tlv.Grammar.{IsEncodable, Objects, done, object}
use scll_rust.Tlv.Encode.{encoding}
use scll_rust.Tlv.Parse.{parse_iff, parse_too_many, parse_total}
use scll_rust.Tlv.RoundTrip.{parse-encode, encode-parse, encode_lead_tag}

instance abbrev vectors : Heapless
vectors = plain

-- '4F' 02 A0 00, '9F70' 01 07
abbrev two_objects : List ℕ
two_objects = 0x4F ∷ 0x02 ∷ 0xA0 ∷ 0x00 ∷ 0x9F ∷ 0x70 ∷ 0x01 ∷ 0x07 ∷ []

abbrev aid_object : Tlv
aid_object = record { tag = 0x4F; value = 0xA0 ∷ 0x00 ∷ [] }

abbrev state_object : Tlv
state_object = record { tag = 0x9F70; value = 0x07 ∷ [] }

abbrev two_items : List Tlv
two_items = aid_object ∷ state_object ∷ []

parse_two : parse two_objects ≡ ok two_items
unfolding parse
parse_two = refl

encode_two : encode 300 two_items ≡ ok two_objects
unfolding encode
encode_two = refl

parse_cut_value : parse (0x4F ∷ 0x05 ∷ 0x01 ∷ 0x02 ∷ []) ≡ err truncated
unfolding parse
parse_cut_value = refl

parse_indefinite : parse (0x4F ∷ 0x80 ∷ 0x01 ∷ []) ≡ err bad_length
unfolding parse
parse_indefinite = refl

parse_wide_tag : parse (0x1F ∷ 0x81 ∷ 0x81 ∷ 0x81 ∷ 0x81 ∷ 0x01 ∷ []) ≡ err bad_length
unfolding parse
parse_wide_tag = refl

-- A length in the long form where the short form would do is accepted.
parse_padded_length :
    parse (0x4F ∷ 0x81 ∷ 0x01 ∷ 0x07 ∷ []) ≡ ok (record { tag = 0x4F; value = 0x07 ∷ [] } ∷ [])
unfolding parse
parse_padded_length = refl

two_objects-Objects : Objects two_objects two_items
two_objects-Objects =
    object (0x4F ∷ []) (2 ∷ []) (0x9F ∷ 0x70 ∷ 0x01 ∷ 0x07 ∷ []) aid_object (omega arith, refl)
      (inl (omega arith, refl, refl)) refl
      (object (0x9F ∷ 0x70 ∷ []) (1 ∷ []) [] state_object
        (omega arith, omega arith, omega arith, refl) (inl (omega arith, refl, refl)) refl done)

two_items-IsEncodable : All IsEncodable two_items
two_items-IsEncodable = (
  record {
    has_tag = (0x4F ∷ [], omega arith, (omega arith, refl));
    bytes = omega arith;
    sized = omega arith;
  },
  (
    record {
      has_tag = (0x9F ∷ 0x70 ∷ [], omega arith, (omega arith, omega arith, omega arith, refl));
      bytes = omega arith;
      sized = omega arith;
    },
    tt,
  ),
)

parse_iff_example :
    (parse two_objects ≡ ok two_items)
    ↔ (Objects two_objects two_items × (length two_items ≤ max_tlvs))
parse_iff_example = parse_iff two_objects two_items (omega arith)

parse_total_example : parse two_objects ≢ stuck
parse_total_example = parse_total two_objects (omega arith)

parse-encode_example : parse two_objects ≡ ok two_items
parse-encode_example =
    parse-encode 300 two_items two_objects two_items-IsEncodable (omega arith) encode_two

encode-parse_example :
    (encode (length two_objects) two_items ≡ ok (encoding two_items))
    × (length (encoding two_items) ≤ length two_objects)
    × (parse (encoding two_items) ≡ ok two_items)
encode-parse_example = encode-parse two_objects two_items (omega arith) (omega arith) parse_two

encode_lead_tag_example :
    (encode 2 (record { tag = 0x9F; value = [] } ∷ []) ≡ ok (0x9F ∷ 0 ∷ []))
    × (parse (0x9F ∷ 0 ∷ []) ≡ err truncated)
encode_lead_tag_example = encode_lead_tag 0x9F (omega arith) (omega arith)

abbrev empty_object : Tlv
empty_object = record { tag = 0x80; value = [] }

abbrev empties : ℕ → List ℕ
empties zero = []
empties (suc n) = 0x80 ∷ 0 ∷ empties n

empties-Objects : (n : ℕ) → Objects (empties n) (replicate n empty_object)
empties-Objects zero = done
empties-Objects (suc n) =
    object (0x80 ∷ []) (0 ∷ []) (empties n) empty_object (omega arith, refl)
      (inl (omega arith, refl, refl)) refl (empties-Objects n)

empties-IsBytes : (n : ℕ) → IsBytes (empties n)
empties-IsBytes zero = tt
empties-IsBytes (suc n) = (omega arith, (omega arith, empties-IsBytes n))

parse_too_many_example : parse (empties 65) ≡ err too_many
parse_too_many_example =
    parse_too_many (empties 65) (replicate 65 empty_object) (empties-IsBytes 65)
      (empties-Objects 65) (omega arith)
