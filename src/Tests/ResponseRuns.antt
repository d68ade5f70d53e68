-- ===== src/Tests/ResponseRuns.antt =====
-- Runs of crates/scll-core/src/response.rs on the vectors of its own tests, and the theorems on them.
use scll_rust.Prelude.{
  ℕ, ◌≤◌, ◌≡◌, refl, List, [], ◌∷◌, ◌++◌, length, some, ◌==◌, if◌then◌else◌, ok, arith,
}
use scll_rust.Prelude.Heapless.{Heapless, plain}
use scll_rust.Tlv.{Tlv, parse}
use scll_rust.Scp.{scp02}
use scll_rust.Response.{
  find, KeyInfo, Keyset, KeyInformation, aes, basic, push_into, push_existing, push_keyset,
  push_key, push_pairs, key_entry, key_entries, decode_key_type, parse_key_information, crd_body,
  scp_entries, push_variant, scp_variant, parse_card_recognition,
}
use scll_rust.Response.Keysets.{Grouped, keys_of, push_key-Grouped}
use scll_rust.Response.Status.{parse_status_e3}
use scll_rust.Lifecycle.{secured, decode_life_cycle}
use scll_rust.Response.Template.{parse_key_information-Grouped}

instance abbrev vectors : Heapless
vectors = plain

-- '66' '73' '64' with the OID 2A864886FC6B 04 02 55
abbrev recognition : List ℕ
recognition =
    0x66 ∷ 0x0F ∷ 0x73 ∷ 0x0D ∷ 0x64 ∷ 0x0B ∷ 0x06 ∷ 0x09 ∷ 0x2A ∷ 0x86 ∷ 0x48 ∷ 0x86 ∷ 0xFC ∷ 0x6B
    ∷ 0x04 ∷ 0x02 ∷ 0x55 ∷ []

recognised : parse_card_recognition recognition ≡ ok (scp02 0x55 ∷ [])
unfolding parse_card_recognition crd_body scp_entries push_variant scp_variant find parse
recognised = refl

abbrev aes_info : ℕ → KeyInfo
aes_info kid = record { kid = kid; key_type = aes; key_length = 0x10 }

abbrev keyset_48 : List KeyInfo → Keyset
keyset_48 keys = record { kvn = 0x30; keys = keys }

-- Two entries 'C0' of the version number 0x30.
abbrev template : List ℕ
template =
    0xE0 ∷ 0x0C ∷ 0xC0 ∷ 0x04 ∷ 0x01 ∷ 0x30 ∷ 0x88 ∷ 0x10 ∷ 0xC0 ∷ 0x04 ∷ 0x02 ∷ 0x30 ∷ 0x88 ∷ 0x10
    ∷ []

abbrev grouped_info : KeyInformation
grouped_info = record { format = basic; keysets = keyset_48 (aes_info 1 ∷ aes_info 2 ∷ []) ∷ [] }

template_run : parse_key_information template ≡ ok grouped_info
unfolding parse_key_information key_entries key_entry push_pairs push_key push_existing push_into
    push_keyset decode_key_type find parse
template_run = refl

parse_key_information-Grouped_example :
    Grouped grouped_info.keysets × (length grouped_info.keysets ≤ 16)
parse_key_information-Grouped_example =
    parse_key_information-Grouped template grouped_info template_run

push_run :
    push_key (keyset_48 (aes_info 1 ∷ []) ∷ []) 0x30 (aes_info 2)
    ≡ ok (keyset_48 (aes_info 1 ∷ aes_info 2 ∷ []) ∷ [])
unfolding push_key push_existing push_into
push_run = refl

push_key-Grouped_example :
    Grouped (keyset_48 (aes_info 1 ∷ aes_info 2 ∷ []) ∷ [])
    × (length (keyset_48 (aes_info 1 ∷ aes_info 2 ∷ []) ∷ []) ≤ 16)
    × (keys_of (keyset_48 (aes_info 1 ∷ aes_info 2 ∷ []) ∷ []) 0x30 ≡ (
        if 0x30 == 0x30
        then keys_of (keyset_48 (aes_info 1 ∷ []) ∷ []) 0x30 ++ (aes_info 2 ∷ [])
        else keys_of (keyset_48 (aes_info 1 ∷ []) ∷ []) 0x30))
push_key-Grouped_example =
    push_key-Grouped (keyset_48 (aes_info 1 ∷ []) ∷ [])
      (keyset_48 (aes_info 1 ∷ aes_info 2 ∷ []) ∷ []) 0x30 0x30 (aes_info 2)
      (omega arith, omega arith, tt, tt) (omega arith) push_run

status_run : parse_status_e3 (0xE3 ∷ 0x04 ∷ 0x9F ∷ 0x70 ∷ 0x01 ∷ 0x0F ∷ []) ≡ ok (some secured)
unfolding parse_status_e3 find parse decode_life_cycle
status_run = refl

abbrev elf_fields : List Tlv
elf_fields =
    record { tag = 0x4F; value = 0xA0 ∷ [] }
    ∷ record { tag = 0x84; value = 0xA1 ∷ [] }
    ∷ record { tag = 0x84; value = 0xA2 ∷ [] }
    ∷ []
