-- ===== src/Tests/CommandRuns.antt =====
-- Runs of the builders of crates/scll-core/src/command, and the theorems on them.
use scll_rust.Prelude.{
  ℕ, ◌<◌, ◌≤◌, ◌≡◌, refl, ◌⊎◌, ◌↔◌, List, [], ◌∷◌, length, take, true, false, ◌&&◌, ok, err, arith,
  Option, none, some, map, replicate,
}
use scll_rust.Prelude.Heapless.{Heapless, plain}
use scll_rust.Tlv.{bad_length, parse}
use scll_rust.Command.{overflow, empty_key_scope, build, push, push_lv, push_body}
use scll_rust.Command.Frame.{command}
use scll_rust.Command.Builders.{is_none, delete_object, delete_key, begin_rmac_session}
use scll_rust.Command.Builders.Scopes.{
  Reads, key_octets, key_objects, build-Reads, begin_rmac_session-Reads, delete_key-Reads,
}
use scll_rust.Command.Install.{Privileges, jcop1_byte, privileges_len, octets_of}
use scll_rust.Command.Install.Fields.{read_privileges, read_privileges-privileges_len}
use scll_rust.Command.PutKey.{KeyBlock, put_key}
use scll_rust.Command.PutKey.Blocks.{blocks_octets, read_blocks, card_key, put_key-Reads}

instance abbrev vectors : Heapless
vectors = plain

abbrev aid : List ℕ
aid = 0xA0 ∷ 0x00 ∷ 0x00 ∷ 0x01 ∷ 0x51 ∷ []

delete_cascading :
    delete_object aid true
    ≡ ok (
        0x84 ∷ 0xE4 ∷ 0x00 ∷ 0x80 ∷ 0x07 ∷ 0x4F ∷ 0x05 ∷ 0xA0 ∷ 0x00 ∷ 0x00 ∷ 0x01 ∷ 0x51 ∷ 0x00
        ∷ [])
unfolding delete_object build push push_lv push_body
delete_cascading = refl

delete_nothing : delete_key none none ≡ err empty_key_scope
unfolding delete_key
delete_nothing = refl

-- With 128 octets or more the field behind '4F' is no BER-TLV object any more: its one length octet
-- announces further length octets.
delete_long_field : parse (0x4F ∷ 128 ∷ replicate 128 0x00) ≡ err bad_length
unfolding parse
delete_long_field = refl

build-Reads_example :
    Reads (build 0x84 0xE4 0x00 0x80 aid true) (command 0x84 0xE4 0x00 0x80 aid true)
build-Reads_example = build-Reads 0x84 0xE4 0x00 0x80 aid true (omega arith)

begin_rmac_session-Reads_example :
    ((1 ≤ length aid)
      × (length aid ≤ 24)
      × Reads (begin_rmac_session aid) (command 0x80 0x7A 0x10 0x00 (length aid ∷ aid) true))
    ⊎ (((length aid ≡ 0) ⊎ (24 < length aid)) × (begin_rmac_session aid ≡ err overflow))
begin_rmac_session-Reads_example = begin_rmac_session-Reads aid

abbrev kid_1 : Option ℕ
kid_1 = some 1

abbrev kvn_48 : Option ℕ
kvn_48 = some 0x30

delete_key-Reads_example :
    (kid_1 ≡ none × kvn_48 ≡ none × delete_key kid_1 kvn_48 ≡ err empty_key_scope)
    ⊎ ((is_none kid_1 && is_none kvn_48 ≡ false)
        × Reads
            (delete_key kid_1 kvn_48)
            (command 0x84 0xE4 0x00 0x00 (key_octets kid_1 kvn_48) true)
        × (parse (key_octets kid_1 kvn_48) ≡ ok (key_objects kid_1 kvn_48)))
delete_key-Reads_example = delete_key-Reads kid_1 kvn_48 (omega arith) (omega arith)

abbrev load_fields : List (List ℕ)
load_fields = aid ∷ [] ∷ [] ∷ [] ∷ [] ∷ []

abbrev sd_privileges : Privileges
sd_privileges = record { byte_1 = 0x80; byte_2 = 0; byte_3 = 0 }

abbrev install_fields : List (List ℕ)
install_fields = aid ∷ aid ∷ aid ∷ (0x80 ∷ []) ∷ (0xC9 ∷ 0x00 ∷ []) ∷ [] ∷ []

read_privileges-privileges_len_example :
    (read_privileges (take (privileges_len sd_privileges jcop1_byte) (octets_of sd_privileges))
      ≡ some sd_privileges)
    × ((privileges_len sd_privileges jcop1_byte ≡ 1)
        ↔ (jcop1_byte ≡ jcop1_byte × ◌≡◌ {A = ℕ} 0 0 × ◌≡◌ {A = ℕ} 0 0))
    × (¬ (jcop1_byte ≡ jcop1_byte × ◌≡◌ {A = ℕ} 0 0 × ◌≡◌ {A = ℕ} 0 0)
        → take (privileges_len sd_privileges jcop1_byte) (octets_of sd_privileges)
          ≡ octets_of sd_privileges)
read_privileges-privileges_len_example = read_privileges-privileges_len sd_privileges jcop1_byte

abbrev aes_key : KeyBlock
aes_key = record {
  key_type = 0x88;
  encrypted_key = replicate 16 0xAB;
  kcv = record { kcv_1 = 1; kcv_2 = 2; kcv_3 = 3 };
  clear_key_len = 16;
}

abbrev aes_keys : List KeyBlock
aes_keys = aes_key ∷ aes_key ∷ aes_key ∷ []

put_key-Reads_example :
    (length (blocks_octets aes_keys) ≤ 254
      × Reads
          (put_key 0x00 0x30 aes_key aes_key aes_key)
          (command 0x84 0xD8 0x00 0x81 (0x30 ∷ blocks_octets aes_keys) true)
      × read_blocks 3 (blocks_octets aes_keys) ≡ some (map card_key aes_keys))
    ⊎ (254 < length (blocks_octets aes_keys)
        × put_key 0x00 0x30 aes_key aes_key aes_key ≡ err overflow)
put_key-Reads_example = put_key-Reads 0x00 0x30 aes_key aes_key aes_key
