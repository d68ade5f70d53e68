-- ===== src/Response.antt =====
-- crates/scll-core/src/response.rs: what is read from the data of GET DATA, here the Card Recognition
-- Data and the Key Information Template. `Status` has the other parsers, `Keysets` is about the
-- grouping of the keys by version number, and `Template` about the whole template.
pub mod Status
pub mod Keysets
pub mod Template
use scll_rust.Prelude.{
  ℕ, List, [], ◌∷◌, Bool, true, false, is_empty, ◌==◌, if◌then◌else◌, Option, none, some, Result,
  ok, err, stuck, ok_or, ◌>>=◌, ◌>>◌,
}
use scll_rust.Prelude.Heapless.{Heapless}
use scll_rust.Tlv.{Tlv, TlvError, too_many, parse}
use scll_rust.Scp.{ScpVariant, scp02, scp03}

-- The value of the first object with the tag.
unfoldable pub find : List Tlv → ℕ → Option (List ℕ)
find [] tag = none
find (t ∷ tlvs) tag = if t.tag == tag then some t.value else find tlvs tag

abbrev pub unwrap_or {ℓ} : {A : Type ℓ} → Option A → A → A
unwrap_or none a = a
unwrap_or (some b) a = b

-- limits.rs, `MAX_SCP_VARIANTS`, `MAX_KEYSETS`, `MAX_KEYS_PER_SET`
abbrev pub max_scp_variants : ℕ
max_scp_variants = 8

abbrev pub max_keysets : ℕ
max_keysets = 16

abbrev pub max_keys_per_set : ℕ
max_keys_per_set = 16

-- The pattern `[.., scp_id, i]`.
abbrev pub last_two : List ℕ → Option (ℕ × ℕ)
last_two [] = none
last_two (a ∷ []) = none
last_two (a ∷ b ∷ []) = some (a, b)
last_two (a ∷ b ∷ c ∷ rest) = last_two (b ∷ c ∷ rest)

unfoldable pub scp_variant : ℕ → ℕ → Option ScpVariant
scp_variant scp_id i_param =
    if scp_id == 0x02
    then some (scp02 i_param)
    else if scp_id == 0x03
    then some (scp03 i_param)
    else none

pub data KeyType : Type 0 where
  des aes rsa_public rsa_private_crt rsa_private_exponent : KeyType
  ecc_public ecc_private ecc_parameters_ref : KeyType
  other : ℕ → KeyType

pub record KeyInfo : Type 0 where
  pub kid : ℕ
  pub key_type : KeyType
  pub key_length : ℕ

pub record Keyset : Type 0 where
  pub kvn : ℕ
  pub keys : List KeyInfo

pub data KeyTemplateFormat : Type 0 where
  basic extended : KeyTemplateFormat

pub record KeyInformation : Type 0 where
  pub format : KeyTemplateFormat
  pub keysets : List Keyset

unfoldable pub decode_key_type : ℕ → KeyType
decode_key_type b =
    if b == 0x80
    then des
    else if b == 0x88
    then aes
    else if b == 0xA1
    then rsa_public
    else if b == 0xA2
    then rsa_private_crt
    else if b == 0xA3
    then rsa_private_exponent
    else if b == 0xB0
    then ecc_public
    else if b == 0xB1
    then ecc_private
    else if b == 0xB2
    then ecc_parameters_ref
    else other b

-- The set in front of what the search made of the sets behind it.
abbrev pub keep_set :
    Keyset → Option (Result TlvError (List Keyset)) → Option (Result TlvError (List Keyset))
keep_set set none = none
keep_set set (some r) = some (r >>= λ sets. ok (set ∷ sets))

module _ ⦃hl : Heapless⦄ where
  -- The `if let` of the loop of `parse_card_recognition`.
  unfoldable pub push_variant : Option (ℕ × ℕ) → List ScpVariant → Result TlvError (List ScpVariant)
  push_variant none out = ok out
  push_variant (some (scp_id, i)) out = push_some (scp_variant scp_id i)
    where
      push_some : Option ScpVariant → Result TlvError (List ScpVariant)
      push_some none = ok out
      push_some (some variant) = ok_or (hl.push max_scp_variants out variant) too_many

  abbrev pub oid_of : Option (List ℕ) → Option (ℕ × ℕ)
  oid_of none = none
  oid_of (some oid) = last_two oid

  -- The loop over the entries; only those with the tag '64' count.
  unfoldable pub scp_entries : List Tlv → List ScpVariant → Result TlvError (List ScpVariant)
  scp_entries [] out = ok out
  scp_entries (entry ∷ entries) out =
      if entry.tag == 0x64
      then (parse entry.value >>= λ oid_tlvs.
          push_variant (oid_of (find oid_tlvs 0x06)) out >>= λ out'. scp_entries entries out')
      else scp_entries entries out

  -- `let body = if let Some(v66) ..`
  unfoldable pub crd_body : List Tlv → Result TlvError (Option (List ℕ))
  crd_body top = inside (find top 0x66)
    where
      inside : Option (List ℕ) → Result TlvError (Option (List ℕ))
      inside (some v66) = parse v66 >>= λ wrapped. ok (find wrapped 0x73)
      inside none = ok (find top 0x73)

  unfoldable pub parse_card_recognition : List ℕ → Result TlvError (List ScpVariant)
  parse_card_recognition bytes =
      if is_empty bytes then ok [] else (parse bytes >>= λ top. crd_body top >>= from_body)
    where
      from_body : Option (List ℕ) → Result TlvError (List ScpVariant)
      from_body none = ok []
      from_body (some body) = parse body >>= λ entries. scp_entries entries []

  -- A fresh vector for the key, pushed with its version number at the end.
  unfoldable pub push_keyset : List Keyset → ℕ → KeyInfo → Result TlvError (List Keyset)
  push_keyset keysets kvn key = do
    keys ← ok_or (hl.push max_keys_per_set [] key) too_many
    ok_or (hl.push max_keysets keysets (record { kvn = kvn; keys = keys })) too_many

  -- `set.keys.push(key)`, in front of the sets that follow.
  unfoldable pub push_into : Keyset → List Keyset → KeyInfo → Result TlvError (List Keyset)
  push_into set sets key = do
    keys ← ok_or (hl.push max_keys_per_set set.keys key) too_many
    ok (record set { keys = keys } ∷ sets)

  -- The search of `push_key` for the set with the version number, which gets the key: `none` if
  -- there is no such set.
  unfoldable pub push_existing : List Keyset → ℕ → KeyInfo → Option (Result TlvError (List Keyset))
  push_existing [] kvn key = none
  push_existing (set ∷ sets) kvn key =
      let later = push_existing sets kvn key in
      if set.kvn == kvn then some (push_into set sets key) else keep_set set later

  unfoldable pub push_key : List Keyset → ℕ → KeyInfo → Result TlvError (List Keyset)
  push_key keysets kvn key = unwrap_or (push_existing keysets kvn key) (push_keyset keysets kvn key)

  -- The loop over `chunks_exact(2)`.
  unfoldable pub push_pairs : List Keyset → ℕ → ℕ → List ℕ → Result TlvError (List Keyset)
  push_pairs keysets kid kvn (key_type ∷ key_length ∷ rest) = do
    keysets' ←
        push_key keysets kvn
          (record { kid = kid; key_type = decode_key_type key_type; key_length = key_length })
    push_pairs keysets' kid kvn rest
  push_pairs keysets kid kvn _ = ok keysets

  -- One round of the loop of `parse_key_information`.
  unfoldable pub key_entry : KeyInformation → List ℕ → Result TlvError KeyInformation
  key_entry info (kid ∷ kvn ∷ rest) = by_marker rest
    where
      basic_entry : List ℕ → Result TlvError KeyInformation
      basic_entry pairs = push_pairs info.keysets kid kvn pairs >>= λ keysets.
          ok (record info { keysets = keysets })

      by_marker : List ℕ → Result TlvError KeyInformation
      by_marker [] = basic_entry []
      by_marker (b ∷ bs) =
          if b == 0xB9
          then (push_key info.keysets kvn
                (record { kid = kid; key_type = other 0xB9; key_length = 0 })
              >>= λ keysets. ok (record { format = extended; keysets = keysets }))
          else basic_entry (b ∷ bs)
  key_entry info _ = ok info

  unfoldable pub key_entries : List Tlv → KeyInformation → Result TlvError KeyInformation
  key_entries [] info = ok info
  key_entries (entry ∷ entries) info =
      if entry.tag == 0xC0
      then (key_entry info entry.value >>= λ info'. key_entries entries info')
      else key_entries entries info

  unfoldable pub parse_key_information : List ℕ → Result TlvError KeyInformation
  parse_key_information bytes =
      let empty : KeyInformation = record { format = basic; keysets = [] } in
      if is_empty bytes
      then ok empty
      else (parse bytes >>= λ top.
          parse (unwrap_or (find top 0xE0) bytes) >>= λ entries. key_entries entries empty)
