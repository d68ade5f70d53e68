-- ===== src/Command/PutKey/Blocks.antt =====
-- The data of a PUT KEY command of crates/scll-core/src/command/put_key.rs as a card reads it.
use scll_rust.Prelude.{
  ℕ, zero, suc, ◌+◌, ◌≤◌, ◌<◌, ◌≡◌, refl, ◌⊎◌, inl, inr, List, [], ◌∷◌, ◌++◌, true, ◌==◌, length,
  take, drop, leb, if◌then◌else◌, ok, err, ◌>>=◌, Option, none, some, arith, Bool-cases, leb→le,
  ◌&&◌, map, length-append, take-append_length, drop-append_length,
}
use mathlib.Core.List.{append_assoc, append-nil}
use scll_rust.Prelude.Heapless.{Heapless}
use scll_rust.Command.{overflow, push, build}
use scll_rust.Command.Frame.{command, push_lem, build_lem}
use scll_rust.Command.Builders.Scopes.{Reads, build-Reads}
use scll_rust.Command.PutKey.{
  KeyBlock, Kcv, key_type_aes, kcv_octets, push_head, push_block, push_blocks, put_key,
}

-- The octets of one block, as GlobalPlatform section 11.8.2.3.1 and its Amendment D lay them out.
unfoldable pub block_octets : KeyBlock → List ℕ
block_octets b =
    if b.key_type == key_type_aes
    then b.key_type ∷ suc (length b.encrypted_key) ∷ b.clear_key_len ∷ b.encrypted_key
      ++ (3 ∷ kcv_octets b.kcv)
    else b.key_type ∷ length b.encrypted_key ∷ b.encrypted_key ++ (3 ∷ kcv_octets b.kcv)

unfoldable pub blocks_octets : List KeyBlock → List ℕ
blocks_octets [] = []
blocks_octets (b ∷ bs) = block_octets b ++ blocks_octets bs

-- What a card learns of a block: the type, the clear length for an AES key, the encrypted key, and
-- the check value.
pub record CardKey : Type 0 where
  pub of_type : ℕ
  pub clear_len : Option ℕ
  pub encrypted : List ℕ
  pub check : List ℕ

unfoldable pub card_key : KeyBlock → CardKey
card_key b = record {
  of_type = b.key_type;
  clear_len = if b.key_type == key_type_aes then some b.clear_key_len else none;
  encrypted = b.encrypted_key;
  check = kcv_octets b.kcv;
}

-- The encrypted key of `len` octets, then the length of the check value and the check value.
abbrev pub read_rest : ℕ → Option ℕ → ℕ → List ℕ → Option (CardKey × List ℕ)
read_rest key_type clear len bs = finish (drop len bs)
  where
    finish : List ℕ → Option (CardKey × List ℕ)
    finish (n ∷ k1 ∷ k2 ∷ k3 ∷ rest) =
        if n == 3
        then some (
          record {
            of_type = key_type;
            clear_len = clear;
            encrypted = take len bs;
            check = k1 ∷ k2 ∷ k3 ∷ [];
          },
          rest,
        )
        else none
    finish _ = none

-- How a card takes one block off its octets, and then a number of blocks.
unfoldable pub read_block : List ℕ → Option (CardKey × List ℕ)
read_block (key_type ∷ len ∷ bs) =
    if key_type == key_type_aes then read_aes key_type len bs else read_rest key_type none len bs
  where
    read_aes : ℕ → ℕ → List ℕ → Option (CardKey × List ℕ)
    read_aes key_type (suc len) (clear ∷ bs) = read_rest key_type (some clear) len bs
    read_aes key_type _ _ = none
read_block _ = none

unfoldable pub read_blocks : ℕ → List ℕ → Option (List CardKey)
read_blocks zero [] = some []
read_blocks zero (b ∷ bs) = none
read_blocks (suc n) bs = elim (read_block bs) [
  | some (key, rest) ↦ cons key (read_blocks n rest)
  | none ↦ none
]
  where
    cons : CardKey → Option (List CardKey) → Option (List CardKey)
    cons key (some keys) = some (key ∷ keys)
    cons key none = none

read_block-block_octets :
    (b : KeyBlock) (rest : List ℕ) → read_block (block_octets b ++ rest) ≡ some (card_key b, rest)
unfolding read_block block_octets card_key
read_block-block_octets b rest = ground (
  arith,
  append_assoc b.encrypted_key (3 ∷ kcv_octets b.kcv) rest,
  take-append_length b.encrypted_key (3 ∷ kcv_octets b.kcv ++ rest),
  drop-append_length b.encrypted_key (3 ∷ kcv_octets b.kcv ++ rest),
)

read_blocks-blocks_octets :
    (bs : List KeyBlock) → read_blocks (length bs) (blocks_octets bs) ≡ some (map card_key bs)
unfolding read_blocks blocks_octets
read_blocks-blocks_octets [] = refl
read_blocks-blocks_octets (b ∷ bs) =
    ground (arith, read_block-block_octets b (blocks_octets bs), read_blocks-blocks_octets bs)

length-block_octets :
    (b : KeyBlock)
    → length (block_octets b)
      ≡ length b.encrypted_key + (if b.key_type == key_type_aes then 7 else 6)
unfolding block_octets
length-block_octets b = ground (arith, length-append b.encrypted_key (3 ∷ kcv_octets b.kcv))

module _ ⦃hl : Heapless⦄ where
  push_head_lem :
      (field : List ℕ) (b : KeyBlock)
      → push_head field b (length b.encrypted_key) ≡ (
          if b.key_type == key_type_aes
          then (if leb (length b.encrypted_key + 1) 255 && leb (length field + 3) 261
              then ok (field ++ (b.key_type ∷ suc (length b.encrypted_key) ∷ b.clear_key_len ∷ []))
              else err overflow)
          else (if leb (length field + 2) 261
              then ok (field ++ (b.key_type ∷ length b.encrypted_key ∷ []))
              else err overflow))
  unfolding push_head
  push_head_lem field b = ground (
    arith,
    push_lem field (b.key_type ∷ (length b.encrypted_key + 1) ∷ b.clear_key_len ∷ []),
    push_lem field (b.key_type ∷ length b.encrypted_key ∷ []),
  )

  -- The last three calls of `push` in a round.
  push_end :
      (d key : List ℕ) (k : Kcv)
      → (push d key >>= λ d2. push d2 (3 ∷ []) >>= λ d3. push d3 (kcv_octets k)) ≡ (
          if leb (length d + length key + 4) 261
          then ok (d ++ (key ++ (3 ∷ kcv_octets k)))
          else err overflow)
  push_end d key k = ground (
    arith,
    push_lem d key,
    push_lem (d ++ key) (3 ∷ []),
    push_lem ((d ++ key) ++ (3 ∷ [])) (kcv_octets k),
    append_assoc d key (3 ∷ []),
    append_assoc d (key ++ (3 ∷ [])) (kcv_octets k),
    append_assoc key (3 ∷ []) (kcv_octets k),
    length-append d key,
    length-append (d ++ key) (3 ∷ []),
  )

  push_block_lem :
      (field : List ℕ) (b : KeyBlock)
      → push_block field b ≡ (
          if leb (length field + length (block_octets b)) 261
          then ok (field ++ block_octets b)
          else err overflow)
  unfolding push_block block_octets
  push_block_lem field b =
      let aes : List ℕ = b.key_type ∷ suc (length b.encrypted_key) ∷ b.clear_key_len ∷ [] in
      let des : List ℕ = b.key_type ∷ length b.encrypted_key ∷ [] in
      ground (
        arith,
        push_head_lem field b,
        push_end (field ++ aes) b.encrypted_key b.kcv,
        push_end (field ++ des) b.encrypted_key b.kcv,
        length-append field aes,
        length-append field des,
        append_assoc field aes (b.encrypted_key ++ (3 ∷ kcv_octets b.kcv)),
        append_assoc field des (b.encrypted_key ++ (3 ∷ kcv_octets b.kcv)),
        length-block_octets b,
      )

  push_blocks_lem :
      (field : List ℕ) (bs : List KeyBlock)
      → length field ≤ 261
      → push_blocks field bs ≡ (
          if leb (length field + length (blocks_octets bs)) 261
          then ok (field ++ blocks_octets bs)
          else err overflow)
  unfolding push_blocks blocks_octets
  push_blocks_lem field [] h = ground (arith, append-nil field)
  push_blocks_lem field (b ∷ bs) h = ground (
    arith,
    push_block_lem field b,
    push_blocks_lem (field ++ block_octets b) bs,
    length-append field (block_octets b),
    length-append (block_octets b) (blocks_octets bs),
    append_assoc field (block_octets b) (blocks_octets bs),
  )

  -- PUT KEY either is read by a card with the given P1, P2 = 0x81, `Le` 0, and data that are the new
  -- key version number and then exactly three blocks with the type, the clear length (of an AES
  -- key), the encrypted key and the check value of the three keys in order; or these data are more
  -- than 255 octets, and it is refused with `Overflow`.
  pub put_key-Reads :
      (p1 new_kvn : ℕ) (enc mac dek : KeyBlock)
      → let keys : List KeyBlock = enc ∷ mac ∷ dek ∷ [] in
        (length (blocks_octets keys) ≤ 254
          × Reads
              (put_key p1 new_kvn enc mac dek)
              (command 0x84 0xD8 p1 0x81 (new_kvn ∷ blocks_octets keys) true)
          × read_blocks 3 (blocks_octets keys) ≡ some (map card_key keys))
        ⊎ (254 < length (blocks_octets keys) × put_key p1 new_kvn enc mac dek ≡ err overflow)
  unfolding put_key
  put_key-Reads p1 new_kvn enc mac dek =
      let keys : List KeyBlock = enc ∷ mac ∷ dek ∷ [] in
      let pushed = push_blocks_lem (new_kvn ∷ []) keys (omega arith) in
      elim (Bool-cases (leb (length (blocks_octets keys)) 254)) [
        | inl fits ↦
            let framed : put_key p1 new_kvn enc mac dek
                ≡ build 0x84 0xD8 p1 0x81 (new_kvn ∷ blocks_octets keys) true =
              ground (arith, push_lem [] (new_kvn ∷ []), pushed) in
            inl (
              leb→le _ _ fits,
              rw framed (
                  build-Reads 0x84 0xD8 p1 0x81 (new_kvn ∷ blocks_octets keys) true (ground arith)),
              read_blocks-blocks_octets keys,
            )
        | inr large ↦ inr (
          ground arith,
          ground (
            arith,
            push_lem [] (new_kvn ∷ []),
            pushed,
            build_lem 0x84 0xD8 p1 0x81 (new_kvn ∷ blocks_octets keys) true,
          ),
        )
      ]
