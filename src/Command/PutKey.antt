-- ===== src/Command/PutKey.antt =====
-- crates/scll-core/src/command/put_key.rs: PUT KEY for a set of three keys. `Blocks` shows what a
-- card reads from it.
pub mod Blocks
use scll_rust.Prelude.{
  ℕ, ◌+◌, List, [], ◌∷◌, true, length, leb, ◌==◌, if◌then◌else◌, Option, none, some, Result, ok,
  err, stuck, ◌>>=◌, ok_or,
}
use scll_rust.Prelude.Bits.{u8_try_from}
use scll_rust.Prelude.Heapless.{Heapless}
use scll_rust.Command.{BuildError, overflow, push, build}

abbrev pub key_type_aes : ℕ
key_type_aes = 0x88

-- `[u8; 3]`
pub record Kcv : Type 0 where
  pub kcv_1 : ℕ
  pub kcv_2 : ℕ
  pub kcv_3 : ℕ

pub record KeyBlock : Type 0 where
  pub key_type : ℕ
  pub encrypted_key : List ℕ
  pub kcv : Kcv
  pub clear_key_len : ℕ

abbrev pub kcv_octets : Kcv → List ℕ
kcv_octets k = k.kcv_1 ∷ k.kcv_2 ∷ k.kcv_3 ∷ []

-- `u8::checked_add`
abbrev pub checked_add : ℕ → ℕ → Option ℕ
checked_add a b = u8_try_from (a + b)

module _ ⦃hl : Heapless⦄ where
  -- The `if block.key_type == KEY_TYPE_AES` of the loop.
  unfoldable pub push_head : List ℕ → KeyBlock → ℕ → Result BuildError (List ℕ)
  push_head field block enc_len =
      if block.key_type == key_type_aes
      then (ok_or (checked_add enc_len 1) overflow >>= λ block_len.
          push field (block.key_type ∷ block_len ∷ block.clear_key_len ∷ []))
      else push field (block.key_type ∷ enc_len ∷ [])

  -- One round of the loop.
  unfoldable pub push_block : List ℕ → KeyBlock → Result BuildError (List ℕ)
  push_block field block = do
    enc_len ← ok_or (u8_try_from (length block.encrypted_key)) overflow
    d1 ← push_head field block enc_len
    d2 ← push d1 block.encrypted_key
    d3 ← push d2 (0x03 ∷ [])
    push d3 (kcv_octets block.kcv)

  unfoldable pub push_blocks : List ℕ → List KeyBlock → Result BuildError (List ℕ)
  push_blocks field [] = ok field
  push_blocks field (block ∷ blocks) =
      push_block field block >>= λ field'. push_blocks field' blocks

  -- `blocks` is an array of three.
  unfoldable pub put_key : ℕ → ℕ → KeyBlock → KeyBlock → KeyBlock → Result BuildError (List ℕ)
  put_key p1 new_kvn enc mac dek = do
    field ← push [] (new_kvn ∷ [])
    field' ← push_blocks field (enc ∷ mac ∷ dek ∷ [])
    build 0x84 0xD8 p1 0x81 field' true
