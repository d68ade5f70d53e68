-- ===== src/Tlv.antt =====
-- crates/scll-core/src/tlv.rs: the BER-TLV reader and writer. A slice with the cursor `pos` is the
-- list of what has not been read; an output slice with its cursor is the list of what has been
-- written, and its length is the position that the writer returns. `usize` has 64 bits.
-- `Grammar` states without the code what `Decode`, `Encode` and `RoundTrip` prove of it.
pub mod Grammar
pub mod Decode
pub mod Rounds
pub mod Parse
pub mod Encode
pub mod RoundTrip
pub mod Short
use scll_rust.Prelude.{
  ℕ, zero, suc, ◌+◌, ◌*◌, ◌/◌, ◌%◌, ◌^◌, List, [], ◌∷◌, ◌++◌, ◌||◌, bit_and, bit_or, length, take,
  drop, ltb, leb, ◌==◌, if◌then◌else◌, Result, ok, err, stuck, ◌>>=◌, ◌>>◌, ok_or, reject_if,
}
use scll_rust.Prelude.Heapless.{Heapless}

pub data TlvError : Type 0 where
  truncated bad_length too_many overflow : TlvError

pub record Tlv : Type 0 where
  pub tag : ℕ
  pub value : List ℕ

abbrev pub tag_max_octets : ℕ
tag_max_octets = 4

-- limits.rs, `MAX_TLVS`
abbrev pub max_tlvs : ℕ
max_tlvs = 64

-- `(tag << 8) | u32::from(b)`: the low octet of the shifted word is zero.
abbrev pub shift_in : ℕ → ℕ → ℕ
shift_in tag b = (tag * 256) % 2 ^ 32 + b

-- The `loop` of `parse_tag`; `octets` counts the tag octets that are read.
pub tag_loop : List ℕ → ℕ → ℕ → Result TlvError (ℕ × List ℕ)
tag_loop [] octets tag = err truncated
tag_loop (b ∷ rest) octets tag =
    let more = tag_loop rest (octets + 1) (shift_in tag b) in
    if ltb tag_max_octets (octets + 1)
    then err bad_length
    else if bit_and b 0x80 == 0
    then ok (shift_in tag b, rest)
    else more

pub parse_tag : List ℕ → Result TlvError (ℕ × List ℕ)
unfolding tag_loop
parse_tag [] = err truncated
parse_tag (b ∷ rest) = if bit_and b 0x1F == 0x1F then tag_loop rest 1 b else ok (b, rest)

-- The `for _ in 0..count` loop of `parse_len`, with `(len << 8) | usize::from(b)`.
pub len_loop : ℕ → ℕ → List ℕ → Result TlvError (ℕ × List ℕ)
len_loop zero len rest = ok (len, rest)
len_loop (suc count) len [] = err truncated
len_loop (suc count) len (b ∷ rest) = len_loop count ((len * 256) % 2 ^ 64 + b) rest

pub parse_len : List ℕ → Result TlvError (ℕ × List ℕ)
unfolding len_loop
parse_len [] = err truncated
parse_len (b ∷ rest) =
    let count = bit_and b 0x7F in
    if bit_and b 0x80 == 0
    then ok (b, rest)
    else if count == 0 || ltb 8 count
    then err bad_length
    else len_loop count 0 rest

-- `&input[pos..end]` and what follows it; an `end` past the input, or past `usize::MAX`, is
-- `Truncated`.
abbrev pub split_value : ℕ → List ℕ → Result TlvError (List ℕ × List ℕ)
split_value len rest =
    if ltb (length rest) len then err truncated else ok (take len rest, drop len rest)

-- One round of the `while` loop of `parse`, up to the push.
pub parse_one : List ℕ → Result TlvError (Tlv × List ℕ)
unfolding parse_tag parse_len
parse_one input = do
  (tag, after_tag) ← parse_tag input
  (len, after_len) ← parse_len after_tag
  (value, rest) ← split_value len after_len
  ok (record { tag = tag; value = value }, rest)

module _ ⦃hl : Heapless⦄ where
  -- The `while` loop of `parse`; fuel is counted in rounds.
  pub parse_loop : ℕ → List ℕ → List Tlv → Result TlvError (List Tlv)
  unfolding parse_one
  parse_loop fuel [] out = ok out
  parse_loop zero (b ∷ bs) out = stuck
  parse_loop (suc fuel) (b ∷ bs) out = do
    (item, rest) ← parse_one (b ∷ bs)
    out' ← ok_or (hl.push max_tlvs out item) too_many
    parse_loop fuel rest out'

  -- A round takes two octets at least, so a round for each octet is enough.
  unfoldable pub parse : List ℕ → Result TlvError (List Tlv)
  unfolding parse_loop
  parse input = parse_loop (length input) input []

-- `u32::to_be_bytes`
abbrev pub be_bytes4 : ℕ → List ℕ
be_bytes4 n = n / 2 ^ 24 % 256 ∷ n / 2 ^ 16 % 256 ∷ n / 2 ^ 8 % 256 ∷ n % 256 ∷ []

-- `usize::to_be_bytes`
abbrev pub be_bytes8 : ℕ → List ℕ
be_bytes8 n =
    (n / 2 ^ 56 % 256) ∷ (n / 2 ^ 48 % 256) ∷ (n / 2 ^ 40 % 256) ∷ (n / 2 ^ 32 % 256) ∷ be_bytes4 n

-- `&bytes[start..]`, where `start` is the first octet that is not zero, or the last octet.
pub significant : List ℕ → List ℕ
significant [] = []
significant (b ∷ []) = b ∷ []
significant (b ∷ c ∷ bs) = if b == 0 then significant (c ∷ bs) else b ∷ c ∷ bs

-- `size` is the length of the output slice.
pub write_bytes : ℕ → List ℕ → List ℕ → Result TlvError (List ℕ)
write_bytes size out src =
    if ltb size (length out + length src) then err overflow else ok (out ++ src)

pub write_tag : ℕ → ℕ → List ℕ → Result TlvError (List ℕ)
write_tag size tag out = write_bytes size out (significant (be_bytes4 tag))

pub write_len : ℕ → ℕ → List ℕ → Result TlvError (List ℕ)
write_len size len out =
    let body = significant (be_bytes8 len) in
    if ltb len 0x80
    then write_bytes size out (len ∷ [])
    else do out' ← write_bytes size out (bit_or 0x80 (length body) ∷ []); write_bytes size out' body

-- The loop of `encode`, from the position after `out`.
pub encode_from : ℕ → List ℕ → List Tlv → Result TlvError (List ℕ)
encode_from size out [] = ok out
encode_from size out (item ∷ items) = do
  out₁ ← write_tag size item.tag out
  out₂ ← write_len size (length item.value) out₁
  out₃ ← write_bytes size out₂ item.value
  encode_from size out₃ items

-- `encode` into a slice of `size` octets: the octets before the position that it returns.
unfoldable pub encode : ℕ → List Tlv → Result TlvError (List ℕ)
unfolding encode_from write_tag write_len write_bytes significant
encode size items = encode_from size [] items
