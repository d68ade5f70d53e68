-- ===== src/Cap/Lfdb.antt =====
-- The header of the Load File Data Block in crates/scll-core/src/cap/mod.rs: its tag and length, which
-- are streamed ahead of the components. `Header` is about it.
pub mod Header
use scll_rust.Prelude.{
  ℕ, ◌+◌, ◌-◌, ◌/◌, ◌%◌, min, List, [], ◌∷◌, take, drop, leb, ltb, if◌then◌else◌,
}

-- The buffer has five octets, of which `len` are used.
pub record LfdbHeader : Type 0 where
  pub buf : List ℕ
  pub len : ℕ
  pub emitted : ℕ

-- `LfdbHeader::new`; `as u8` cuts off the high bits.
unfoldable pub new : ℕ → LfdbHeader
new content_len =
    if ltb content_len 0x80
    then header (0xC4 ∷ content_len % 256 ∷ 0 ∷ 0 ∷ 0 ∷ []) 2
    else if leb content_len 0xFF
    then header (0xC4 ∷ 0x81 ∷ content_len % 256 ∷ 0 ∷ 0 ∷ []) 3
    else if leb content_len 0xFFFF
    then header (0xC4 ∷ 0x82 ∷ content_len / 256 % 256 ∷ content_len % 256 ∷ 0 ∷ []) 4
    else header
        (0xC4 ∷ 0x83 ∷ content_len / 65536 % 256 ∷ content_len / 256 % 256 ∷ content_len % 256 ∷ [])
        5
  where
    header : List ℕ → ℕ → LfdbHeader
    header buf len = record { buf = buf; len = len; emitted = 0 }

abbrev pub remaining : LfdbHeader → ℕ
remaining h = h.len - h.emitted

-- `emit` into a buffer of `room` octets: the octets written, and the header after it.
unfoldable pub emit : LfdbHeader → ℕ → List ℕ × LfdbHeader
emit h room =
    let n = min (remaining h) room in
    (take n (drop h.emitted h.buf), record h { emitted = h.emitted + n })

unfoldable pub reset : LfdbHeader → LfdbHeader
reset h = record h { emitted = 0 }
