-- ===== src/Cap/Stream.antt =====
-- The stream of the Load File Data Block in crates/scll-core/src/cap/mod.rs. The decompressor of the
-- crate miniz_oxide is a parameter. `Stored`, `Rounds` and `Blocks` are about stored components, and
-- `Cuts` has lemmas on lists cut in two.
pub mod Cuts
pub mod Stored
pub mod Rounds
pub mod Blocks
use scll_rust.Prelude.{
  ℕ, zero, suc, ◌+◌, ◌-◌, ◌*◌, ◌%◌, min, List, [], ◌∷◌, ◌++◌, length, leb, ltb, Bool, true, false,
  ◌&&◌, ◌||◌, ◌==◌, if◌then◌else◌, Option, none, some, Result, ok, err, stuck, reject_if, ◌>>=◌,
  ◌>>◌,
}
use scll_rust.Prelude.Slices.{slice}
use scll_rust.Error.{CapError}
use scll_rust.Cap.{CompLoc, loc_at}
use scll_rust.Cap.Lfdb
use scll_rust.Cap.Lfdb.{LfdbHeader, remaining}

abbrev pub lfdb_components : ℕ
lfdb_components = 11

abbrev pub method_deflate : ℕ
method_deflate = 8

abbrev pub inflate_window : ℕ
inflate_window = 32768

pub data Status : Type 0 where
  finished has_more_output needs_more_input failed : Status

-- `decompress(state, input, window, position, flags)`: the status, the numbers of octets consumed and
-- written, and the state and the window after it.
pub record Inflate : Type 1 where
  pub State : Type 0
  pub fresh : State
  pub decompress : State → List ℕ → List ℕ → ℕ → ℕ → Status × ℕ × ℕ × State × List ℕ

pub record CompCursor : Type 0 where
  pub in_pos : ℕ
  pub produced : ℕ
  pub emitted : ℕ
  pub done : Bool
  pub started : Bool

abbrev pub new_cursor : CompCursor
new_cursor = record { in_pos = 0; produced = 0; emitted = 0; done = false; started = false }

pub record LoadFileDataBlock : Type 0 where
  pub zip : List ℕ
  pub locs : List (Option CompLoc)
  pub comp : ℕ
  pub cursor : CompCursor
  pub header : LfdbHeader

-- `locs.iter().flatten().map(|c| c.uncomp_size).sum()`
unfoldable pub content_len : List (Option CompLoc) → ℕ
content_len [] = 0
content_len (none ∷ locs) = content_len locs
content_len (some c ∷ locs) = c.uncomp_size + content_len locs

unfoldable pub lfdb : List ℕ → List (Option CompLoc) → LoadFileDataBlock
lfdb zip locs = record {
  zip = zip;
  locs = locs;
  comp = 0;
  cursor = new_cursor;
  header = Lfdb.new (content_len locs);
}

abbrev pub reset_stream : LoadFileDataBlock → LoadFileDataBlock
reset_stream b = record b { comp = 0; cursor = new_cursor; header = Lfdb.reset b.header }

abbrev pub advance : LoadFileDataBlock → LoadFileDataBlock
advance b = record b { comp = b.comp + 1; cursor = new_cursor }

abbrev pub with_emitted : LoadFileDataBlock → ℕ → LoadFileDataBlock
with_emitted b n = record b { cursor = record b.cursor { emitted = b.cursor.emitted + n } }

abbrev pub component_exhausted : LoadFileDataBlock → CompLoc → Bool
component_exhausted b loc = leb loc.uncomp_size b.cursor.emitted

-- The octets written into a buffer with room for so many, and the stream after it.
unfoldable pub emit_stored :
    LoadFileDataBlock → CompLoc → ℕ → Result CapError (List ℕ × LoadFileDataBlock)
emit_stored b loc room =
    let start = loc.data_off + b.cursor.emitted in
    let n = min (min (loc.uncomp_size - b.cursor.emitted) room) (length b.zip - start) in
    slice b.zip start (start + n) >>= λ octets. ok (octets, with_emitted b n)

module _ (i : Inflate) where
  pub record InflateCtx : Type 0 where
    pub window : List ℕ
    pub state : i.State

  abbrev pub reset_inflate : InflateCtx → InflateCtx
  reset_inflate infl = record infl { state = i.fresh }

  -- The `match status`.
  abbrev pub pumped :
      Status
      → ℕ
      → ℕ
      → LoadFileDataBlock
      → InflateCtx
      → Result CapError (LoadFileDataBlock × InflateCtx)
  pumped finished consumed written b infl =
      ok (record b { cursor = record b.cursor { done = true } }, infl)
  pumped has_more_output consumed written b infl =
      if (consumed == 0) && (written == 0) then err CapError.inflate else ok (b, infl)
  pumped needs_more_input consumed written b infl =
      if (consumed == 0) && (written == 0) then err CapError.inflate else ok (b, infl)
  pumped failed consumed written b infl = err CapError.inflate

  unfoldable pub pump :
      LoadFileDataBlock → CompLoc → InflateCtx → Result CapError (LoadFileDataBlock × InflateCtx)
  pump b loc infl = do
    let comp_end = loc.data_off + loc.comp_size
    reject_if (ltb (length b.zip) comp_end || ltb comp_end (loc.data_off + b.cursor.in_pos))
        CapError.inflate
    input ← slice b.zip (loc.data_off + b.cursor.in_pos) comp_end
    let (status, consumed, written, state, window) =
        i.decompress infl.state input infl.window (b.cursor.produced % inflate_window) 0
    let cursor' = record b.cursor {
      in_pos = b.cursor.in_pos + consumed;
      produced = b.cursor.produced + written;
    }
    pumped status consumed written (record b { cursor = cursor' })
        (record { window = window; state = state })

  -- The loop of `emit_deflate`, with the number of rounds left.
  unfoldable pub inflate_into :
      ℕ
      → LoadFileDataBlock
      → CompLoc
      → InflateCtx
      → ℕ
      → Result CapError (List ℕ × LoadFileDataBlock × InflateCtx)
  inflate_into rounds b loc infl zero = ok ([], b, infl)
  inflate_into zero b loc infl (suc room) = stuck
  inflate_into (suc rounds) b loc infl (suc room) =
      let pending = b.cursor.produced - b.cursor.emitted in
      let start = b.cursor.emitted % inflate_window in
      let n = min (min pending (suc room)) (inflate_window - start) in
      let pumping = pump b loc infl >>= λ after.
      if ((after.0).cursor.produced == (after.0).cursor.emitted) && (after.0).cursor.done
      then ok ([], after.0, after.1)
      else inflate_into rounds (after.0) loc (after.1) (suc room) in
      let emitting = slice infl.window start (start + n) >>= λ octets.
      inflate_into rounds (with_emitted b n) loc infl (suc room - n) >>= λ more.
      ok (octets ++ more.0, more.1, more.2) in
      if pending == 0 then (if b.cursor.done then ok ([], b, infl) else pumping) else emitting

  unfoldable pub emit_deflate :
      ℕ
      → LoadFileDataBlock
      → CompLoc
      → InflateCtx
      → ℕ
      → Result CapError (List ℕ × LoadFileDataBlock × InflateCtx)
  emit_deflate rounds b loc infl room =
      if b.cursor.started
      then inflate_into rounds b loc infl room
      else inflate_into rounds (record b { cursor = record b.cursor { started = true } }) loc
          (reset_inflate infl) room

  -- The two branches of the `if`.
  unfoldable pub emit_component :
      LoadFileDataBlock
      → CompLoc
      → InflateCtx
      → ℕ
      → Result CapError (List ℕ × LoadFileDataBlock × InflateCtx)
  emit_component b loc infl room =
      if loc.method == method_deflate
      then emit_deflate (2 * (room + loc.comp_size) + 2) b loc infl room
      else (emit_stored b loc room >>= λ out. ok (out.0, out.1, infl))

  -- The loop of `next_block`, with the number of rounds left and the room left in the buffer.
  unfoldable pub fill :
      ℕ
      → LoadFileDataBlock
      → InflateCtx
      → ℕ
      → Result CapError (List ℕ × LoadFileDataBlock × InflateCtx)
  fill rounds b infl zero = ok ([], b, infl)
  fill zero b infl (suc room) = stuck
  fill (suc rounds) b infl (suc room) = elim (loc_at b.locs b.comp) [
    | none ↦
        if leb lfdb_components b.comp
        then ok ([], b, infl)
        else fill rounds (advance b) infl (suc room)
    | some loc ↦ emit_component b loc infl (suc room) >>= λ out.
        (let (octets, b', infl') = out in
          if component_exhausted b' loc
          then (fill rounds (advance b') infl' (suc room - length octets) >>= λ more.
              ok (octets ++ more.0, more.1, more.2))
          else if length octets == 0
          then ok (octets, b', infl')
          else (fill rounds b' infl' (suc room - length octets) >>= λ more.
              ok (octets ++ more.0, more.1, more.2)))
  ]

  unfoldable pub next_block :
      LoadFileDataBlock → InflateCtx → ℕ → Result CapError (List ℕ × LoadFileDataBlock × InflateCtx)
  next_block b infl room =
      let (front, header) = Lfdb.emit b.header room in
      fill (room + lfdb_components + 2) (record b { header = header }) infl (room - length front)
      >>= λ more. ok (front ++ more.0, more.1, more.2)
