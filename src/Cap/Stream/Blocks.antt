-- ===== src/Cap/Stream/Blocks.antt =====
-- `next_block` of crates/scll-core/src/cap/mod.rs, over stored components.
use scll_rust.Prelude.{
  ℕ, ◌+◌, ◌-◌, ◌≤◌, ◌≡◌, refl, sym, ap, ◌∙◌, List, ◌++◌, length, min, take, drop, Option, ok, arith,
}
use scll_rust.Cap.{CompLoc}
use scll_rust.Cap.Lfdb.{LfdbHeader, remaining}
use scll_rust.Cap.Stream.{Inflate, InflateCtx, LoadFileDataBlock, lfdb_components, next_block}
use scll_rust.Cap.Stream.Cuts.{
  length-take, length-drop, drop-split, take-append, drop-append, take-min, drop-take,
}
use scll_rust.Cap.Stream.Stored.{At, left}
use scll_rust.Cap.Lfdb.{emit}
use scll_rust.Cap.Stream.Rounds.{fill-Streams}

-- The part of the header that is still to come.
abbrev pub announced : LfdbHeader → List ℕ
announced h = take (remaining h) (drop h.emitted h.buf)

abbrev pub IsHeader : LfdbHeader → Type 0
IsHeader h = (h.emitted ≤ h.len) × (h.len ≤ length h.buf)

-- All octets that are still to come, the header first.
abbrev pub to_come : LoadFileDataBlock → List (Option CompLoc) → List ℕ
to_come b ls = announced b.header ++ left b ls

length-announced : (h : LfdbHeader) → IsHeader h → length (announced h) ≡ remaining h
length-announced h (low, high) =
    length-take (remaining h) (drop h.emitted h.buf)
      (omega (arith, low, high, length-drop h.emitted h.buf))

emit_lem :
    (h : LfdbHeader) (room : ℕ)
    → IsHeader h
    → ((emit h room).0 ≡ take room (announced h))
      × (length (emit h room).0 ≡ min (remaining h) room)
      × (announced ((emit h room).1) ≡ drop room (announced h))
      × IsHeader ((emit h room).1)
unfolding emit
emit_lem h room (low, high) =
    let n = min (remaining h) room in
    let rest = drop h.emitted h.buf in
    (
      sym (take-min (remaining h) room n rest refl),
      length-take n rest (omega (arith, low, high, length-drop h.emitted h.buf)),
      sym (
          drop-take (remaining h) room n (h.len - (h.emitted + n)) rest refl (omega arith)
          ∙ ap (λ l. take (h.len - (h.emitted + n)) l) (sym (drop-split h.emitted n h.buf))),
      (omega (arith, low), high),
    )

module _ (i : Inflate) (infl : InflateCtx i) where
  -- For a stream of stored components that lie within the file, `next_block` never fails or panics: it
  -- writes the next octets of the header and the components, in order, as many as there is room for
  -- and as there are, and leaves a stream that stands right behind them.
  pub next_block-take :
      (room : ℕ) (b : LoadFileDataBlock) (ls : List (Option CompLoc))
      → At b ls
      → IsHeader b.header
      → (b' : LoadFileDataBlock) × (ls' : List (Option CompLoc)) × (next_block i b infl room
          ≡ ok (take room (to_come b ls), b', infl))
        × At b' ls'
        × IsHeader b'.header
        × (to_come b' ls' ≡ drop room (to_come b ls))
  unfolding next_block
  next_block-take room b ls at_ sound =
      let (front, size, after, sound') = emit_lem b.header room sound in
      let header = (emit b.header room).1 in
      let k = room - length (emit b.header room).0 in
      let gap : k ≡ room - length (announced b.header) =
        omega (arith, size, length-announced b.header sound) in
      let moved : At (record b { header = header }) ls = record {
        rest = at_.rest;
        count = at_.count;
        stored = at_.stored;
        within = at_.within;
      } in
      let (b', ls', done, at', behind, kept) =
        fill-Streams i infl (room + lfdb_components + 2) k (record b { header = header }) ls moved
          (omega (arith, at_.count)) in
      (
        b',
        ls',
        rw (done) (
            ap (λ l. ok (l, b', infl))
              (ap (λ l. l ++ take k (left b ls)) front
                ∙ sym (take-append room k (announced b.header) (left b ls) gap))),
        at',
        rw (kept) sound',
        ap (λ h. announced h ++ left b' ls') kept
            ∙ ap (λ l. l ++ left b' ls') after
            ∙ ap (λ l. drop room (announced b.header) ++ l) behind
            ∙ sym (drop-append room k (announced b.header) (left b ls) gap),
      )
