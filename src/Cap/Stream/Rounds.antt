-- ===== src/Cap/Stream/Rounds.antt =====
-- The loop of `next_block` in crates/scll-core/src/cap/mod.rs, over stored components.
use scll_rust.Prelude.{
  ℕ, zero, suc, ◌+◌, ◌-◌, ◌≤◌, ◌<◌, ◌≡◌, inl, inr, refl, sym, ap, ◌∙◌, List, [], ◌∷◌, ◌++◌, length,
  min, take, drop, leb, le→leb, leb→le, true, false, ◌==◌, Option, none, some, Result, ok, arith,
  Bool-cases,
}
use scll_rust.Error.{CapError}
use scll_rust.Cap.{CompLoc, loc_at}
use scll_rust.Cap.Lfdb.{LfdbHeader}
use scll_rust.Cap.Stream.{
  Inflate, InflateCtx, LoadFileDataBlock, lfdb_components, advance, with_emitted, emit_component,
  fill,
}
use scll_rust.Cap.Stream.Cuts.{drop-nil, take-split, drop-split}
use scll_rust.Cap.Stream.Stored.{
  contents, IsStored, AllStored, At, left, loc_at-drop, loc_at_end, emit_stored_lem, At-advance,
  left-next, length-left,
}

module _ (i : Inflate) (infl : InflateCtx i) where
  -- One round of the loop, by what it finds.
  fill_absent :
      (rounds room : ℕ) (b : LoadFileDataBlock)
      (out : Result CapError (List ℕ × LoadFileDataBlock × InflateCtx i))
      → loc_at b.locs b.comp ≡ none
      → leb lfdb_components b.comp ≡ false
      → fill i rounds (advance b) infl (suc room) ≡ out
      → fill i (suc rounds) b infl (suc room) ≡ out
  unfolding fill
  fill_absent rounds room b out absent more later = rw (fill, absent, more) later

  fill_end :
      (rounds room : ℕ) (b : LoadFileDataBlock)
      → loc_at b.locs b.comp ≡ none
      → leb lfdb_components b.comp ≡ true
      → fill i (suc rounds) b infl (suc room) ≡ ok ([], b, infl)
  unfolding fill
  fill_end rounds room b absent no_more = rw (fill, absent, no_more) refl

  fill_done :
      (rounds room : ℕ) (b b' b'' : LoadFileDataBlock) (loc : CompLoc) (octets more : List ℕ)
      → loc_at b.locs b.comp ≡ some loc
      → emit_component i b loc infl (suc room) ≡ ok (octets, b', infl)
      → leb loc.uncomp_size b'.cursor.emitted ≡ true
      → fill i rounds (advance b') infl (suc room - length octets) ≡ ok (more, b'', infl)
      → fill i (suc rounds) b infl (suc room) ≡ ok (octets ++ more, b'', infl)
  unfolding fill
  fill_done rounds room b b' b'' loc octets more found emitted exhausted later =
      rw (fill, found, emitted, exhausted, later) refl

  fill_part :
      (rounds room : ℕ) (b b' b'' : LoadFileDataBlock) (loc : CompLoc) (octets more : List ℕ)
      → loc_at b.locs b.comp ≡ some loc
      → emit_component i b loc infl (suc room) ≡ ok (octets, b', infl)
      → leb loc.uncomp_size b'.cursor.emitted ≡ false
      → (length octets == 0) ≡ false
      → fill i rounds b' infl (suc room - length octets) ≡ ok (more, b'', infl)
      → fill i (suc rounds) b infl (suc room) ≡ ok (octets ++ more, b'', infl)
  unfolding fill
  fill_part rounds room b b' b'' loc octets more found emitted open_ progress later =
      rw (fill, found, emitted, open_, progress, later) refl

  emit_component_lem :
      (b : LoadFileDataBlock) (loc : CompLoc) (room n : ℕ) (ls : List (Option CompLoc))
      → IsStored b.zip (some loc)
      → b.cursor.emitted ≤ loc.uncomp_size
      → n ≡ min (loc.uncomp_size - b.cursor.emitted) room
      → emit_component i b loc infl room
        ≡ ok (take n (left b (some loc ∷ ls)), with_emitted b n, infl)
  unfolding emit_component
  emit_component_lem b loc room n ls (plain, inside) within size =
      rw (plain, emit_stored_lem b loc room n ls inside within size) refl

  fill_none : (rounds : ℕ) (b : LoadFileDataBlock) → fill i rounds b infl zero ≡ ok ([], b, infl)
  unfolding fill
  fill_none zero b = refl
  fill_none (suc rounds) b = refl

  -- The outcome has the next octets of the load file, as many as there is room for, and the stream
  -- stands behind them.
  abbrev pub Streams :
      List ℕ → LfdbHeader → ℕ → Result CapError (List ℕ × LoadFileDataBlock × InflateCtx i) → Type 0
  Streams file header room out =
      (b' : LoadFileDataBlock) × (ls' : List (Option CompLoc)) × (out
        ≡ ok (take room file, b', infl))
      × At b' ls'
      × (left b' ls' ≡ drop room file)
      × (b'.header ≡ header)

  -- Some octets are written, and then the rest of the room is filled.
  Streams-split :
      (file rest : List ℕ) (header : LfdbHeader) (n room : ℕ)
      (out_1 out : Result CapError (List ℕ × LoadFileDataBlock × InflateCtx i))
      → n ≤ room
      → rest ≡ drop n file
      → ((b' : LoadFileDataBlock) (more : List ℕ)
          → out_1 ≡ ok (more, b', infl)
          → out ≡ ok (take n file ++ more, b', infl))
      → Streams rest header (room - n) out_1
      → Streams file header room out
  Streams-split file rest header n room out_1 out fits next on (b', ls', done, at_, behind, kept) =
      let whole : n + (room - n) ≡ room = omega (arith, fits) in
      let octets : take n file ++ take (room - n) rest ≡ take room file =
        ap (λ l. take n file ++ take (room - n) l) next
        ∙ sym (take-split n (room - n) file)
        ∙ ap (λ k. take k file) whole in
      (
        b',
        ls',
        on b' (take (room - n) rest) done ∙ ap (λ l. ok (l, b', infl)) octets,
        at_,
        behind
            ∙ ap (λ l. drop (room - n) l) next
            ∙ sym (drop-split n (room - n) file)
            ∙ ap (λ k. drop k file) whole,
        kept,
      )

  left_nil : (b : LoadFileDataBlock) → left b [] ≡ []
  unfolding contents
  left_nil b = drop-nil b.cursor.emitted

  left_absent :
      (b : LoadFileDataBlock) (ls : List (Option CompLoc))
      → b.cursor.emitted ≡ 0
      → contents b.zip ls ≡ left b (none ∷ ls)
  unfolding contents
  left_absent b ls fresh = sym (ap (λ k. drop k (contents b.zip ls)) fresh)

  left_more :
      (b : LoadFileDataBlock) (n : ℕ) (ls : List (Option CompLoc))
      → left (with_emitted b n) ls ≡ drop n (left b ls)
  left_more b n ls = drop-split b.cursor.emitted n (contents b.zip ls)

  -- One component, for the room that there is.
  fill-some :
      (rounds room : ℕ) (b : LoadFileDataBlock) (loc : CompLoc) (ls : List (Option CompLoc))
      → At b (some loc ∷ ls)
      → ((b' : LoadFileDataBlock) (ls' : List (Option CompLoc)) (room' : ℕ)
          → At b' ls'
          → room' + length ls' ≤ room + length (some loc ∷ ls)
          → Streams (left b' ls') b'.header room' (fill i rounds b' infl room'))
      → Streams (left b (some loc ∷ ls)) b.header (suc room) (fill i (suc rounds) b infl (suc room))
  unfolding AllStored
  fill-some rounds room b loc ls at_ later =
      let ((plain, inside), stored) = at_.stored in
      let e = b.cursor.emitted in
      let n = min (loc.uncomp_size - e) (suc room) in
      let found = (loc_at-drop b.locs b.comp (some loc) ls at_.rest).0 in
      let emitted = emit_component_lem b loc (suc room) n ls (plain, inside) at_.within refl in
      let size = length-left b loc ls n inside (omega (arith, at_.within)) in
      elim (Bool-cases (leb loc.uncomp_size (e + n))) [
        | inl over ↦
            let all : e + n ≡ loc.uncomp_size = omega (arith, leb→le _ _ over, at_.within) in
            Streams-split _ (contents b.zip ls) b.header n (suc room) _ _ (omega arith)
              (sym (left-next b loc ls n inside all))
              (λ b' more h.
                fill_done rounds room b (with_emitted b n) b' loc _ more found emitted over (
                  ap (λ k. fill i rounds (advance (with_emitted b n)) infl (suc room - k)) size
                  ∙ h))
              (later (advance (with_emitted b n)) ls (suc room - n)
                (At-advance (with_emitted b n) (some loc) ls at_.rest at_.count stored)
                (omega arith))
        | inr short ↦
            let some_written : (length (take n (left b (some loc ∷ ls))) == 0) ≡ false =
              ground (arith, size, short, at_.within) in
            Streams-split _ (left (with_emitted b n) (some loc ∷ ls)) b.header n (suc room) _ _
              (omega arith) (left_more b n (some loc ∷ ls))
              (λ b' more h.
                fill_part rounds room b (with_emitted b n) b' loc _ more found emitted short
                  some_written
                  (ap (λ k. fill i rounds (with_emitted b n) infl (suc room - k)) size ∙ h))
              (later (with_emitted b n) (some loc ∷ ls) (suc room - n)
                (record {
                  rest = at_.rest;
                  count = at_.count;
                  stored = at_.stored;
                  within = omega (arith, at_.within);
                })
                (ground (arith, short, at_.within)))
      ]

  pub fill-Streams :
      (rounds room : ℕ) (b : LoadFileDataBlock) (ls : List (Option CompLoc))
      → At b ls
      → room + length ls < rounds
      → Streams (left b ls) b.header room (fill i rounds b infl room)
  unfolding AllStored
  fill-Streams rounds zero b ls at_ enough = (b, ls, fill_none rounds b, at_, refl, refl)
  fill-Streams zero (suc room) b ls at_ enough = absurd (omega (arith, enough))
  fill-Streams (suc rounds) (suc room) b [] at_ enough =
      let absent = loc_at_end b.locs b.comp at_.rest in
      let over = le→leb lfdb_components b.comp (omega (arith, at_.count)) in
      (
        b,
        [],
        fill_end rounds room b absent over
            ∙ ap (λ l. ok (take (suc room) l, b, infl)) (sym (left_nil b)),
        at_,
        left_nil b ∙ ap (λ l. drop (suc room) l) (sym (left_nil b)),
        refl,
      )
  fill-Streams (suc rounds) (suc room) b (none ∷ ls) at_ enough =
      let absent = (loc_at-drop b.locs b.comp none ls at_.rest).0 in
      let more : leb lfdb_components b.comp ≡ false = ground (arith, at_.count) in
      let next = At-advance b none ls at_.rest at_.count (at_.stored.1) in
      let (b', ls', done, at', behind, kept) =
        fill-Streams rounds (suc room) (advance b) ls next (omega (arith, enough)) in
      let same = left_absent b ls at_.within in
      (
        b',
        ls',
        fill_absent rounds room b _ absent more done
            ∙ ap (λ l. ok (take (suc room) l, b', infl)) same,
        at',
        behind ∙ ap (λ l. drop (suc room) l) same,
        kept,
      )
  fill-Streams (suc rounds) (suc room) b (some loc ∷ ls) at_ enough =
      fill-some rounds room b loc ls at_
        λ b' ls' room' at' fits. fill-Streams rounds room' b' ls' at' (omega (arith, enough, fits))
