-- ===== src/Cap/Stream/Stored.antt =====
-- The stream of the Load File Data Block in crates/scll-core/src/cap/mod.rs, where the components are
-- stored without compression: what they contribute, and how `emit_stored` writes it.
use scll_rust.Prelude.{
  ℕ, zero, suc, ◌+◌, ◌-◌, ◌≤◌, ◌≡◌, refl, sym, ap, ◌∙◌, List, [], ◌∷◌, ◌++◌, length, min, take,
  drop, le→leb, false, ◌==◌, Option, none, some, ok, arith, length-append, drop-append_length,
}
use scll_rust.Prelude.Slices.{slice}
use scll_rust.Cap.{CompLoc, loc_at}
use scll_rust.Cap.Stream.{
  LoadFileDataBlock, method_deflate, lfdb_components, advance, with_emitted, emit_stored,
}
use scll_rust.Cap.Stream.Cuts.{add_one, length-take, length-drop, drop-split, take-drop-take}

-- What the components contribute to the load file, in order.
unfoldable pub contents : List ℕ → List (Option CompLoc) → List ℕ
contents zip [] = []
contents zip (none ∷ locs) = contents zip locs
contents zip (some loc ∷ locs) = take loc.uncomp_size (drop loc.data_off zip) ++ contents zip locs

-- The component is stored, and lies within the file.
abbrev pub IsStored : List ℕ → Option CompLoc → Type 0
IsStored zip none = Unit {0}
IsStored zip (some loc) =
    ((loc.method == method_deflate) ≡ false) × (loc.data_off + loc.uncomp_size ≤ length zip)

-- Not more was written of the component than it has.
abbrev pub Within : List (Option CompLoc) → ℕ → Type 0
Within [] e = e ≡ 0
Within (none ∷ locs) e = e ≡ 0
Within (some loc ∷ locs) e = e ≤ loc.uncomp_size

unfoldable pub AllStored : List ℕ → List (Option CompLoc) → Type 0
AllStored zip [] = Unit {0}
AllStored zip (l ∷ locs) = IsStored zip l × AllStored zip locs

-- The components that remain, and how the stream stands in them.
pub record At (b : LoadFileDataBlock) (ls : List (Option CompLoc)) : Type 0 where
  pub rest : drop b.comp b.locs ≡ ls
  pub count : b.comp + length ls ≡ lfdb_components
  pub stored : AllStored b.zip ls
  pub within : Within ls b.cursor.emitted

-- The octets of the load file that are still to come.
abbrev pub left : LoadFileDataBlock → List (Option CompLoc) → List ℕ
left b ls = drop b.cursor.emitted (contents b.zip ls)

pub loc_at-drop :
    (locs : List (Option CompLoc)) (i : ℕ) (l : Option CompLoc) (ls : List (Option CompLoc))
    → drop i locs ≡ l ∷ ls
    → (loc_at locs i ≡ l) × (drop (suc i) locs ≡ ls)
loc_at-drop [] zero l ls h = absurd (cc h)
loc_at-drop [] (suc i) l ls h = absurd (cc h)
loc_at-drop (x ∷ locs) zero l ls h = (cc h, cc h)
loc_at-drop (x ∷ locs) (suc i) l ls h = loc_at-drop locs i l ls h

pub loc_at_end : (locs : List (Option CompLoc)) (i : ℕ) → drop i locs ≡ [] → loc_at locs i ≡ none
loc_at_end [] i h = refl
loc_at_end (x ∷ locs) zero h = absurd (cc h)
loc_at_end (x ∷ locs) (suc i) h = loc_at_end locs i h

-- The stored octets that `emit_stored` writes.
pub emit_stored_lem :
    (b : LoadFileDataBlock) (loc : CompLoc) (room n : ℕ) (ls : List (Option CompLoc))
    → loc.data_off + loc.uncomp_size ≤ length b.zip
    → b.cursor.emitted ≤ loc.uncomp_size
    → n ≡ min (loc.uncomp_size - b.cursor.emitted) room
    → emit_stored b loc room ≡ ok (take n (left b (some loc ∷ ls)), with_emitted b n)
unfolding emit_stored slice contents
emit_stored_lem b loc room n ls inside within size =
    let e = b.cursor.emitted in
    let start = loc.data_off + e in
    let count : min (min (loc.uncomp_size - e) room) (length b.zip - start) ≡ n =
      omega (arith, inside, within, size) in
    let r1 = le→leb start (start + n) (omega arith) in
    let r2 = le→leb (start + n) (length b.zip) (omega (arith, inside, within, size)) in
    let gap : start + n - start ≡ n = omega arith in
    let z = drop loc.data_off b.zip in
    let same : take n (drop e (take loc.uncomp_size z ++ contents b.zip ls))
        ≡ take n (drop start b.zip) =
      take-drop-take n e loc.uncomp_size z (contents b.zip ls)
        (omega (arith, inside, length-drop loc.data_off b.zip)) (omega (arith, within, size))
      ∙ ap (λ l. take n l) (sym (drop-split loc.data_off e b.zip)) in
    rw (count, r1, r2, gap, same) refl

pub Within-start : (ls : List (Option CompLoc)) → Within ls 0
Within-start [] = refl
Within-start (none ∷ ls) = refl
Within-start (some loc ∷ ls) = omega arith

-- The stream after it has passed on to the next component.
pub At-advance :
    (b : LoadFileDataBlock) (l : Option CompLoc) (ls : List (Option CompLoc))
    → drop b.comp b.locs ≡ l ∷ ls
    → b.comp + length (l ∷ ls) ≡ lfdb_components
    → AllStored b.zip ls
    → At (advance b) ls
At-advance b l ls rest count stored = record {
  rest = ap (λ k. drop k b.locs) (add_one b.comp) ∙ (loc_at-drop b.locs b.comp l ls rest).1;
  count = omega (arith, count);
  stored = stored;
  within = Within-start ls;
}

-- What is left once the component is done.
pub left-next :
    (b : LoadFileDataBlock) (loc : CompLoc) (ls : List (Option CompLoc)) (n : ℕ)
    → loc.data_off + loc.uncomp_size ≤ length b.zip
    → b.cursor.emitted + n ≡ loc.uncomp_size
    → drop n (left b (some loc ∷ ls)) ≡ contents b.zip ls
unfolding contents
left-next b loc ls n inside all =
    let part = take loc.uncomp_size (drop loc.data_off b.zip) in
    let size : length part ≡ loc.uncomp_size =
      length-take loc.uncomp_size (drop loc.data_off b.zip)
        (omega (arith, inside, length-drop loc.data_off b.zip)) in
    sym (drop-split b.cursor.emitted n (part ++ contents b.zip ls))
    ∙ ap (λ k. drop k (part ++ contents b.zip ls)) (all ∙ sym size)
    ∙ drop-append_length part (contents b.zip ls)

pub length-left :
    (b : LoadFileDataBlock) (loc : CompLoc) (ls : List (Option CompLoc)) (n : ℕ)
    → loc.data_off + loc.uncomp_size ≤ length b.zip
    → b.cursor.emitted + n ≤ loc.uncomp_size
    → length (take n (left b (some loc ∷ ls))) ≡ n
unfolding contents
length-left b loc ls n inside fits =
    let part = take loc.uncomp_size (drop loc.data_off b.zip) in
    let size : length part ≡ loc.uncomp_size =
      length-take loc.uncomp_size (drop loc.data_off b.zip)
        (omega (arith, inside, length-drop loc.data_off b.zip)) in
    length-take n (left b (some loc ∷ ls)) (
      omega (
        arith,
        fits,
        size,
        length-append part (contents b.zip ls),
        length-drop b.cursor.emitted (part ++ contents b.zip ls),
      ))
