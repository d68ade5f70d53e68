-- ===== src/Cap/Located.antt =====
-- The walk through the zip directory in crates/scll-core/src/cap/mod.rs stays within the file.
use scll_rust.Prelude.{
  ℕ, zero, suc, ◌+◌, ◌*◌, ◌≤◌, ◌<◌, ◌≡◌, ◌⊎◌, inl, inr, refl, List, [], ◌∷◌, length, All, Option,
  none, some, Result, ok, err, stuck, ok_or, arith, ◌>>=◌,
}
use scll_rust.Prelude.Slices.{index, slice}
use scll_rust.Error.{CapError, not_a_zip, malformed}
use scll_rust.Cap.{
  CompLoc, Entry, or_malformed, read_u32, find_eocd, loc_at, set_loc, no_locs, local_data_offset,
  component_index, read_entry, put_entry, note_entry, walk_entries, walk_zip,
}
use scll_rust.Cap.Eocd.{find_eocd_iff}

-- The outcome is a value with the property, or one of two errors, and never a panic.
unfoldable pub Kept {ℓ} : {A : Type ℓ} → (A → Type 0) → Result CapError A → Type 0
Kept P (ok a) = P a
Kept P (err e) = (e ≡ not_a_zip) ⊎ (e ≡ malformed)
Kept P stuck = ⊥

Kept-ok {ℓ} : {A : Type ℓ} (P : A → Type 0) (a : A) → P a → Kept P (ok a)
unfolding Kept
Kept-ok P a h = h

Kept-then {ℓ κ} :
    {A : Type ℓ} {B : Type κ} (Q : A → Type 0) (P : B → Type 0) (r : Result CapError A)
    (f : A → Result CapError B)
    → Kept Q r
    → ((a : A) → Q a → Kept P (f a))
    → Kept P (r >>= f)
unfolding Kept
Kept-then Q P (ok a) f kept on = on a kept
Kept-then Q P (err e) f kept on = kept
Kept-then Q P stuck f kept on = kept

Kept-option : {A : Type 0} (o : Option A) → Kept (λ a. o ≡ some a) (or_malformed o)
unfolding Kept
Kept-option (some a) = refl
Kept-option none = inr refl

Kept-out :
    {A : Type 0} (P : A → Type 0) (r : Result CapError A)
    → (r ≡ stuck → ⊥)
    → ((e : CapError) → r ≡ err e → e ≡ malformed)
    → ((a : A) → r ≡ ok a → P a)
    → Kept P r
unfolding Kept
Kept-out P (ok a) no_panic refused holds = holds a refl
Kept-out P (err e) no_panic refused holds = inr (refused e refl)
Kept-out P stuck no_panic refused holds = no_panic refl

Kept-index : (b : List ℕ) (i : ℕ) → i < length b → Kept (λ x. Unit {0}) (index b i)
unfolding index Kept
Kept-index [] i h = absurd (omega (arith, h))
Kept-index (x ∷ b) zero h = tt
Kept-index (x ∷ b) (suc i) h = Kept-index b i (omega (arith, h))

local_data_offset-Kept :
    (zip : List ℕ) (local_off : ℕ) → Kept (λ p. p ≤ length zip) (local_data_offset zip local_off)
unfolding local_data_offset
local_data_offset-Kept zip local_off =
    Kept-out _ (local_data_offset zip local_off) no_panic refused within
  where
    no_panic : local_data_offset zip local_off ≡ stuck → ⊥
    no_panic h = ground arith

    refused : (e : CapError) → local_data_offset zip local_off ≡ err e → e ≡ malformed
    refused e h = ground arith

    within : (p : ℕ) → local_data_offset zip local_off ≡ ok p → p ≤ length zip
    within p h = ground arith

read_entry-Kept : (zip : List ℕ) (pos : ℕ) → Kept (λ e. Unit {0}) (read_entry zip pos)
unfolding read_entry slice
read_entry-Kept zip pos = Kept-out _ (read_entry zip pos) no_panic refused (λ e h. tt)
  where
    no_panic : read_entry zip pos ≡ stuck → ⊥
    no_panic h = ground arith

    refused : (e : CapError) → read_entry zip pos ≡ err e → e ≡ malformed
    refused e h = ground arith

-- The component's data starts within the file.
abbrev pub StartsIn : List ℕ → Option CompLoc → Type 0
StartsIn zip none = Unit {0}
StartsIn zip (some loc) = loc.data_off ≤ length zip

set_loc-StartsIn :
    (zip : List ℕ) (locs : List (Option CompLoc)) (i : ℕ) (loc : CompLoc)
    → All (StartsIn zip) locs
    → loc.data_off ≤ length zip
    → All (StartsIn zip) (set_loc locs i loc)
set_loc-StartsIn zip [] i loc all here = tt
set_loc-StartsIn zip (l ∷ locs) zero loc all here = (here, all.1)
set_loc-StartsIn zip (l ∷ locs) (suc i) loc all here =
    (all.0, set_loc-StartsIn zip locs i loc all.1 here)

put_entry-Kept :
    (zip : List ℕ) (e : Entry) (idx : ℕ) (locs : List (Option CompLoc)) (held : Option CompLoc)
    → All (StartsIn zip) locs
    → Kept (All (StartsIn zip)) (put_entry zip e idx locs held)
unfolding put_entry
put_entry-Kept zip e idx locs (some held) all = Kept-ok _ _ all
put_entry-Kept zip e idx locs none all =
    Kept-then _ _ _ _ (local_data_offset-Kept zip e.local_off)
      λ data_off within. Kept-ok _ _ (set_loc-StartsIn zip locs idx _ all within)

note_entry-Kept :
    (zip : List ℕ) (e : Entry) (named : Option ℕ) (locs : List (Option CompLoc))
    → All (StartsIn zip) locs
    → Kept (All (StartsIn zip)) (note_entry zip e named locs)
unfolding note_entry
note_entry-Kept zip e none locs all = Kept-ok _ _ all
note_entry-Kept zip e (some idx) locs all = put_entry-Kept zip e idx locs (loc_at locs idx) all

walk_entries-Kept :
    (zip : List ℕ) (n pos : ℕ) (locs : List (Option CompLoc))
    → All (StartsIn zip) locs
    → Kept (All (StartsIn zip)) (walk_entries zip n pos locs)
unfolding walk_entries
walk_entries-Kept zip zero pos locs all = Kept-ok _ _ all
walk_entries-Kept zip (suc n) pos locs all = Kept-then _ _ _ _ (read_entry-Kept zip pos) λ e read.
    Kept-then _ _ _ _ (note_entry-Kept zip e (component_index e.name) locs all)
      λ locs' all'. walk_entries-Kept zip n e.next locs' all'

found_within : (zip : List ℕ) → Kept (λ i. i + 22 ≤ length zip) (ok_or (find_eocd zip) not_a_zip)
unfolding Kept
found_within zip = by_found (find_eocd zip) refl
  where
    by_found :
        (found : Option ℕ)
        → find_eocd zip ≡ found
        → Kept (λ i. i + 22 ≤ length zip) (ok_or found not_a_zip)
    by_found none h = inl refl
    by_found (some i) h =
        let (long, (low, high, signed, none_after)) = (find_eocd_iff zip i).0 h in
        omega (arith, long, high)

-- Whatever the octets are, `walk_zip` does not read out of range: it returns the error NotAZip or
-- Malformed, or locations of components whose data start within the file.
pub walk_zip-Kept : (zip : List ℕ) → Kept (All (StartsIn zip)) (walk_zip zip)
unfolding walk_zip
walk_zip-Kept zip = Kept-then _ _ _ _ (found_within zip) λ eocd within.
    Kept-then _ _ _ _ (Kept-index zip (eocd + 10) (omega (arith, within))) λ t0 read_0.
      Kept-then _ _ _ _ (Kept-index zip (eocd + 11) (omega (arith, within))) λ t1 read_1.
        Kept-then _ _ _ _ (Kept-option (read_u32 zip (eocd + 16))) λ cd_off read_2.
          walk_entries-Kept zip (t0 + t1 * 256) cd_off no_locs
            (tt, (tt, (tt, (tt, (tt, (tt, (tt, (tt, (tt, (tt, (tt, tt)))))))))))
