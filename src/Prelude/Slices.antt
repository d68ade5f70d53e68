-- ===== src/Prelude/Slices.antt =====
-- Indexing and slicing, which panic out of range: `stuck` then.
use Prim.Native.Nat.{ℕ, zero, suc, ◌+◌, ◌-◌}
use mathlib.Core.Path.{◌≡◌, refl, ap}
use mathlib.Core.Bool.{◌&&◌}
use mathlib.Core.Option.{Option, none, some}
use mathlib.Core.List.{List, [], ◌∷◌, ◌++◌}
use native.Mathlib.Omega.{arith}
use scll_rust.Prelude.Tests.{leb, if◌then◌else◌}
use scll_rust.Prelude.Lists.{
  length, get_elem?, take, drop, length-append, take-append_length, drop-append_length,
}
use scll_rust.Prelude.Results.{Result, ok, stuck}

abbrev pub in_range {ℓ} : {E : Type 0} {A : Type ℓ} → Option A → Result E A
in_range (some a) = ok a
in_range none = stuck

-- `bytes[i]`
unfoldable pub index : {E : Type 0} → List ℕ → ℕ → Result E ℕ
index bytes i = in_range (get_elem? bytes i)

-- `&bytes[from..to]`
unfoldable pub slice : {E : Type 0} → List ℕ → ℕ → ℕ → Result E (List ℕ)
slice bytes from to =
    if leb from to && leb to (length bytes) then ok (take (to - from) (drop from bytes)) else stuck

-- The slice of a part whose place is known.
pub slice_at :
    {E : Type 0} (bytes front part rest : List ℕ) (from to : ℕ)
    → bytes ≡ front ++ (part ++ rest)
    → from ≡ length front
    → to ≡ from + length part
    → slice {E = E} bytes from to ≡ ok part
unfolding slice
slice_at bytes front part rest from to e hf ht = ground (
  arith,
  length-append front (part ++ rest),
  length-append part rest,
  drop-append_length front (part ++ rest),
  take-append_length part rest,
)

pub index_at :
    {E : Type 0} (bytes : List ℕ) (i x : ℕ)
    → get_elem? bytes i ≡ some x
    → index {E = E} bytes i ≡ ok x
unfolding index
index_at bytes i x h = rw h refl

pub get_elem?-append :
    (xs ys : List ℕ) (n k : ℕ) → n ≡ length xs + k → get_elem? (xs ++ ys) n ≡ get_elem? ys k
get_elem?-append [] ys n k h = ap (get_elem? ys) (omega (arith, h))
get_elem?-append (x ∷ xs) ys zero k h = absurd (omega (arith, h))
get_elem?-append (x ∷ xs) ys (suc n) k h = get_elem?-append xs ys n k (omega (arith, h))

pub get_elem?-append_left :
    (xs ys : List ℕ) (n x : ℕ) → get_elem? xs n ≡ some x → get_elem? (xs ++ ys) n ≡ some x
get_elem?-append_left [] ys n x h = absurd (cc h)
get_elem?-append_left (y ∷ xs) ys zero x h = h
get_elem?-append_left (y ∷ xs) ys (suc n) x h = get_elem?-append_left xs ys n x h
