-- ===== src/Prelude/Heapless.antt =====
-- The fixed-capacity vectors of the crate `heapless`, which is not part of the repository: a value
-- is the list of what the vector holds, and the two operations that the sources call are
-- parameters. Both append, and report an error exactly when the capacity would be exceeded.
use Prim.Native.Nat.{ℕ, ◌+◌}
use mathlib.Core.Path.{◌≡◌, refl}
use mathlib.Core.Option.{Option, none, some}
use mathlib.Core.List.{List, [], ◌∷◌, ◌++◌}
use scll_rust.Prelude.Tests.{ltb, leb, if◌then◌else◌}
use scll_rust.Prelude.Lists.{length}

pub record Heapless : Type 1 where
  -- `v.push(a)` at capacity `cap`: the vector after it, or `none` for `Err`.
  pub push : {A : Type 0} → ℕ → List A → A → Option (List A)
  -- `v.extend_from_slice(src)` at capacity `cap`.
  pub extend : {A : Type 0} → ℕ → List A → List A → Option (List A)
  pub push_lem :
      (A : Type 0) (cap : ℕ) (v : List A) (a : A)
      → push cap v a ≡ (if ltb (length v) cap then some (v ++ (a ∷ [])) else none)
  pub extend_lem :
      (A : Type 0) (cap : ℕ) (v src : List A)
      → extend cap v src ≡ (if leb (length v + length src) cap then some (v ++ src) else none)

-- A vector that keeps the documented contract.
abbrev pub plain : Heapless
plain = record {
  push = λ cap v a. if ltb (length v) cap then some (v ++ (a ∷ [])) else none;
  extend = λ cap v src. if leb (length v + length src) cap then some (v ++ src) else none;
  push_lem = λ A cap v a. refl;
  extend_lem = λ A cap v src. refl;
}
