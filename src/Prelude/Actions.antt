-- ===== src/Prelude/Actions.antt =====
-- Operations that act on the world, that is the card, the transport and the tables of the backend:
-- they take its state, and give a result and the state after.
use mathlib.Core.Path.{◌≡◌, refl, ap}
use scll_rust.Prelude.Results.{Result, ok, err, stuck, reject_if}
use mathlib.Core.Bool.{Bool, true, false}

abbrev pub Action {ℓ} : Type 0 → Type 0 → Type ℓ → Type ℓ
Action W E A = W → Result E A × W

-- What follows an outcome.
unfoldable pub resume {ℓ κ} :
    {W E : Type 0} {A : Type ℓ} {B : Type κ} → Result E A × W → (A → Action W E B) → Result E B × W
resume (ok a, w) f = f a w
resume (err e, w) f = (err e, w)
resume (stuck, w) f = (stuck, w)

infixl 5 ◌>>=◌ ◌>>◌
abbrev pub ◌>>=◌ {ℓ κ} :
    {W E : Type 0} {A : Type ℓ} {B : Type κ} → Action W E A → (A → Action W E B) → Action W E B
(act >>= f) w = resume (act w) f

abbrev pub ◌>>◌ {ℓ} :
    {W E : Type 0} {B : Type ℓ} → Action W E (Unit {0}) → Action W E B → Action W E B
act >> k = act >>= λ _. k

-- A result that the world has no part in.
abbrev pub lift {ℓ} : {W E : Type 0} {A : Type ℓ} → Result E A → Action W E A
lift r w = (r, w)

-- The error of an outcome, and of an action, under another name.
unfoldable pub rename {ℓ} :
    {W E F : Type 0} {A : Type ℓ} → (E → F) → Result E A × W → Result F A × W
rename f (ok a, w) = (ok a, w)
rename f (err e, w) = (err (f e), w)
rename f (stuck, w) = (stuck, w)

abbrev pub map_error {ℓ} : {W E F : Type 0} {A : Type ℓ} → (E → F) → Action W E A → Action W F A
map_error f act w = rename f (act w)

module _ {ℓ} {W E : Type 0} {A : Type ℓ} where
  -- A chain of actions that succeeds has gone through its first action.
  pub went_on {κ} :
      {B : Type κ} (out : Result E A × W) (f : A → Action W E B) (b : B) (w' : W)
      → resume out f ≡ (ok b, w')
      → (a : A) × (w : W) × (out ≡ (ok a, w)) × (f a w ≡ (ok b, w'))
  unfolding resume
  went_on (ok a, w) f b w' h = (a, w, refl, h)
  went_on (err e, w) f b w' h = absurd (cc (ap (λ o. o.0) h))
  went_on (stuck, w) f b w' h = absurd (cc (ap (λ o. o.0) h))

  pub rename-ok :
      {F : Type 0} (f : E → F) (out : Result E A × W) (a : A) (w : W)
      → rename f out ≡ (ok a, w)
      → out ≡ (ok a, w)
  unfolding rename
  rename-ok f (ok a', w') a w h =
      let same : a' ≡ a = cc (ap (λ o. o.0) h) in
      let world : w' ≡ w = ap (λ o. o.1) h in rw (same, world) refl
  rename-ok f (err e, w') a w h = absurd (cc (ap (λ o. o.0) h))
  rename-ok f (stuck, w') a w h = absurd (cc (ap (λ o. o.0) h))

pub not_rejected :
    {W E : Type 0} (c : Bool) (e : E) (w w' : W) (u : Unit {0})
    → Path (Result E (Unit {0}) × W) (reject_if c e, w) (ok u, w')
    → (c ≡ false) × (w ≡ w')
not_rejected true e w w' u h = absurd (cc (ap (λ o. o.0) h))
not_rejected false e w w' u h = (refl, ap (λ o. o.1) h)

module _ {ℓ} {W E : Type 0} {B : Type ℓ} where
  pub went_on_lift {κ} :
      {A : Type κ} (r : Result E A) (w : W) (f : A → Action W E B) (b : B) (w' : W)
      → resume (r, w) f ≡ (ok b, w')
      → (a : A) × (r ≡ ok a) × (f a w ≡ (ok b, w'))
  unfolding resume
  went_on_lift (ok a) w f b w' h = (a, refl, h)
  went_on_lift (err e) w f b w' h = absurd (cc (ap (λ o. o.0) h))
  went_on_lift stuck w f b w' h = absurd (cc (ap (λ o. o.0) h))

  pub went_on_guard :
      (c : Bool) (e : E) (w : W) (f : Unit {0} → Action W E B) (b : B) (w' : W)
      → resume (reject_if c e, w) f ≡ (ok b, w')
      → (c ≡ false) × (f tt w ≡ (ok b, w'))
  unfolding resume
  went_on_guard true e w f b w' h = absurd (cc (ap (λ o. o.0) h))
  went_on_guard false e w f b w' h = (refl, h)

  pub went_on_renamed {κ} :
      {D : Type 0} {A : Type κ} (g : D → E) (out : Result D A × W) (f : A → Action W E B) (b : B)
      (w' : W)
      → resume (rename g out) f ≡ (ok b, w')
      → (a : A) × (w : W) × (out ≡ (ok a, w)) × (f a w ≡ (ok b, w'))
  unfolding resume rename
  went_on_renamed g (ok a, w) f b w' h = (a, w, refl, h)
  went_on_renamed g (err e, w) f b w' h = absurd (cc (ap (λ o. o.0) h))
  went_on_renamed g (stuck, w) f b w' h = absurd (cc (ap (λ o. o.0) h))
