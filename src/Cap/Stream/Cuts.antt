-- ===== src/Cap/Stream/Cuts.antt =====
-- Lists cut in two, for the stream of crates/scll-core/src/cap/mod.rs.
use scll_rust.Prelude.{
  ℕ, zero, suc, ◌+◌, ◌-◌, ◌≤◌, ◌≡◌, refl, sym, ap, ◌∙◌, List, [], ◌∷◌, ◌++◌, length, min, take,
  drop, arith,
}

suc_add : (n m : ℕ) → suc n + m ≡ suc (n + m)
suc_add n m = omega arith

pub add_one : (n : ℕ) → n + 1 ≡ suc n
add_one n = omega arith

-- Lists, cut in two.
module _ {A : Type 0} where
  pub length-take : (n : ℕ) (xs : List A) → n ≤ length xs → length (take n xs) ≡ n
  length-take zero xs h = refl
  length-take (suc n) [] h = absurd (omega (arith, h))
  length-take (suc n) (x ∷ xs) h = ap (λ k. suc k) (length-take n xs (omega (arith, h)))

  pub length-drop : (n : ℕ) (xs : List A) → length (drop n xs) ≡ length xs - n
  length-drop zero xs = omega arith
  length-drop (suc n) [] = omega arith
  length-drop (suc n) (x ∷ xs) = omega (arith, length-drop n xs)

  pub take-nil : (n : ℕ) → take {A = A} n [] ≡ []
  take-nil zero = refl
  take-nil (suc n) = refl

  pub drop-nil : (n : ℕ) → drop {A = A} n [] ≡ []
  drop-nil zero = refl
  drop-nil (suc n) = refl

  pub take-split : (n m : ℕ) (xs : List A) → take (n + m) xs ≡ take n xs ++ take m (drop n xs)
  take-split zero m xs = ap (λ k. take k xs) (omega arith)
  take-split (suc n) m [] = take-nil (suc n + m) ∙ sym (take-nil m)
  take-split (suc n) m (x ∷ xs) =
      ap (λ k. take k (x ∷ xs)) (suc_add n m) ∙ ap (λ l. x ∷ l) (take-split n m xs)

  pub drop-split : (n m : ℕ) (xs : List A) → drop (n + m) xs ≡ drop m (drop n xs)
  drop-split zero m xs = ap (λ k. drop k xs) (omega arith)
  drop-split (suc n) m [] = drop-nil (suc n + m) ∙ sym (drop-nil m)
  drop-split (suc n) m (x ∷ xs) = ap (λ k. drop k (x ∷ xs)) (suc_add n m) ∙ drop-split n m xs

  -- A part of a part.
  pub take-drop-take :
      (n e u : ℕ) (xs ys : List A)
      → u ≤ length xs
      → e + n ≤ u
      → take n (drop e (take u xs ++ ys)) ≡ take n (drop e xs)
  take-drop-take n zero u xs ys low h = under n u xs low h
    where
      under :
          (n u : ℕ) (xs : List A) → u ≤ length xs → 0 + n ≤ u → take n (take u xs ++ ys) ≡ take n xs
      under zero u xs low h = refl
      under (suc n) zero xs low h = absurd (omega (arith, h))
      under (suc n) (suc u) [] low h = absurd (omega (arith, low))
      under (suc n) (suc u) (x ∷ xs) low h =
          ap (λ l. x ∷ l) (under n u xs (omega (arith, low)) (omega (arith, h)))
  take-drop-take n (suc e) zero xs ys low h = absurd (omega (arith, h))
  take-drop-take n (suc e) (suc u) [] ys low h = absurd (omega (arith, low))
  take-drop-take n (suc e) (suc u) (x ∷ xs) ys low h =
      take-drop-take n e u xs ys (omega (arith, low)) (omega (arith, h))

  pub take-append :
      (n k : ℕ) (xs ys : List A) → k ≡ n - length xs → take n (xs ++ ys) ≡ take n xs ++ take k ys
  take-append zero k xs ys h =
      let same_1 : k ≡ 0 = omega (arith, h) in ap (λ k. take k ys) (sym same_1)
  take-append (suc n) k [] ys h =
      let same_1 : k ≡ suc n = omega (arith, h) in ap (λ k. take k ys) (sym same_1)
  take-append (suc n) k (x ∷ xs) ys h = ap (λ l. x ∷ l) (take-append n k xs ys (omega (arith, h)))

  pub drop-append :
      (n k : ℕ) (xs ys : List A) → k ≡ n - length xs → drop n (xs ++ ys) ≡ drop n xs ++ drop k ys
  drop-append zero k xs ys h =
      let same_1 : k ≡ 0 = omega (arith, h) in ap (λ k. xs ++ drop k ys) (sym same_1)
  drop-append (suc n) k [] ys h =
      let same_1 : k ≡ suc n = omega (arith, h) in ap (λ k. drop k ys) (sym same_1)
  drop-append (suc n) k (x ∷ xs) ys h = drop-append n k xs ys (omega (arith, h))

  pub take-min : (r room n : ℕ) (xs : List A) → n ≡ min r room → take room (take r xs) ≡ take n xs
  take-min r zero n xs h = let same_1 : n ≡ 0 = omega (arith, h) in ap (λ k. take k xs) (sym same_1)
  take-min zero (suc room) n xs h =
      let same_1 : n ≡ 0 = omega (arith, h) in ap (λ k. take k xs) (sym same_1)
  take-min (suc r) (suc room) n [] h = sym (take-nil n)
  take-min (suc r) (suc room) zero (x ∷ xs) h = absurd (omega (arith, h))
  take-min (suc r) (suc room) (suc n) (x ∷ xs) h =
      ap (λ l. x ∷ l) (take-min r room n xs (omega (arith, h)))

  pub drop-take :
      (r room n k : ℕ) (xs : List A)
      → n ≡ min r room
      → k ≡ r - n
      → drop room (take r xs) ≡ take k (drop n xs)
  drop-take r zero n k xs h l =
      let same_1 : n ≡ 0 = omega (arith, h) in
      let same_2 : k ≡ r = omega (arith, h, l) in
      sym (ap (λ m. take k (drop m xs)) same_1 ∙ ap (λ m. take m xs) same_2)
  drop-take zero (suc room) n k xs h l =
      let same_1 : k ≡ 0 = omega (arith, h, l) in sym (ap (λ m. take m (drop n xs)) same_1)
  drop-take (suc r) (suc room) n k [] h l = sym (ap (λ ys. take k ys) (drop-nil n) ∙ take-nil k)
  drop-take (suc r) (suc room) zero k (x ∷ xs) h l = absurd (omega (arith, h))
  drop-take (suc r) (suc room) (suc n) k (x ∷ xs) h l =
      drop-take r room n k xs (omega (arith, h)) (omega (arith, l))
