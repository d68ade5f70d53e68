-- ===== src/Session/Name.antt =====
-- The name of the application in the data of SELECT, which `fci_df_name` of
-- crates/scll-core/src/workflow/session.rs looks up.
use scll_rust.Prelude.{
  ℕ, ◌≡◌, ◌↔◌, ◌⊎◌, inl, inr, refl, ap, List, [], ◌∷◌, All, is_empty, Bool, true, false, ◌==◌,
  ==_iff, Option, none, some, Result, ok, err, stuck, arith, Bool-cases,
}
use scll_rust.Prelude.Heapless.{Heapless}
use scll_rust.Tlv.{Tlv, TlvError, parse}
use scll_rust.Session.Parts.{find, fci_df_name}

-- The value of the first object with the tag.
abbrev pub First : ℕ → List Tlv → List ℕ → Type 0
First tag [] v = ⊥
First tag (o ∷ objects) v =
    ((o.tag ≡ tag) × (o.value ≡ v)) ⊎ ((o.tag ≡ tag → ⊥) × First tag objects v)

-- No object has the tag.
abbrev pub Lacks : ℕ → List Tlv → Type 0
Lacks tag objects = All (λ o. o.tag ≡ tag → ⊥) objects

find-First :
    (objects : List Tlv) (tag : ℕ) (v : List ℕ) → (find objects tag ≡ some v) ↔ First tag objects v
unfolding find
find-First [] tag v = ((λ h. absurd (cc h)), λ h. absurd h)
find-First (o ∷ objects) tag v = elim (Bool-cases (o.tag == tag)) [
  | inl same ↦ rw (same) (
    (λ h. inl ((==_iff o.tag tag).0 same, cc h)),
    λ h. elim h [
      | inl here ↦ ap (λ x. some x) here.1
      | inr later ↦ absurd (later.0 ((==_iff o.tag tag).0 same))
    ],
  )
  | inr other ↦ rw (other) (
    (λ h.
        inr (
          (λ same. absurd (cc (other, (==_iff o.tag tag).1 same))),
          (find-First objects tag v).0 h,
        )),
    λ h. elim h [
      | inl here ↦ absurd (cc (other, (==_iff o.tag tag).1 here.0))
      | inr later ↦ (find-First objects tag v).1 later.1
    ],
  )
]

find-Lacks : (objects : List Tlv) (tag : ℕ) → (find objects tag ≡ none) ↔ Lacks tag objects
unfolding find
find-Lacks [] tag = ((λ h. tt), λ h. refl)
find-Lacks (o ∷ objects) tag = elim (Bool-cases (o.tag == tag)) [
  | inl same ↦ rw (same) ((λ h. absurd (cc h)), λ h. absurd (h.0 ((==_iff o.tag tag).0 same)))
  | inr other ↦ rw (other) (
    (λ h. ((λ same. absurd (cc (other, (==_iff o.tag tag).1 same))), (find-Lacks objects tag).0 h)),
    λ h. (find-Lacks objects tag).1 h.1,
  )
]

module _ ⦃hl : Heapless⦄ where
  -- The data name the application: the template '6F' has the object '84', or there is no template and
  -- the data have it themselves.
  abbrev pub Names : List ℕ → List ℕ → Type 0
  Names fci name =
      (top : List Tlv) × (parse fci ≡ ok top)
      × (((inner : List ℕ) × (objects : List Tlv) × First 0x6F top inner
            × (parse inner ≡ ok objects)
            × First 0x84 objects name)
          ⊎ (Lacks 0x6F top × First 0x84 top name))

  named_within :
      (fci name inner : List ℕ) (top : List Tlv)
      → is_empty fci ≡ false
      → parse fci ≡ ok top
      → find top 0x6F ≡ some inner
      → fci_df_name fci ≡ ok (some name)
      → (objects : List Tlv) × (parse inner ≡ ok objects) × (find objects 0x84 ≡ some name)
  unfolding fci_df_name
  named_within fci name inner top full parsed found h = by_inner (parse inner) refl
    where
      by_inner :
          (r : Result TlvError (List Tlv))
          → parse inner ≡ r
          → (objects : List Tlv) × (parse inner ≡ ok objects) × (find objects 0x84 ≡ some name)
      by_inner (ok objects) e = (objects, e, ground (arith, h))
      by_inner (err x) e = absurd (ground (arith, h))
      by_inner stuck e = absurd (ground (arith, h))

  named_flat :
      (fci name : List ℕ) (top : List Tlv)
      → is_empty fci ≡ false
      → parse fci ≡ ok top
      → find top 0x6F ≡ none
      → fci_df_name fci ≡ ok (some name)
      → find top 0x84 ≡ some name
  unfolding fci_df_name
  named_flat fci name top full parsed missing h = ground (arith, h)

  -- `fci_df_name` gives a name exactly if the data name the application.
  fci_df_name-Names : (fci name : List ℕ) → fci_df_name fci ≡ ok (some name) → Names fci name
  unfolding fci_df_name
  fci_df_name-Names fci name h = by_top (parse fci) (is_empty fci) refl refl
    where
      by_template :
          (top : List Tlv) (found : Option (List ℕ))
          → is_empty fci ≡ false
          → parse fci ≡ ok top
          → find top 0x6F ≡ found
          → Names fci name
      by_template top (some inner) full parsed found =
          let (objects, within, named) = named_within fci name inner top full parsed found h in
          (
            top,
            parsed,
            inl (
              inner,
              objects,
              (find-First top 0x6F inner).0 found,
              within,
              (find-First objects 0x84 name).0 named,
            ),
          )
      by_template top none full parsed found = (
        top,
        parsed,
        inr (
          (find-Lacks top 0x6F).0 found,
          (find-First top 0x84 name).0 (named_flat fci name top full parsed found h),
        ),
      )

      by_top :
          (r : Result TlvError (List Tlv)) (e : Bool)
          → parse fci ≡ r
          → is_empty fci ≡ e
          → Names fci name
      by_top r true parsed empty = absurd (ground (arith, h))
      by_top (ok top) false parsed full = by_template top (find top 0x6F) full parsed refl
      by_top (err x) false parsed full = absurd (ground (arith, h))
      by_top stuck false parsed full = absurd (ground (arith, h))

  no_name_in_nothing : (name : List ℕ) → Names [] name → ⊥
  unfolding parse
  no_name_in_nothing name (top, parsed, named) =
      let none_there : top ≡ [] = cc parsed in
      elim (rw (none_there) at named) [
        | inl (inner, objects, template, within, value) ↦ template
        | inr (lacks, flat) ↦ flat
      ]

  Names-fci_df_name : (fci name : List ℕ) → Names fci name → fci_df_name fci ≡ ok (some name)
  unfolding fci_df_name
  Names-fci_df_name [] name named = absurd (no_name_in_nothing name named)
  Names-fci_df_name (b ∷ bs) name (top, parsed, inl (inner, objects, template, within, named)) =
      let t = (find-First top 0x6F inner).1 template in
      let n = (find-First objects 0x84 name).1 named in ground arith
  Names-fci_df_name (b ∷ bs) name (top, parsed, inr (lacks, flat)) =
      let t = (find-Lacks top 0x6F).1 lacks in
      let n = (find-First top 0x84 name).1 flat in ground arith

  pub fci_df_name_iff : (fci name : List ℕ) → (fci_df_name fci ≡ ok (some name)) ↔ Names fci name
  fci_df_name_iff fci name = (fci_df_name-Names fci name, Names-fci_df_name fci name)
