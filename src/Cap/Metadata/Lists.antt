-- ===== src/Cap/Metadata/Lists.antt =====
-- The entries of the import and applet components, in crates/scll-core/src/cap/mod.rs, are read back
-- as they were written.
use scll_rust.Prelude.{
  ℕ, suc, ◌+◌, ◌-◌, ◌≤◌, ◌<◌, ◌≡◌, refl, sym, ap, ◌∙◌, List, [], ◌∷◌, ◌++◌, length, get_elem?,
  le→leb, lt→ltb, All, map, some, Result, ok, arith, length-append, take-append_length,
  drop-append_length,
}
use mathlib.Core.List.{append_assoc, append-nil}
use scll_rust.Prelude.Slices.{get_elem?-append}
use scll_rust.Prelude.Heapless.{Heapless}
use scll_rust.Aid.{Aid, new_good}
use scll_rust.Error.{CapError}
use scll_rust.Cap.{usize_max, get_range}
use scll_rust.Cap.Metadata.{CapComponents, aid_at, import_entries, parse_imports, max_cap_imports}

-- A part whose place is known.
get_range_at :
    (front part rest : List ℕ)
    → get_range (front ++ (part ++ rest)) (length front) (length front + length part) ≡ some part
unfolding get_range
get_range_at front part rest =
    let long : length (front ++ (part ++ rest)) ≡ length front + (length part + length rest) =
      omega (arith, length-append front (part ++ rest), length-append part rest) in
    let r1 = le→leb (length front) (length front + length part) (omega arith) in
    let r2 =
      le→leb (length front + length part) (length (front ++ (part ++ rest)))
        (omega (arith, long)) in
    let size : length front + length part - length front ≡ length part = omega arith in
    rw (r1, r2, size, drop-append_length front (part ++ rest), take-append_length part rest) refl

module _ ⦃hl : Heapless⦄ where
  abbrev pub aid_with : List ℕ → Aid
  aid_with octets = record { as_bytes = octets }

  aid_at_lem :
      (front octets rest : List ℕ)
      → 5 ≤ length octets
      → length octets ≤ 16
      → length front + length octets ≤ usize_max
      → aid_at (front ++ (octets ++ rest)) (length front) (length octets)
        ≡ ok (aid_with octets, length front + length octets)
  unfolding aid_at
  aid_at_lem front octets rest low high small =
      let r = le→leb (length front + length octets) usize_max small in
      rw (r, get_range_at front octets rest, new_good octets low high) refl

  -- An entry of the import component: the version of the package, and its AID.
  pub record Package : Type 0 where
    pub minor : ℕ
    pub major : ℕ
    pub aid : List ℕ

  abbrev pub IsPackage : Package → Type 0
  IsPackage p = (5 ≤ length p.aid) × (length p.aid ≤ 16)

  -- The entries as they are written.
  unfoldable pub package_octets : List Package → List ℕ
  package_octets [] = []
  package_octets (p ∷ ps) = p.minor ∷ p.major ∷ length p.aid ∷ p.aid ++ package_octets ps

  one_import :
      (b front aid rest : List ℕ) (mi ma n : ℕ) (held : List Aid) (out : Result CapError (List Aid))
      → b ≡ front ++ (mi ∷ ma ∷ length aid ∷ aid ++ rest)
      → 5 ≤ length aid
      → length aid ≤ 16
      → length b ≤ usize_max
      → length held < 16
      → import_entries b n (length front + 3 + length aid) (held ++ (aid_with aid ∷ [])) ≡ out
      → import_entries b (suc n) (length front) held ≡ out
  unfolding import_entries
  one_import b front aid rest mi ma n held out whole low high small room later =
      let head = mi ∷ ma ∷ length aid ∷ [] in
      let front' = front ++ head in
      let split : b ≡ front' ++ (aid ++ rest) =
        whole ∙ sym (append_assoc front head (aid ++ rest)) in
      let start : length front' ≡ length front + 3 = omega (arith, length-append front head) in
      let got : get_elem? b (length front + 2) ≡ some (length aid) =
        ap (λ l. get_elem? l (length front + 2)) whole
        ∙ get_elem?-append front (mi ∷ ma ∷ length aid ∷ aid ++ rest) (length front + 2) 2 refl in
      let total : length b ≡ length front' + (length aid + length rest) = omega (
        arith,
        ap (λ l. length l) split,
        length-append front' (aid ++ rest),
        length-append aid rest,
      ) in
      let read : aid_at b (length front + 3) (length aid)
          ≡ ok (aid_with aid, length front + 3 + length aid) =
        ap (λ l. aid_at l (length front + 3) (length aid)) split
        ∙ ap (λ k. aid_at (front' ++ (aid ++ rest)) k (length aid)) (sym start)
        ∙ aid_at_lem front' aid rest low high (omega (arith, total, small))
        ∙ ap (λ k. ok (aid_with aid, k + length aid)) start in
      let r = lt→ltb (length held) 16 room in
      rw (got, read, hl.push_lem Aid 16 held (aid_with aid), r) later

  import_entries_lem :
      (b : List ℕ) (ps : List Package) (front rest : List ℕ) (held : List Aid)
      → b ≡ front ++ (package_octets ps ++ rest)
      → All IsPackage ps
      → length b ≤ usize_max
      → length held + length ps ≤ 16
      → import_entries b (length ps) (length front) held ≡ ok (held ++ map (λ p. aid_with p.aid) ps)
  unfolding import_entries package_octets
  import_entries_lem b [] front rest held whole good small room =
      ap (λ l. ok l) (sym (append-nil held))
  import_entries_lem b (p ∷ ps) front rest held whole ((low, high), good) small room =
      let head = p.minor ∷ p.major ∷ length p.aid ∷ p.aid in
      let tail = package_octets ps ++ rest in
      let here : b ≡ front ++ (p.minor ∷ p.major ∷ length p.aid ∷ p.aid ++ tail) =
        whole
        ∙ ap (λ l. front ++ (p.minor ∷ p.major ∷ length p.aid ∷ l))
            (append_assoc p.aid (package_octets ps) rest) in
      let next : b ≡ (front ++ head) ++ tail = here ∙ sym (append_assoc front head tail) in
      let at_next : length (front ++ head) ≡ length front + 3 + length p.aid =
        omega (arith, length-append front head) in
      let later =
        import_entries_lem b ps (front ++ head) rest (held ++ (aid_with p.aid ∷ [])) next good small
          (omega (arith, room, length-append held (aid_with p.aid ∷ []))) in
      one_import b front p.aid tail p.minor p.major (length ps) held _ here low high small
        (omega (arith, room))
        (ap (λ k. import_entries b (length ps) k (held ++ (aid_with p.aid ∷ []))) (sym at_next)
          ∙ later)
      ∙ ap (λ l. ok l) (append_assoc held (aid_with p.aid ∷ []) (map (λ p. aid_with p.aid) ps))

  -- An import component with up to 16 packages, whose AIDs have 5 to 16 octets, is read by
  -- `parse_imports` as these AIDs in order, whatever follows the entries, and nothing else of the
  -- components changes.
  pub parse_imports-map :
      (tag size_1 size_2 : ℕ) (ps : List Package) (rest : List ℕ) (out : CapComponents)
      → All IsPackage ps
      → length ps ≤ max_cap_imports
      → out.imports ≡ []
      → length (tag ∷ size_1 ∷ size_2 ∷ length ps ∷ package_octets ps ++ rest) ≤ usize_max
      → parse_imports (tag ∷ size_1 ∷ size_2 ∷ length ps ∷ package_octets ps ++ rest) out
        ≡ ok (record out { imports = map (λ p. aid_with p.aid) ps })
  unfolding parse_imports
  parse_imports-map tag size_1 size_2 ps rest out good few fresh small =
      let b = tag ∷ size_1 ∷ size_2 ∷ length ps ∷ package_octets ps ++ rest in
      rw
        (
          fresh,
          import_entries_lem b ps (tag ∷ size_1 ∷ size_2 ∷ length ps ∷ []) rest [] refl good small
              (omega (arith, few)),
        )
        refl
