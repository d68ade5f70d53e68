-- ===== src/Cap/Eocd.antt =====
-- The search for the end of the directory in crates/scll-core/src/cap/mod.rs.
use scll_rust.Prelude.{
  ℕ, zero, suc, ◌-◌, ◌≤◌, ◌<◌, ◌≡◌, ◌↔◌, inl, inr, refl, sym, ap, List, length, ltb, leb, leb→le,
  ◌==◌, ==_iff, ◌∙◌, true, false, if◌then◌else◌, none, some, arith, Bool-cases,
}
use scll_rust.Cap.{is_some_of, read_u32, sig_eocd, scan_back, find_eocd, eocd_min}

-- The signature stands at the position.
abbrev pub Signed : List ℕ → ℕ → Type 0
Signed zip i = is_some_of (read_u32 zip i) sig_eocd ≡ true

abbrev pub Last : List ℕ → ℕ → ℕ → ℕ → Type 0
Last zip limit top i =
    (limit ≤ i)
    × (i ≤ top)
    × Signed zip i
    × ((j : ℕ) → i < j → j ≤ top → is_some_of (read_u32 zip j) sig_eocd ≡ false)

-- One round of the scan, by whether the signature stands there.
scan_found :
    (zip : List ℕ) (limit top : ℕ)
    → Signed zip (suc top)
    → scan_back zip limit (suc top) ≡ some (suc top)
unfolding scan_back
scan_found zip limit top found = rw (found) refl

scan_on :
    (zip : List ℕ) (limit top : ℕ)
    → is_some_of (read_u32 zip (suc top)) sig_eocd ≡ false
    → limit ≤ top
    → scan_back zip limit (suc top) ≡ scan_back zip limit top
unfolding scan_back
scan_on zip limit top missing low =
    let other : (suc top == limit) ≡ false = ground (arith, low) in rw (missing, other) refl

scan_stop :
    (zip : List ℕ) (limit top : ℕ)
    → is_some_of (read_u32 zip (suc top)) sig_eocd ≡ false
    → limit ≡ suc top
    → scan_back zip limit (suc top) ≡ none
unfolding scan_back
scan_stop zip limit top missing low =
    let same : (suc top == limit) ≡ true = ground (arith, low) in rw (missing, same) refl

scan_zero :
    (zip : List ℕ) (limit : ℕ)
    → scan_back zip limit 0 ≡ (if is_some_of (read_u32 zip 0) sig_eocd then some 0 else none)
unfolding scan_back
scan_zero zip limit = refl

-- The position above which nothing is signed, one step further up.
Last-suc :
    (zip : List ℕ) (limit top i : ℕ)
    → is_some_of (read_u32 zip (suc top)) sig_eocd ≡ false
    → Last zip limit top i
    → Last zip limit (suc top) i
Last-suc zip limit top i missing (low, high, signed, none_above) =
    (low, omega (arith, high), signed, above)
  where
    above : (j : ℕ) → i < j → j ≤ suc top → is_some_of (read_u32 zip j) sig_eocd ≡ false
    above j lt le = elim (Bool-cases (j == suc top)) [
      | inl top_most ↦ rw ((==_iff j (suc top)).0 top_most) missing
      | inr below ↦ none_above j lt (ground (arith, below, le))
    ]

Last-top : (zip : List ℕ) (limit top : ℕ) → limit ≤ top → Signed zip top → Last zip limit top top
Last-top zip limit top low found =
    (low, omega arith, found, λ j lt le. absurd (omega (arith, lt, le)))

scan_back-Last :
    (zip : List ℕ) (limit top i : ℕ)
    → limit ≤ top
    → scan_back zip limit top ≡ some i
    → Last zip limit top i
scan_back-Last zip limit zero i low h = elim (Bool-cases (is_some_of (read_u32 zip 0) sig_eocd)) [
  | inl found ↦
      let same : 0 ≡ i = ground (arith, found, h, scan_zero zip limit) in
      rw (sym same) (Last-top zip limit 0 low found)
  | inr missing ↦ absurd (ground (arith, missing, h, scan_zero zip limit))
]
scan_back-Last zip limit (suc top) i low h =
    elim (Bool-cases (is_some_of (read_u32 zip (suc top)) sig_eocd)) [
      | inl found ↦
          let same : suc top ≡ i = cc (h, scan_found zip limit top found) in
          rw (sym same) (Last-top zip limit (suc top) low found)
      | inr missing ↦ elim (Bool-cases (leb limit top)) [
        | inl on ↦ Last-suc zip limit top i missing (
            scan_back-Last zip limit top i (leb→le _ _ on)
              (sym (scan_on zip limit top missing (leb→le _ _ on)) ∙ h))
        | inr stop ↦ absurd (cc (scan_stop zip limit top missing (ground (arith, low, stop)), h))
      ]
    ]

scan_finds :
    (zip : List ℕ) (limit top i : ℕ) → Last zip limit top i → scan_back zip limit top ≡ some i
scan_finds zip limit zero i (low, high, signed, none_above) =
    let at_zero : i ≡ 0 = omega (arith, high) in
    let found : Signed zip 0 = rw (at_zero) at signed in
    scan_zero zip limit ∙ rw (found, at_zero) refl
scan_finds zip limit (suc top) i (low, high, signed, none_above) =
    elim (Bool-cases (i == suc top)) [
      | inl top_most ↦
          let same : i ≡ suc top = (==_iff i (suc top)).0 top_most in
          scan_found zip limit top (rw (same) at signed) ∙ ap (λ n. some n) (sym same)
      | inr below ↦
          let under : i ≤ top = ground (arith, below, high) in
          let missing = none_above (suc top) (omega (arith, under)) (omega arith) in
          scan_on zip limit top missing (omega (arith, low, under))
          ∙ scan_finds zip limit top i
              (low, under, signed, λ j lt le. none_above j lt (omega (arith, le)))
    ]

find_short : (zip : List ℕ) → ltb (length zip) eocd_min ≡ true → find_eocd zip ≡ none
unfolding find_eocd
find_short zip h = rw (h) refl

find_long :
    (zip : List ℕ)
    → ltb (length zip) eocd_min ≡ false
    → find_eocd zip ≡ scan_back zip (length zip - eocd_min - 0xFFFF) (length zip - eocd_min)
unfolding find_eocd
find_long zip h = rw (h) refl

-- `find_eocd` returns the last position of the signature that leaves room for the record, among the
-- last 65536 such positions, if there is one; and otherwise nothing.
pub find_eocd_iff :
    (zip : List ℕ) (i : ℕ)
    → (find_eocd zip ≡ some i) ↔ (
        (eocd_min ≤ length zip)
        × Last zip (length zip - eocd_min - 0xFFFF) (length zip - eocd_min) i)
find_eocd_iff zip i = elim (Bool-cases (ltb (length zip) eocd_min)) [
  | inl short ↦
      ((λ h. absurd (cc (find_short zip short, h))), (λ h. absurd (ground (arith, short, h.0))))
  | inr long ↦ (
    (λ h. (
      ground (arith, long),
      scan_back-Last zip (length zip - eocd_min - 0xFFFF) (length zip - eocd_min) i (omega arith)
          (sym (find_long zip long) ∙ h),
    )),
    (λ h. find_long zip long ∙ scan_finds zip _ _ i (h.1)),
  )
]
