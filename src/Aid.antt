-- ===== src/Aid.antt =====
-- crates/scll-core/src/aid.rs: application identifiers, whose length is checked when they are made.
use scll_rust.Prelude.{
  ℕ, ◌+◌, ◌≤◌, ◌≡◌, refl, List, [], length, leb, le→leb, not, ◌&&◌, if◌then◌else◌, none, some,
  Result, ok, err, Option, arith,
}
use scll_rust.Prelude.Heapless.{Heapless}
use scll_rust.Error.{ScllError}

abbrev pub aid_min : ℕ
aid_min = 5

-- limits.rs, `AID_MAX`
abbrev pub aid_max : ℕ
aid_max = 16

pub record Aid : Type 0 where
  pub as_bytes : List ℕ

abbrev made : List ℕ → Aid
made octets = record { as_bytes = octets }

module _ ⦃hl : Heapless⦄ where
  -- The vector, or the error of `map_err`, as the AID.
  abbrev held : ℕ → Option (List ℕ) → Result ScllError Aid
  held size none = err (ScllError.invalid_aid size)
  held size (some v) = ok (record { as_bytes = v })

  unfoldable pub new : List ℕ → Result ScllError Aid
  new octets =
      if not (leb aid_min (length octets) && leb (length octets) aid_max)
      then err (ScllError.invalid_aid (length octets))
      else held (length octets) (hl.extend aid_max [] octets)

  -- What `new` accepts it keeps, and it has 5 to 16 octets.
  pub new-ok :
      (octets : List ℕ) (a : Aid)
      → new octets ≡ ok a
      → (a.as_bytes ≡ octets) × (5 ≤ length octets) × (length octets ≤ 16)
  unfolding new
  new-ok octets a h = ground (arith, h, hl.extend_lem ℕ 16 [] octets)

  -- And it accepts what has 5 to 16 octets.
  pub new_good :
      (octets : List ℕ)
      → 5 ≤ length octets
      → length octets ≤ 16
      → new octets ≡ ok (record { as_bytes = octets })
  unfolding new
  new_good octets low high =
      let r1 = le→leb 5 (length octets) low in
      let r2 = le→leb (length octets) 16 high in
      let r3 = le→leb (0 + length octets) 16 (omega (arith, high)) in
      rw (r1, r2, hl.extend_lem ℕ 16 [] octets, r3) refl
