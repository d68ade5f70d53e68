-- ===== src/Response/Keysets.antt =====
-- The grouping of keys by version number in push_key of crates/scll-core/src/response.rs.
use scll_rust.Prelude.{
  ℕ, ◌≤◌, ◌<◌, ◌≡◌, ◌≢◌, refl, sym, ap, ◌∙◌, inl, inr, List, [], ◌∷◌, ◌++◌, ◌==◌, if◌then◌else◌,
  Option, none, some, Result, ok, err, stuck, ◌>>=◌, arith, length, length-append, All, Bool-cases,
  Option-cases,
}
use scll_rust.Prelude.Heapless.{Heapless}
use scll_rust.Tlv.{TlvError}
use scll_rust.Response.{KeyInfo, Keyset, push_keyset, push_into, keep_set, push_existing, push_key}

-- The keys that are filed under a version number.
unfoldable pub keys_of : List Keyset → ℕ → List KeyInfo
keys_of [] kvn = []
keys_of (set ∷ sets) kvn = if set.kvn == kvn then set.keys else keys_of sets kvn

abbrev pub Absent : ℕ → List Keyset → Type 0
Absent kvn = All (λ set. set.kvn ≢ kvn)

-- One set for each version number, with 1 to 16 keys.
abbrev pub Grouped : List Keyset → Type 0
Grouped [] = Unit {0}
Grouped (set ∷ sets) =
    (1 ≤ length set.keys) × (length set.keys ≤ 16) × Absent set.kvn sets × Grouped sets

-- What filing a key does to the sets.
data Added (kvn : ℕ) (key : KeyInfo) : List Keyset → List Keyset → Type 0 where
  at_end : Added kvn key [] (record { kvn = kvn; keys = key ∷ [] } ∷ [])
  here :
      (set : Keyset) (sets : List Keyset)
      → set.kvn ≡ kvn
      → length set.keys < 16
      → Added kvn key (set ∷ sets) (record set { keys = set.keys ++ (key ∷ []) } ∷ sets)
  behind :
      (set : Keyset) (sets sets' : List Keyset)
      → set.kvn ≢ kvn
      → Added kvn key sets sets'
      → Added kvn key (set ∷ sets) (set ∷ sets')

module _ ⦃hl : Heapless⦄ (kvn : ℕ) (key : KeyInfo) where
  appended :
      (sets : List Keyset)
      → push_existing sets kvn key ≡ none
      → Added kvn key sets (sets ++ (record { kvn = kvn; keys = key ∷ [] } ∷ []))
  unfolding push_existing
  appended [] h = at_end
  appended (set ∷ sets) h = elim (Bool-cases (set.kvn == kvn)) [
    | inl same ↦ absurd (ground (arith, same, h))
    | inr other ↦
        behind set sets _ (ground (arith, other)) (appended sets (ground (arith, other, h)))
  ]

  filled :
      (set : Keyset) (sets sets' : List Keyset)
      → push_into set sets key ≡ ok sets'
      → (length set.keys < 16) × (record set { keys = set.keys ++ (key ∷ []) } ∷ sets ≡ sets')
  unfolding push_into
  filled set sets sets' h = ground (arith, h, hl.push_lem KeyInfo 16 set.keys key)

  kept :
      (set : Keyset) (sets' : List Keyset) (r : Result TlvError (List Keyset))
      → (r >>= λ sets. ok (set ∷ sets)) ≡ ok sets'
      → (sets : List Keyset) × (r ≡ ok sets) × (set ∷ sets ≡ sets')
  kept set sets' (ok sets) h = (sets, refl, cc h)
  kept set sets' (err e) h = absurd (cc h)
  kept set sets' stuck h = absurd (cc h)

  kept_set :
      (set : Keyset) (sets sets' : List Keyset) (o : Option (Result TlvError (List Keyset)))
      → set.kvn ≢ kvn
      → ((found : List Keyset)
          → o ≡ some (ok found)
          → Added kvn key sets found × (length found ≡ length sets))
      → keep_set set o ≡ some (ok sets')
      → Added kvn key (set ∷ sets) sets' × (length sets' ≡ length (set ∷ sets))
  kept_set set sets sets' none other found k = absurd (cc k)
  kept_set set sets sets' (some r) other found k =
      let (rest, e, whole) = kept set sets' r (cc k) in
      let (added, same) = found rest (ap some e) in
      rw (sym whole) (behind set sets rest other added, omega (arith, same))

  existing :
      (sets sets' : List Keyset)
      → push_existing sets kvn key ≡ some (ok sets')
      → Added kvn key sets sets' × (length sets' ≡ length sets)
  unfolding push_existing
  existing [] sets' h = absurd (cc h)
  existing (set ∷ sets) sets' h = elim (Bool-cases (set.kvn == kvn)) [
    | inl same ↦
        let (room, e) = filled set sets sets' (ground (arith, same, h)) in
        rw (sym e) (here set sets (ground (arith, same)) room, refl)
    | inr other ↦
        kept_set set sets sets' (push_existing sets kvn key) (ground (arith, other))
          (λ found e. existing sets found e) (ground (arith, other, h))
  ]

  new_set :
      (sets sets' : List Keyset)
      → push_keyset sets kvn key ≡ ok sets'
      → (length sets < 16) × (sets ++ (record { kvn = kvn; keys = key ∷ [] } ∷ []) ≡ sets')
  unfolding push_keyset
  new_set sets sets' h = ground (
    arith,
    h,
    hl.push_lem KeyInfo 16 [] key,
    hl.push_lem Keyset 16 sets (record { kvn = kvn; keys = key ∷ [] }),
  )

  filed :
      (sets sets' : List Keyset)
      → length sets ≤ 16
      → push_key sets kvn key ≡ ok sets'
      → Added kvn key sets sets' × (length sets' ≤ 16)
  unfolding push_key
  filed sets sets' few h = elim (Option-cases (push_existing sets kvn key)) [
    | inl missing ↦
        let (room, e) = new_set sets sets' (rw missing at h) in
        rw (sym e) (
          appended sets missing,
          omega (arith, length-append sets (record { kvn = kvn; keys = key ∷ [] } ∷ []), room),
        )
    | inr (r, there) ↦
        let (added, same) = existing sets sets' (there ∙ ap some (rw there at h)) in
        (added, omega (arith, same, few))
  ]

Added-Absent :
    (kvn : ℕ) (key : KeyInfo) (k : ℕ) {sets sets' : List Keyset}
    → kvn ≢ k
    → Added kvn key sets sets'
    → Absent k sets
    → Absent k sets'
Added-Absent kvn key k other at_end absent = (other, tt)
Added-Absent kvn key k other (here set sets same room) absent = absent
Added-Absent kvn key k other (behind set sets sets' differs added) absent =
    (absent.0, Added-Absent kvn key k other added absent.1)

Added-Grouped :
    (kvn : ℕ) (key : KeyInfo) {sets sets' : List Keyset}
    → Added kvn key sets sets'
    → Grouped sets
    → Grouped sets'
Added-Grouped kvn key at_end grouped = (omega arith, omega arith, tt, tt)
Added-Grouped kvn key (here set sets same room) (some_keys, few, absent, rest) = (
  omega (arith, length-append set.keys (key ∷ [])),
  omega (arith, length-append set.keys (key ∷ []), room),
  absent,
  rest,
)
Added-Grouped kvn key (behind set sets sets' differs added) (some_keys, few, absent, rest) = (
  some_keys,
  few,
  Added-Absent kvn key set.kvn (λ e. differs (sym e)) added absent,
  Added-Grouped kvn key added rest,
)

keys_of-Added :
    (kvn : ℕ) (key : KeyInfo) (k : ℕ) {sets sets' : List Keyset}
    → Added kvn key sets sets'
    → keys_of sets' k ≡ (if k == kvn then keys_of sets k ++ (key ∷ []) else keys_of sets k)
unfolding keys_of
keys_of-Added kvn key k at_end = ground arith
keys_of-Added kvn key k (here set sets same room) = ground (arith, same)
keys_of-Added kvn key k (behind set sets sets' differs added) =
    ground (arith, differs, keys_of-Added kvn key k added)

module _ ⦃hl : Heapless⦄ where
  -- On sets that are grouped, one for each version number with 1 to 16 keys, and at most 16 of them,
  -- `push_key`, if it succeeds, returns sets that are grouped and at most 16; the keys filed under the
  -- version number are those before and then the new one, and under any other number those before.
  pub push_key-Grouped :
      (sets sets' : List Keyset) (kvn k : ℕ) (key : KeyInfo)
      → Grouped sets
      → length sets ≤ 16
      → push_key sets kvn key ≡ ok sets'
      → Grouped sets'
        × (length sets' ≤ 16)
        × (keys_of sets' k ≡ (if k == kvn then keys_of sets k ++ (key ∷ []) else keys_of sets k))
  push_key-Grouped sets sets' kvn k key grouped few h =
      let (added, fits) = filed kvn key sets sets' few h in
      (Added-Grouped kvn key added grouped, fits, keys_of-Added kvn key k added)
