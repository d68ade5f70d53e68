-- ===== src/Response/Status/Bounds.antt =====
-- How parse_status_registry of crates/scll-core/src/response.rs truncates.
use scll_rust.Prelude.{
  ℕ, ltb→lt, ◌≤◌, ◌≡◌, sym, ap, ◌∙◌, inl, inr, List, [], ◌∷◌, ◌++◌, length, take, take_all, ltb,
  ◌==◌, if◌then◌else◌, arith, length-append, take-append_length, Bool-cases,
}
use mathlib.Core.List.{append_assoc, append-nil}
use scll_rust.Prelude.Heapless.{Heapless}
use scll_rust.Tlv.{Tlv}
use scll_rust.Response.Status.{push_modules, registry_entry}

-- The values of all objects with the tag, in order.
unfoldable pub values_of : ℕ → List Tlv → List (List ℕ)
values_of tag [] = []
values_of tag (t ∷ tlvs) =
    let more = values_of tag tlvs in if t.tag == tag then t.value ∷ more else more

module _ ⦃hl : Heapless⦄ where
  full : (modules rest : List (List ℕ)) → length modules ≡ 16 → take 16 (modules ++ rest) ≡ modules
  full modules rest h = ap (λ n. take n (modules ++ rest)) (sym h) ∙ take-append_length modules rest

  push_modules_lem :
      (fields : List Tlv) (modules : List (List ℕ))
      → length modules ≤ 16
      → push_modules fields modules ≡ take 16 (modules ++ values_of 0x84 fields)
  unfolding push_modules values_of
  push_modules_lem [] modules h = sym (ap (take 16) (append-nil modules) ∙ take_all 16 modules h)
  push_modules_lem (field ∷ fields) modules h = elim (Bool-cases (field.tag == 0x84)) [
    | inl module_tag ↦ elim (Bool-cases (ltb (length modules) 16)) [
      | inl room ↦
          rw (module_tag, hl.push_lem (List ℕ) 16 modules field.value, room)
            (push_modules_lem fields (modules ++ (field.value ∷ []))
                (omega (arith, length-append modules (field.value ∷ []), ltb→lt _ _ room))
              ∙ ap (take 16) (append_assoc modules (field.value ∷ []) (values_of 0x84 fields)))
      | inr none_left ↦
          rw (module_tag, hl.push_lem (List ℕ) 16 modules field.value, none_left)
            (sym
              (full modules (field.value ∷ values_of 0x84 fields) (ground (arith, none_left, h))))
    ]
    | inr other_tag ↦ rw (other_tag) (push_modules_lem fields modules h)
  ]

  -- The modules that a registry entry lists are the values of the first 16 objects '84' of its
  -- fields, in order.
  pub registry_entry-take :
      (fields : List Tlv) → (registry_entry fields).modules ≡ take 16 (values_of 0x84 fields)
  unfolding registry_entry
  registry_entry-take fields = push_modules_lem fields [] (omega arith)
