-- ===== src/Workflow/InstallParams/RoundTrip.antt =====
-- The Install-Params field that crates/scll-core/src/workflow/applet.rs assembles is read back.
use scll_rust.Prelude.{
  ℕ, ◌+◌, ◌≤◌, ◌<◌, ◌≡◌, refl, ap, ◌∙◌, List, [], ◌∷◌, ◌++◌, length, le→leb, lt→ltb, ok, arith,
  length-append, All-append,
}
use mathlib.Core.List.{append_assoc, append-nil}
use scll_rust.Prelude.Bits.{IsByte, IsBytes}
use scll_rust.Prelude.Heapless.{Heapless}
use scll_rust.Tlv.{Tlv, parse}
use scll_rust.Tlv.Grammar.{Objects, done}
use scll_rust.Tlv.Parse.{parse_iff}
use scll_rust.Tlv.Short.{Objects-short, parse_short}
use scll_rust.Workflow.InstallParams.{
  push_tlv, build_install_params, install_params_max, tag_c9_app_params, tag_ef_sys_params,
}

module _ ⦃hl : Heapless⦄ where
  push_tlv_lem :
      (out value : List ℕ) (tag : ℕ)
      → length out + 2 + length value ≤ install_params_max
      → push_tlv out tag value ≡ ok (out ++ (tag ∷ length value ∷ value))
  unfolding push_tlv
  push_tlv_lem out value tag fits =
      let l1 : length (out ++ (tag ∷ [])) ≡ length out + 1 =
        omega (arith, length-append out (tag ∷ [])) in
      let l2 : length ((out ++ (tag ∷ [])) ++ (length value ∷ [])) ≡ length out + 2 =
        omega (arith, l1, length-append (out ++ (tag ∷ [])) (length value ∷ [])) in
      let r0 = le→leb (length value) 255 (omega (arith, fits)) in
      let r1 = lt→ltb (length out) install_params_max (omega (arith, fits)) in
      let r2 = lt→ltb (length (out ++ (tag ∷ []))) install_params_max (omega (arith, fits, l1)) in
      let r3 =
        le→leb (length ((out ++ (tag ∷ [])) ++ (length value ∷ [])) + length value)
          install_params_max (omega (arith, fits, l2)) in
      rw
        (
          r0,
          hl.push_lem ℕ install_params_max out tag,
          r1,
          hl.push_lem ℕ install_params_max (out ++ (tag ∷ [])) (length value),
          r2,
          hl.extend_lem ℕ install_params_max ((out ++ (tag ∷ [])) ++ (length value ∷ [])) value,
          r3,
        )
        (ap (λ l. ok l)
          (append_assoc (out ++ (tag ∷ [])) (length value ∷ []) value
            ∙ append_assoc out (tag ∷ []) (length value ∷ value)))

  -- The field holds one object, or two.
  abbrev pub objects_of : List ℕ → List ℕ → List Tlv
  objects_of app [] = record { tag = tag_c9_app_params; value = app } ∷ []
  objects_of app (o ∷ sys) =
      record { tag = tag_c9_app_params; value = app }
      ∷ record { tag = tag_ef_sys_params; value = o ∷ sys }
      ∷ []

  -- For parameters of fewer than 128 octets each, which are at most 251 octets together,
  -- `build_install_params` returns octets that `parse` reads as the application parameters under the
  -- tag 0xC9 and, if there are any, the system parameters under 0xEF.
  pub build_install_params-parse :
      (app sys : List ℕ)
      → IsBytes app
      → IsBytes sys
      → length app < 128
      → length sys < 128
      → length app + length sys ≤ 251
      → (out : List ℕ) × (build_install_params app sys ≡ ok out)
        × (parse out ≡ ok (objects_of app sys))
  unfolding build_install_params
  build_install_params-parse app [] app_bytes sys_bytes app_short sys_short fits = (
    tag_c9_app_params ∷ length app ∷ app,
    rw (push_tlv_lem [] app tag_c9_app_params (omega (arith, fits))) refl,
    parse_short tag_c9_app_params app (omega arith) app_bytes (omega arith) app_short,
  )
  build_install_params-parse app (o ∷ sys) app_bytes sys_bytes app_short sys_short fits =
      let first = tag_c9_app_params ∷ length app ∷ app in
      let second = tag_ef_sys_params ∷ length (o ∷ sys) ∷ o ∷ sys in
      let bytes : IsBytes (first ++ second) =
        All-append IsByte first second (omega arith, (omega arith, app_bytes))
          (omega arith, (omega (arith, sys_short), sys_bytes)) in
      let tail : Objects second (record { tag = tag_ef_sys_params; value = o ∷ sys } ∷ []) =
        rw (append-nil (o ∷ sys)) at
          (Objects-short tag_ef_sys_params (o ∷ sys) [] (omega arith) sys_short done) in
      (
        first ++ second,
        rw
            (
              push_tlv_lem [] app tag_c9_app_params (omega (arith, fits)),
              push_tlv_lem first (o ∷ sys) tag_ef_sys_params (omega (arith, fits)),
            )
            refl,
        (parse_iff (first ++ second) _ bytes).1
            (Objects-short tag_c9_app_params app second (omega arith) app_short tail, omega arith),
      )
