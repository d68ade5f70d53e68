-- ===== src/Workflow/Keys/Echo.antt =====
-- The check values of crates/scll-core/src/workflow/keys.rs, and what they are compared with.
use scll_rust.Prelude.{
  ℕ, ◌≤◌, ◌<◌, ◌≡◌, ◌↔◌, ◌⊎◌, inl, inr, refl, sym, ap, List, ◌∷◌, length, take, leb, leb→le,
  eq_octets, eq_octets-eq, eq_octets_refl, true, false, not, ◌&&◌, ok, arith, Bool-cases,
}
use scll_rust.Command.PutKey.{Kcv}
use scll_rust.Workflow.Keys.{verify_kcv_echo, kcvs_of, kcv_echo_len}

-- The echo is too short to be compared, or its first ten octets are the version number and the check
-- values.
abbrev pub EchoFits : List ℕ → ℕ → List ℕ → Type 0
EchoFits echo new_kvn kcvs =
    (length echo < kcv_echo_len) ⊎ (take kcv_echo_len echo ≡ new_kvn ∷ kcvs)

fits_cases :
    (echo expected : List ℕ)
    → (((leb kcv_echo_len (length echo) && not (eq_octets (take kcv_echo_len echo) expected))
          ≡ false)
        × ((length echo < kcv_echo_len) ⊎ (take kcv_echo_len echo ≡ expected)))
      ⊎ (((leb kcv_echo_len (length echo) && not (eq_octets (take kcv_echo_len echo) expected))
            ≡ true)
          × (kcv_echo_len ≤ length echo)
          × (eq_octets (take kcv_echo_len echo) expected ≡ false))
fits_cases echo expected = elim (Bool-cases (leb kcv_echo_len (length echo))) [
  | inr short ↦ inl (rw (short) refl, inl (ground (arith, short)))
  | inl long ↦ elim (Bool-cases (eq_octets (take kcv_echo_len echo) expected)) [
    | inl same ↦ inl (rw (long, same) refl, inr (eq_octets-eq _ _ same))
    | inr other ↦ inr (rw (long, other) refl, leb→le _ _ long, other)
  ]
]

-- `verify_kcv_echo` returns octets exactly if the echo fits, and then they are the check values of the
-- three keys in order.
pub verify_kcv_echo_iff :
    (echo : List ℕ) (new_kvn : ℕ) (enc mac dek : Kcv) (kcvs : List ℕ)
    → (verify_kcv_echo echo new_kvn enc mac dek ≡ ok kcvs)
      ↔ ((kcvs ≡ kcvs_of enc mac dek) × EchoFits echo new_kvn (kcvs_of enc mac dek))
unfolding verify_kcv_echo
verify_kcv_echo_iff echo new_kvn enc mac dek kcvs =
    elim (fits_cases echo (new_kvn ∷ kcvs_of enc mac dek)) [
      | inl (good, fits) ↦ rw (good) ((λ h. (cc h, fits)), (λ h. ap (λ l. ok l) (sym (h.0))))
      | inr (bad, long, differs) ↦ rw (bad) (
        (λ h. absurd (cc h)),
        (λ h. elim (h.1) [
          | inl short ↦ absurd (omega (arith, short, long))
          | inr same ↦
              absurd (ground (arith, same, differs, eq_octets_refl (new_kvn ∷ kcvs_of enc mac dek)))
        ]),
      )
    ]
