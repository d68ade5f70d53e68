-- ===== src/Command/Install/Fields.antt =====
-- The data of an INSTALL command of crates/scll-core/src/command/install.rs as a card reads it.
use scll_rust.Prelude.{
  ◌↔◌, ℕ, zero, suc, ◌+◌, ◌≤◌, ◌<◌, ◌≡◌, refl, sym, ap, ◌⊎◌, inl, inr, List, [], ◌∷◌, ◌++◌, true,
  length, take, drop, leb, if◌then◌else◌, Result, err, ◌>>=◌, Option, none, some, arith, Bool-cases,
  leb→le, length-append, take-append_length, drop-append_length,
}
use mathlib.Core.List.{append_assoc, append-nil}
use scll_rust.Prelude.Heapless.{Heapless}
use scll_rust.Command.{BuildError, overflow, push_lv, build}
use scll_rust.Command.Frame.{command, push_lv_lem, build_lem}
use scll_rust.Command.Builders.Scopes.{Reads, build-Reads}
use scll_rust.Command.Install.{
  PrivLen, canonical, jcop1_byte, Privileges, octets_of, privileges_len, push_privileges,
  install_for_load, install_for_install_make_selectable,
}

-- Every field behind its length.
unfoldable pub lv_fields : List (List ℕ) → List ℕ
lv_fields [] = []
lv_fields (f ∷ fs) = length f ∷ f ++ lv_fields fs

-- How a card takes a given number of fields apart: `none` if they are not exactly the octets.
unfoldable pub read_fields : ℕ → List ℕ → Option (List (List ℕ))
read_fields zero [] = some []
read_fields zero (b ∷ bs) = none
read_fields (suc n) [] = none
read_fields (suc n) (len ∷ bs) =
    let more = read_fields n (drop len bs) in
    if leb len (length bs) then cons (take len bs) more else none
  where
    cons : List ℕ → Option (List (List ℕ)) → Option (List (List ℕ))
    cons f none = none
    cons f (some fs) = some (f ∷ fs)

-- A card reads from the fields that were written the same fields.
read_fields-lv_fields : (fs : List (List ℕ)) → read_fields (length fs) (lv_fields fs) ≡ some fs
unfolding read_fields lv_fields
read_fields-lv_fields [] = refl
read_fields-lv_fields (f ∷ fs) = ground (
  arith,
  length-append f (lv_fields fs),
  take-append_length f (lv_fields fs),
  drop-append_length f (lv_fields fs),
  read_fields-lv_fields fs,
)

module _ ⦃hl : Heapless⦄ where
  -- The calls of `push_lv` one after another.
  unfoldable push_fields :
      List ℕ → List (List ℕ) → (List ℕ → Result BuildError (List ℕ)) → Result BuildError (List ℕ)
  push_fields out [] k = k out
  push_fields out (f ∷ fs) k = push_lv out f >>= λ out'. push_fields out' fs k

  push_fields_fit :
      (out : List ℕ) (fs : List (List ℕ)) (k : List ℕ → Result BuildError (List ℕ))
      → length out + length (lv_fields fs) ≤ 255
      → push_fields out fs k ≡ k (out ++ lv_fields fs)
  unfolding push_fields lv_fields
  push_fields_fit out [] k h = ap k (sym (append-nil out))
  push_fields_fit out (f ∷ fs) k h = ground (
    arith,
    push_lv_lem out f,
    length-append f (lv_fields fs),
    length-append out (length f ∷ f),
    append_assoc out (length f ∷ f) (lv_fields fs),
    push_fields_fit (out ++ (length f ∷ f)) fs k,
  )

  push_fields_overflow :
      (out : List ℕ) (fs : List (List ℕ)) (k : List ℕ → Result BuildError (List ℕ))
      → ((d : List ℕ) → 255 < length d → k d ≡ err overflow)
      → 255 < length out + length (lv_fields fs)
      → push_fields out fs k ≡ err overflow
  unfolding push_fields lv_fields
  push_fields_overflow out [] k hk h = hk out (omega arith)
  push_fields_overflow out (f ∷ fs) k hk h = ground (
    arith,
    push_lv_lem out f,
    length-append f (lv_fields fs),
    length-append out (length f ∷ f),
    push_fields_overflow (out ++ (length f ∷ f)) fs k hk,
  )

  -- A builder that pushes the fields and frames them.
  read_or_overflow :
      (p1 : ℕ) (fs : List (List ℕ))
      → (length (lv_fields fs) ≤ 255
          × Reads
              (push_fields [] fs (λ d. build 0x84 0xE6 p1 0x00 d true))
              (command 0x84 0xE6 p1 0x00 (lv_fields fs) true)
          × read_fields (length fs) (lv_fields fs) ≡ some fs)
        ⊎ (255 < length (lv_fields fs)
            × push_fields [] fs (λ d. build 0x84 0xE6 p1 0x00 d true) ≡ err overflow)
  read_or_overflow p1 fs = elim (Bool-cases (leb (length (lv_fields fs)) 255)) [
    | inl fits ↦
        let small : length (lv_fields fs) ≤ 255 = leb→le _ _ fits in
        inl (
          small,
          rw (push_fields_fit [] fs (λ d. build 0x84 0xE6 p1 0x00 d true) (omega arith))
              (build-Reads 0x84 0xE6 p1 0x00 (lv_fields fs) true small),
          read_fields-lv_fields fs,
        )
    | inr large ↦
        let too_long : 255 < length (lv_fields fs) = ground arith in
        inr (
          too_long,
          push_fields_overflow [] fs (λ d. build 0x84 0xE6 p1 0x00 d true)
              (λ d h. ground (arith, build_lem 0x84 0xE6 p1 0x00 d true)) (omega arith),
        )
  ]

  -- INSTALL [for load] either is read by a card as P1 = 2, P2 = 0, `Le` 0, and data that are
  -- exactly five fields, each behind its length: the package AID, the target Security Domain AID,
  -- the hash, and two empty fields; or these fields are more than 255 octets, and it is refused
  -- with `Overflow`.
  pub install_for_load-Reads :
      (package_aid target_sd_aid lfdb_hash : List ℕ)
      → let fs : List (List ℕ) = package_aid ∷ target_sd_aid ∷ lfdb_hash ∷ [] ∷ [] ∷ [] in
        (length (lv_fields fs) ≤ 255
          × Reads
              (install_for_load package_aid target_sd_aid lfdb_hash)
              (command 0x84 0xE6 0x02 0x00 (lv_fields fs) true)
          × read_fields 5 (lv_fields fs) ≡ some fs)
        ⊎ (255 < length (lv_fields fs)
            × install_for_load package_aid target_sd_aid lfdb_hash ≡ err overflow)
  unfolding install_for_load push_fields
  install_for_load-Reads package_aid target_sd_aid lfdb_hash =
      read_or_overflow 0x02 (package_aid ∷ target_sd_aid ∷ lfdb_hash ∷ [] ∷ [] ∷ [])

  -- INSTALL [for install and make selectable] either is read by a card as P1 = 0x0C, P2 = 0, `Le` 0,
  -- and data that are exactly six fields, each behind its length: the three AIDs, the first one or
  -- three octets of the privileges, the parameters, and an empty field; or these fields are more
  -- than 255 octets, and it is refused with `Overflow`.
  pub install_for_install_make_selectable-Reads :
      (elf_aid module_aid instance_aid : List ℕ) (p : Privileges) (enc : PrivLen) (params : List ℕ)
      → let fs : List (List ℕ) =
          elf_aid
          ∷ module_aid
          ∷ instance_aid
          ∷ take (privileges_len p enc) (octets_of p)
          ∷ params
          ∷ []
          ∷ [] in
        (length (lv_fields fs) ≤ 255
          × Reads
              (install_for_install_make_selectable elf_aid module_aid instance_aid p enc params)
              (command 0x84 0xE6 0x0C 0x00 (lv_fields fs) true)
          × read_fields 6 (lv_fields fs) ≡ some fs)
        ⊎ (255 < length (lv_fields fs)
            × install_for_install_make_selectable elf_aid module_aid instance_aid p enc params
              ≡ err overflow)
  unfolding install_for_install_make_selectable push_privileges push_fields
  install_for_install_make_selectable-Reads elf_aid module_aid instance_aid p enc params =
      read_or_overflow 0x0C (
        elf_aid
        ∷ module_aid
        ∷ instance_aid
        ∷ take (privileges_len p enc) (octets_of p)
        ∷ params
        ∷ []
        ∷ [])

-- The reading of the privileges field that GlobalPlatform prescribes: it has one octet or three, and
-- octets that are left out are 0.
abbrev pub read_privileges : List ℕ → Option Privileges
read_privileges (a ∷ []) = some (record { byte_1 = a; byte_2 = 0; byte_3 = 0 })
read_privileges (a ∷ b ∷ c ∷ []) = some (record { byte_1 = a; byte_2 = b; byte_3 = c })
read_privileges _ = none

abbrev given : ℕ → ℕ → ℕ → Privileges
given a b c = record { byte_1 = a; byte_2 = b; byte_3 = c }

short_iff :
    (a b c : ℕ) (enc : PrivLen)
    → (privileges_len (given a b c) enc ≡ 1) ↔ (enc ≡ jcop1_byte × b ≡ 0 × c ≡ 0)
unfolding privileges_len
short_iff a zero zero canonical = ((λ h. absurd (omega (arith, h))), λ h. absurd (cc h.0))
short_iff a zero zero jcop1_byte = ((λ h. (refl, refl, refl)), λ h. refl)
short_iff a zero (suc c) enc = ((λ h. absurd (ground (arith, h))), λ h. absurd (ground (arith, h)))
short_iff a (suc b) c enc = ((λ h. absurd (ground (arith, h))), λ h. absurd (ground (arith, h)))

read_back :
    (a b c : ℕ) (enc : PrivLen)
    → read_privileges (take (privileges_len (given a b c) enc) (octets_of (given a b c)))
      ≡ some (given a b c)
unfolding privileges_len
read_back a zero zero canonical = refl
read_back a zero zero jcop1_byte = refl
read_back a zero (suc c) enc = ground arith
read_back a (suc b) c enc = ground arith

long_form :
    (a b c : ℕ) (enc : PrivLen)
    → ¬ (enc ≡ jcop1_byte × b ≡ 0 × c ≡ 0)
    → take (privileges_len (given a b c) enc) (octets_of (given a b c)) ≡ octets_of (given a b c)
unfolding privileges_len
long_form a zero zero canonical h = refl
long_form a zero zero jcop1_byte h = absurd (h (refl, refl, refl))
long_form a zero (suc c) enc h = ground arith
long_form a (suc b) c enc h = ground arith

-- The privileges field has one octet exactly if the short form is selected and the second and the
-- third octet are 0, and otherwise it is all three octets as they were given. So it gives back the
-- three octets to a card that follows GlobalPlatform's rule, by which octets that are left out are 0;
-- to a card that needs three octets it does so whenever the short form is not selected.
pub read_privileges-privileges_len :
    (p : Privileges) (enc : PrivLen)
    → (read_privileges (take (privileges_len p enc) (octets_of p)) ≡ some p)
      × ((privileges_len p enc ≡ 1) ↔ (enc ≡ jcop1_byte × p.byte_2 ≡ 0 × p.byte_3 ≡ 0))
      × (¬ (enc ≡ jcop1_byte × p.byte_2 ≡ 0 × p.byte_3 ≡ 0)
          → take (privileges_len p enc) (octets_of p) ≡ octets_of p)
read_privileges-privileges_len p enc = (
  read_back p.byte_1 p.byte_2 p.byte_3 enc,
  short_iff p.byte_1 p.byte_2 p.byte_3 enc,
  long_form p.byte_1 p.byte_2 p.byte_3 enc,
)
