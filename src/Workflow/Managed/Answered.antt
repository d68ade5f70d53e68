-- ===== src/Workflow/Managed/Answered.antt =====
-- What has happened when an operation of crates/scll-core/src/workflow/{applet, ssd}.rs reports success.
use scll_rust.Prelude.{ℕ, ◌≡◌, ◌⊎◌, List, [], ◌∷◌, take, Bool, true, false, Option, none, some, ok}
use scll_rust.Prelude.Heapless.{Heapless}
use scll_rust.Aid.{Aid}
use scll_rust.Command.Apdu.{read_apdu}
use scll_rust.Command.Frame.{command}
use scll_rust.Command.Install.{PrivLen, Privileges, octets_of, privileges_len}
use scll_rust.Command.Install.Fields.{lv_fields, read_fields}
use scll_rust.Scp.Backend.{Scp03Backend, Scp02Backend}
use scll_rust.Scp.Sessions.{ScpSession}
use scll_rust.Session.{Transport, sw_ok, transmit_in_session}
use scll_rust.Workflow.Managed.{DeleteCascade, DeleteObjectParams}
use scll_rust.Workflow.Managed.Removal.{Deleted, IsWanted, IsLeft}

module _ ⦃hl : Heapless⦄ {W : Type 0} (t : Transport W) (b03 : Scp03Backend W)
    (b02 : Scp02Backend W) where
  -- The fields that a card reads from INSTALL [for install and make selectable].
  abbrev pub install_fields :
      List ℕ → List ℕ → List ℕ → Privileges → PrivLen → List ℕ → List (List ℕ)
  install_fields elf_aid module_aid instance_aid p enc params =
      elf_aid
      ∷ module_aid
      ∷ instance_aid
      ∷ take (privileges_len p enc) (octets_of p)
      ∷ params
      ∷ []
      ∷ []

  -- The card was sent an INSTALL from which it reads these fields, and answered with 9000.
  abbrev pub Installed : List (List ℕ) → ScpSession × W → ScpSession × W → Type 0
  Installed fields x x' =
      (capdu : List ℕ) × (body : List ℕ) × (read_apdu capdu
        ≡ some (command 0x84 0xE6 0x0C 0x00 (lv_fields fields) true))
      × (read_fields 6 (lv_fields fields) ≡ some fields)
      × (transmit_in_session t b03 b02 capdu x ≡ (ok (body, sw_ok), x'))

  -- What became of the load file: it was deleted, if that was wanted and it was named, or nothing was
  -- sent.
  abbrev pub Cascaded :
      Option (List ℕ)
      → DeleteCascade
      → DeleteObjectParams
      → ScpSession × W
      → ScpSession × W
      → Type 0
  Cascaded elf requested report x x' =
      ((report.cascade_used ≡ true)
        × IsWanted requested
        × (name : List ℕ) × (elf ≡ some name)
        × Deleted t b03 b02 name x x')
      ⊎ ((report.cascade_used ≡ false) × ((elf ≡ none) ⊎ IsLeft requested) × (x ≡ x'))

  -- The same, for the outcome of `cascade_to_elf`.
  abbrev Went : Option (List ℕ) → Bool → Bool → ScpSession × W → ScpSession × W → Type 0
  Went elf wanted used x x' =
      ((used ≡ true)
        × (wanted ≡ true)
        × (name : List ℕ) × (elf ≡ some name)
        × Deleted t b03 b02 name x x')
      ⊎ ((used ≡ false) × ((elf ≡ none) ⊎ (wanted ≡ false)) × (x ≡ x'))
