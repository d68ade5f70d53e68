-- ===== src/Workflow/Managed/Removal.antt =====
-- The removal of an object, and the requests that take the load file along, in
-- crates/scll-core/src/workflow/applet.rs.
use scll_rust.Prelude.{
  ℕ, ◌≡◌, ◌⊎◌, inl, inr, refl, sym, List, ◌∷◌, length, true, false, some, ok, arith,
}
use scll_rust.Prelude.Heapless.{Heapless}
use scll_rust.Aid.{Aid, new, new-ok}
use scll_rust.Command.Apdu.{read_apdu}
use scll_rust.Command.Frame.{command}
use scll_rust.Command.Builders.{delete_object}
use scll_rust.Command.Builders.Scopes.{delete_object_framed}
use scll_rust.Scp.Backend.{Scp03Backend, Scp02Backend}
use scll_rust.Scp.Sessions.{ScpSession}
use scll_rust.Session.{Transport, sw_ok, transmit_in_session}
use scll_rust.Workflow.Managed.{
  DeleteCascade, never, only_if_empty, if_last_instance, cascade, always, wants_elf,
}
use scll_rust.Workflow.Managed.Asked.{Sent}

-- The requests that take the load file along: `IfLastInstance` and `Always`.
abbrev pub IsWanted : DeleteCascade → Type 0
IsWanted requested = (requested ≡ if_last_instance) ⊎ (requested ≡ always)

-- The requests that leave it.
abbrev pub IsLeft : DeleteCascade → Type 0
IsLeft requested = (requested ≡ never) ⊎ ((requested ≡ only_if_empty) ⊎ (requested ≡ cascade))

pub wants_elf-IsWanted :
    (requested : DeleteCascade)
    → (wants_elf requested ≡ true → IsWanted requested)
      × (wants_elf requested ≡ false → IsLeft requested)
wants_elf-IsWanted never = ((λ h. absurd (cc h)), λ h. inl refl)
wants_elf-IsWanted only_if_empty = ((λ h. absurd (cc h)), λ h. inr (inl refl))
wants_elf-IsWanted if_last_instance = ((λ h. inl refl), λ h. absurd (cc h))
wants_elf-IsWanted cascade = ((λ h. absurd (cc h)), λ h. inr (inr refl))
wants_elf-IsWanted always = ((λ h. inr refl), λ h. absurd (cc h))

module _ ⦃hl : Heapless⦄ {W : Type 0} (t : Transport W) (b03 : Scp03Backend W)
    (b02 : Scp02Backend W) where
  -- The card was sent a DELETE of this one object, which is not to cascade, and answered with 9000.
  abbrev pub Deleted : List ℕ → ScpSession × W → ScpSession × W → Type 0
  Deleted aid x x' =
      (capdu : List ℕ) × (body : List ℕ) × (read_apdu capdu
        ≡ some (command 0x84 0xE4 0x00 0x00 (0x4F ∷ length aid ∷ aid) true))
      × (transmit_in_session t b03 b02 capdu x ≡ (ok (body, sw_ok), x'))

  pub Sent-Deleted :
      (aid : List ℕ) (a : Aid) (x x' : ScpSession × W)
      → new aid ≡ ok a
      → Sent t b03 b02 (delete_object aid false) x x'
      → Deleted aid x x'
  Sent-Deleted aid a x x' named (capdu, body, built, sent) =
      let (made, low, high) = new-ok aid a named in
      let (apdu, framed, reads, short) = delete_object_framed aid false (omega (arith, high)) in
      let same : apdu ≡ capdu = cc (framed, built) in (capdu, body, rw (sym same) reads, sent)
