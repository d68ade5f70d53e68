-- ===== src/Workflow/OpenScp/Update.antt =====
-- INITIALIZE UPDATE as crates/scll-core/src/scp/{scp03, scp02}.rs write it.
use scll_rust.Prelude.{ℕ, ◌≡◌, List, [], ◌∷◌, ◌++◌, length, ok, arith}
use scll_rust.Prelude.Heapless.{Heapless}
use scll_rust.Command.Frame.{push_lem}
use scll_rust.Scp.Scp03
use scll_rust.Scp.Scp02

-- The octets of INITIALIZE UPDATE: the header with the key version number, the length of the
-- challenge, the challenge, and `Le` 0.
abbrev pub IsUpdate : ℕ → ℕ → List ℕ → List ℕ → Type 0
IsUpdate kvn lc challenge capdu =
    capdu ≡ ((0x80 ∷ 0x50 ∷ kvn ∷ 0x00 ∷ lc ∷ []) ++ challenge) ++ (0x00 ∷ [])

module _ ⦃hl : Heapless⦄ where
  pub iu_03-IsUpdate :
      (kvn : ℕ) (challenge capdu : List ℕ)
      → Scp03.iu_command kvn challenge ≡ ok capdu
      → IsUpdate kvn (length challenge) challenge capdu
  unfolding Scp03.iu_command Scp03.extend
  iu_03-IsUpdate kvn challenge capdu h =
      let a1 : List ℕ = 0x80 ∷ 0x50 ∷ kvn ∷ 0x00 ∷ length challenge ∷ [] in
      ground (arith, push_lem [] a1, push_lem a1 challenge, push_lem (a1 ++ challenge) (0x00 ∷ []))

  pub iu_02-IsUpdate :
      (kvn : ℕ) (challenge capdu : List ℕ)
      → Scp02.iu_command kvn 0x00 challenge ≡ ok capdu
      → IsUpdate kvn 8 challenge capdu
  unfolding Scp02.iu_command Scp02.extend
  iu_02-IsUpdate kvn challenge capdu h =
      let a1 : List ℕ = 0x80 ∷ 0x50 ∷ kvn ∷ 0x00 ∷ 8 ∷ [] in
      ground (arith, push_lem [] a1, push_lem a1 challenge, push_lem (a1 ++ challenge) (0x00 ∷ []))
