-- ===== src/Command/Apdu.antt =====
-- A short command as ISO/IEC 7816-4 section 5.1 defines it, stated without the code of
-- crates/scll-core/src/command: its parts, its octets, and how a card takes the octets apart.
use scll_rust.Prelude.{
  ℕ, ◌+◌, List, [], ◌∷◌, ◌++◌, length, take, drop, ◌==◌, if◌then◌else◌, Option, none, some, Bool,
  true, false,
}

pub record Apdu : Type 0 where
  pub cla : ℕ
  pub ins : ℕ
  pub p1 : ℕ
  pub p2 : ℕ
  pub body : List ℕ
  pub le : Option ℕ

abbrev pub lc_field : List ℕ → List ℕ
lc_field [] = []
lc_field (b ∷ bs) = length (b ∷ bs) ∷ b ∷ bs

abbrev pub le_field : Option ℕ → List ℕ
le_field none = []
le_field (some n) = n ∷ []

-- The octets of a command: the header, `Lc` and the data if there are any, and `Le` if asked for.
unfoldable pub octets : Apdu → List ℕ
octets a = a.cla ∷ a.ins ∷ a.p1 ∷ a.p2 ∷ lc_field a.body ++ le_field a.le

-- The data and the `Le` behind the header; `none` if the octets are no short command.
abbrev pub read_tail : List ℕ → Option (List ℕ × Option ℕ)
read_tail [] = some ([], none)
read_tail (n ∷ []) = some ([], some n)
read_tail (lc ∷ b ∷ bs) =
    if length (b ∷ bs) == lc
    then some (b ∷ bs, none)
    else if length (b ∷ bs) == lc + 1
    then some (take lc (b ∷ bs), last_octet (drop lc (b ∷ bs)))
    else none
  where
    last_octet : List ℕ → Option ℕ
    last_octet [] = none
    last_octet (x ∷ xs) = some x

-- How a card reads a command.
unfoldable pub read_apdu : List ℕ → Option Apdu
read_apdu (cla ∷ ins ∷ p1 ∷ p2 ∷ tail) = elim (read_tail tail) [
  | some (body, le) ↦ some (record { cla = cla; ins = ins; p1 = p1; p2 = p2; body = body; le = le })
  | none ↦ none
]
read_apdu _ = none

abbrev pub le_of : Bool → Option ℕ
le_of true = some 0
le_of false = none
