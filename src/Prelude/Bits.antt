-- ===== src/Prelude/Bits.antt =====
-- Masks on one byte as arithmetic: every value is checked by evaluation.
use Prim.Native.Nat.{ℕ, zero, suc, ◌+◌, ◌*◌, ◌/◌, ◌%◌, ◌≤◌, ◌<◌, bit_and, bit_or}
use mathlib.Core.Path.{◌≡◌, refl, ap}
use native.Mathlib.Decide.{ℕ_discrete}
use mathlib.Core.Bool.{Bool, true, ◌&&◌}
use mathlib.Core.List.{List}
use mathlib.Core.Option.{Option, none, some}
use native.Mathlib.Omega.{arith}
use scll_rust.Prelude.Tests.{◌==◌, ==_iff, leb, if◌then◌else◌}
use scll_rust.Prelude.Lists.{All}

abbrev pub IsByte : ℕ → Type 0
IsByte b = b < 256

abbrev pub IsBytes : List ℕ → Type 0
IsBytes = All IsByte

-- `true` if the test passes at the `k` numbers from `from` on.
unfoldable pub passes : (ℕ → Bool) → ℕ → ℕ → Bool
passes test from zero = true
passes test from (suc k) = passes test (suc from) k && test from

pub passes_at :
    (test : ℕ → Bool) (from k n : ℕ)
    → passes test from k ≡ true
    → from ≤ n
    → n < from + k
    → test n ≡ true
unfolding passes
passes_at test from zero n all lo hi = absurd (omega arith)
passes_at test from (suc k) n all lo hi = elim (ℕ_discrete from n) [
  | yes here ↦ ground (arith, ap test here)
  | no later ↦ passes_at test (suc from) k n (ground arith) (omega arith) (omega arith)
]

module _ (f g : ℕ → ℕ) where
  pub agree_on_bytes : passes (λ x. f x == g x) 0 256 ≡ true → (x : ℕ) → IsByte x → f x ≡ g x
  agree_on_bytes h x b =
      (==_iff _ _).0 (passes_at (λ y. f y == g y) 0 256 x h (omega arith) (omega arith))

pub low_five : (b : ℕ) → IsByte b → bit_and b 0x1F ≡ b % 32
unfolding passes
low_five = agree_on_bytes _ _ refl

pub low_seven : (b : ℕ) → IsByte b → bit_and b 0x7F ≡ b % 128
unfolding passes
low_seven = agree_on_bytes _ _ refl

pub top_bit : (b : ℕ) → IsByte b → bit_and b 0x80 ≡ b / 128 * 128
unfolding passes
top_bit = agree_on_bytes _ _ refl

pub set_top_bit : (b : ℕ) → b < 128 → bit_or 0x80 b ≡ 128 + b
unfolding passes
set_top_bit b h =
    (==_iff _ _).0
      (passes_at (λ y. bit_or 0x80 y == 128 + y) 0 128 b refl (omega arith) (omega arith))

-- `u8::try_from`
abbrev pub u8_try_from : ℕ → Option ℕ
u8_try_from n = if leb n 255 then some n else none
