-- ===== src/Scp/Scp03/Levels.antt =====
-- The security level that `cap_security_level` of crates/scll-core/src/scp/scp03.rs fixes.
use scll_rust.Prelude.{
  ℕ, ◌+◌, ◌*◌, ◌/◌, ◌%◌, ◌≡◌, refl, ◌==◌, if◌then◌else◌, ok, err, arith, bit_and,
}
use scll_rust.Prelude.Bits.{IsByte, passes, agree_on_bytes}
use scll_rust.Error.{ScllError}
use scll_rust.Scp.Scp03.{cap_security_level}

-- The requested level less what the card's `i` parameter does not offer: C-MAC and C-DECRYPTION
-- (1 and 2) stay, R-MAC (16) stays if `i` has the bit 32, and R-ENCRYPTION (32) if it has the bit 64.
abbrev pub offered : ℕ → ℕ → ℕ
offered i requested =
    requested % 4 + i / 32 % 2 * (requested / 16 % 2 * 16) + i / 64 % 2 * (requested / 32 % 2 * 32)

rmac_bit : (i : ℕ) → IsByte i → bit_and i 0x20 ≡ i / 32 % 2 * 32
unfolding passes
rmac_bit = agree_on_bytes _ _ refl

renc_bit : (i : ℕ) → IsByte i → bit_and i 0x40 ≡ i / 64 % 2 * 64
unfolding passes
renc_bit = agree_on_bytes _ _ refl

mask_none : (r : ℕ) → IsByte r → bit_and r 0x03 ≡ r % 4
unfolding passes
mask_none = agree_on_bytes _ _ refl

mask_rmac : (r : ℕ) → IsByte r → bit_and r 0x13 ≡ r % 4 + r / 16 % 2 * 16
unfolding passes
mask_rmac = agree_on_bytes _ _ refl

mask_renc : (r : ℕ) → IsByte r → bit_and r 0x23 ≡ r % 4 + r / 32 % 2 * 32
unfolding passes
mask_renc = agree_on_bytes _ _ refl

mask_both : (r : ℕ) → IsByte r → bit_and r 0x33 ≡ r % 4 + r / 16 % 2 * 16 + r / 32 % 2 * 32
unfolding passes
mask_both = agree_on_bytes _ _ refl

-- `cap_security_level` returns the requested level less what the card does not offer, and
-- `NoCommonSecurityLevel` exactly if nothing is left of it.
pub cap_security_level_lem :
    (i requested : ℕ)
    → IsByte i
    → IsByte requested
    → cap_security_level i requested ≡ (
        if offered i requested == 0
        then err ScllError.no_common_security_level
        else ok (offered i requested))
unfolding cap_security_level
cap_security_level_lem i r hi hr = ground (
  arith,
  rmac_bit i hi,
  renc_bit i hi,
  mask_none r hr,
  mask_rmac r hr,
  mask_renc r hr,
  mask_both r hr,
)
