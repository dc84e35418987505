-- ===== src/Prelude/Bits.antt =====
-- Single bits of an unsigned word: `w & (1 << k)` as a test, and `w |= 1 << k`.
use native.Mathlib.Nat.{pow-suc, mul_comm}
use jam_client_prototype.Prelude.{
  ℕ, zero, suc, ◌+◌, ◌*◌, ◌/◌, ◌%◌, ◌^◌, ◌<◌, ◌≡◌, refl, ◌∙◌, ◌⊎◌, Bool, true, false, arith, ◌==◌,
  if◌then◌else◌,
}

unfoldable pub test_bit : ℕ → ℕ → Bool
test_bit w zero = w % 2 == 1
test_bit w (suc k) = test_bit (w / 2) k

unfoldable pub set_bit : ℕ → ℕ → ℕ
set_bit w zero = if w % 2 == 1 then w else w + 1
set_bit w (suc k) = w % 2 + 2 * set_bit (w / 2) k

-- The law of a map: the bit that is set, and no other.
pub test_bit-set_bit :
    (w k j : ℕ) → test_bit (set_bit w k) j ≡ (if k == j then true else test_bit w j)
unfolding test_bit set_bit
test_bit-set_bit w zero zero = ground arith
test_bit-set_bit w zero (suc j) =
    let half : (w + 1) / 2 ≡ w / 2 ⊎ (w % 2 ≡ 1) = omega arith in ground (arith, half)
test_bit-set_bit w (suc k) zero =
    let low : (w % 2 + 2 * set_bit (w / 2) k) % 2 ≡ w % 2 = omega arith in rw low (ground arith)
test_bit-set_bit w (suc k) (suc j) =
    let high : (w % 2 + 2 * set_bit (w / 2) k) / 2 ≡ set_bit (w / 2) k = omega arith in
    rw high (test_bit-set_bit (w / 2) k j ∙ ground arith)

pub test_bit-zero : (k : ℕ) → test_bit 0 k ≡ false
unfolding test_bit
test_bit-zero zero = refl
test_bit-zero (suc k) = test_bit-zero k

pub set_bit-lt : (w k n : ℕ) → k < n → w < 2 ^ n → set_bit w k < 2 ^ n
unfolding set_bit
set_bit-lt w k zero h l = absurd (omega arith)
set_bit-lt w zero (suc n) h l =
    let even : 2 ^ suc n ≡ 2 * 2 ^ n = rw pow-suc (mul_comm (2 ^ n) 2) in ground (arith, even)
set_bit-lt w (suc k) (suc n) h l =
    let even : 2 ^ suc n ≡ 2 * 2 ^ n = rw pow-suc (mul_comm (2 ^ n) 2) in
    omega (arith, even, set_bit-lt (w / 2) k n (omega arith) (omega (arith, even)))
