-- ===== src/Prelude/Words.antt =====
-- Bitwise operators on unsigned words as arithmetic: `|` of fields that do not overlap, `&` with a
-- mask of low bits, and shifts.
use Prim.Native.Nat.{min, max, digits, bit_and, bit_or, bit_and-bitwise, bit_or-bitwise}
use native.Mathlib.Nat.{pow-suc, mul_comm, one-le-pow}
use jam_client_prototype.Prelude.{
  ℕ, zero, suc, ◌+◌, ◌-◌, ◌*◌, ◌/◌, ◌%◌, ◌^◌, ◌≤◌, ◌<◌, ◌≡◌, refl, ap, ◌∙◌, arith,
}

-- The recursion on digits stops by itself: more fuel than the number changes nothing.
module _ (rest : ℕ → ℕ) (digit : ℕ → ℕ → ℕ) where
  digits-enough : (n m a b : ℕ) → a ≤ n → a ≤ m → digits rest digit n a b ≡ digits rest digit m a b
  digits-enough zero zero zero b p q = refl
  digits-enough zero (suc m) zero b p q = refl
  digits-enough (suc n) zero zero b p q = refl
  digits-enough (suc n) (suc m) zero b p q = refl
  digits-enough zero m (suc a) b p q = absurd (omega arith)
  digits-enough (suc n) zero (suc a) b p q = absurd (omega arith)
  digits-enough (suc n) (suc m) (suc a) b p q =
      omega (arith, digits-enough n m (suc a / 2) (b / 2) (omega arith) (omega arith))

zero-bit_and : (b : ℕ) → bit_and 0 b ≡ 0
zero-bit_and b = bit_and-bitwise 0 b

pub zero-bit_or : (b : ℕ) → bit_or 0 b ≡ b
zero-bit_or b = bit_or-bitwise 0 b

bit_and_halves : (a b : ℕ) → bit_and a b ≡ 2 * bit_and (a / 2) (b / 2) + min (a % 2) (b % 2)
bit_and_halves zero b = omega (arith, zero-bit_and b, zero-bit_and (b / 2))
bit_and_halves (suc a) b = omega (
  arith,
  bit_and-bitwise (suc a) b,
  bit_and-bitwise (suc a / 2) (b / 2),
  digits-enough (λ _. 0) min a (suc a / 2) (suc a / 2) (b / 2) (omega arith) (omega arith),
)

bit_or_halves : (a b : ℕ) → bit_or a b ≡ 2 * bit_or (a / 2) (b / 2) + max (a % 2) (b % 2)
bit_or_halves zero b = omega (arith, zero-bit_or b, zero-bit_or (b / 2))
bit_or_halves (suc a) b = omega (
  arith,
  bit_or-bitwise (suc a) b,
  bit_or-bitwise (suc a / 2) (b / 2),
  digits-enough (λ y. y) max a (suc a / 2) (suc a / 2) (b / 2) (omega arith) (omega arith),
)

bit_and-zero_below : (n a : ℕ) → a ≤ n → bit_and a 0 ≡ 0
bit_and-zero_below n zero h = zero-bit_and 0
bit_and-zero_below zero (suc a) h = absurd (omega arith)
bit_and-zero_below (suc n) (suc a) h =
    omega (arith, bit_and_halves (suc a) 0, bit_and-zero_below n (suc a / 2) (omega arith))

bit_or-zero_below : (n a : ℕ) → a ≤ n → bit_or a 0 ≡ a
bit_or-zero_below n zero h = zero-bit_or 0
bit_or-zero_below zero (suc a) h = absurd (omega arith)
bit_or-zero_below (suc n) (suc a) h =
    omega (arith, bit_or_halves (suc a) 0, bit_or-zero_below n (suc a / 2) (omega arith))

two_pow-suc : (k : ℕ) → 2 ^ suc k ≡ 2 * 2 ^ k
two_pow-suc k = rw pow-suc (mul_comm (2 ^ k) 2)

mul-two_pow-suc : (q k : ℕ) → q * 2 ^ suc k ≡ 2 * (q * 2 ^ k)
mul-two_pow-suc q k = omega (arith, ap (λ t. q * t) (two_pow-suc k))

-- A mask of low bits drops a field that is above it.
bit_and_fields : (k q r : ℕ) → r < 2 ^ k → bit_and (q * 2 ^ k + r) (2 ^ k - 1) ≡ r
bit_and_fields zero q r h = omega (arith, bit_and-zero_below (q * 1 + r) (q * 1 + r) (omega arith))
bit_and_fields (suc k) q r h =
    let two = two_pow-suc k in
    let even = mul-two_pow-suc q k in
    let mask : (2 ^ suc k - 1) / 2 ≡ 2 ^ k - 1 = omega (arith, two, one-le-pow k 2) in
    let odd : (2 ^ suc k - 1) % 2 ≡ 1 = omega (arith, two, one-le-pow k 2) in
    let high : (q * 2 ^ suc k + r) / 2 ≡ q * 2 ^ k + r / 2 = omega (arith, even) in
    let tail : bit_and ((q * 2 ^ suc k + r) / 2) ((2 ^ suc k - 1) / 2) ≡ r / 2 =
      rw (high, mask) (bit_and_fields k q (r / 2) (omega (arith, two))) in
    omega (arith, bit_and_halves (q * 2 ^ suc k + r) (2 ^ suc k - 1), tail, odd, even)

-- `a & (2 ^ k - 1)`
pub bit_and_mask : (k a : ℕ) → bit_and a (2 ^ k - 1) ≡ a % 2 ^ k
bit_and_mask k a =
    let split : a ≡ a / 2 ^ k * 2 ^ k + a % 2 ^ k = omega (arith, one-le-pow k 2) in
    let low : a % 2 ^ k < 2 ^ k = omega (arith, one-le-pow k 2) in
    ap (λ t. bit_and t (2 ^ k - 1)) split ∙ bit_and_fields k (a / 2 ^ k) (a % 2 ^ k) low

-- `(q << k) | r` for an `r` of `k` bits
pub bit_or_fields : (k q r : ℕ) → r < 2 ^ k → bit_or (q * 2 ^ k) r ≡ q * 2 ^ k + r
bit_or_fields zero q r h =
    let none_below : r ≡ 0 = omega arith in
    let all : q * 2 ^ 0 ≡ q = omega arith in
    rw (none_below, all) (bit_or-zero_below q q (omega arith) ∙ omega arith)
bit_or_fields (suc k) q r h =
    let even = mul-two_pow-suc q k in
    let half : q * 2 ^ suc k / 2 ≡ q * 2 ^ k = omega (arith, even) in
    let tail : bit_or (q * 2 ^ suc k / 2) (r / 2) ≡ q * 2 ^ k + r / 2 =
      rw half (bit_or_fields k q (r / 2) (omega (arith, two_pow-suc k))) in
    omega (arith, bit_or_halves (q * 2 ^ suc k) r, tail, even)
