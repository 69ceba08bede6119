-- ===== src/Prelude/Shifts.antt =====
-- The operations on bits where one operand is a power of two, or a number below one.
use Prim.Native.Nat.{
  ℕ, zero, suc, ◌+◌, ◌*◌, ◌/◌, ◌%◌, ◌^◌, ◌≤◌, ◌<◌, differ, bit_and, bit_or, bit_xor,
  bit_xor-bitwise,
}
use native.Mathlib.Nat.{pow-suc, mul_assoc}
use mathlib.Core.Path.{◌≡◌, refl}
use native.Mathlib.Omega.{arith}
use scbl.Prelude.Words.{IsClear, bitwise_low, bit_or_low, bit_and_low, bit_or-zero_fuel}

bit_xor_low : (x y : ℕ) → bit_xor x y ≡ differ (x % 2) (y % 2) + 2 * bit_xor (x / 2) (y / 2)
bit_xor_low (suc x) y =
    simp bit_xor-bitwise (bitwise_low (λ rest. rest) differ x y (suc x / 2) refl)
bit_xor_low zero y = simp bit_xor-bitwise (omega arith)

-- Nothing is common with no bits, by halving a number below the bound.
no_common_bit : (bound x : ℕ) → x < bound → bit_and x 0 ≡ 0
no_common_bit zero x below = absurd (omega arith)
no_common_bit (suc bound) zero below = refl
no_common_bit (suc bound) (suc x) below =
    let half = no_common_bit bound (suc x / 2) (omega arith) in
    let low = bit_and_low (suc x) 0 in omega (arith, half, low)

twice_shifted : (a b : ℕ) → a * (b * 2) ≡ 2 * (a * b)
twice_shifted a b = simp (← mul_assoc a b 2) (omega arith)

pub bit_and-zero : (a : ℕ) → bit_and a 0 ≡ 0
bit_and-zero a = let below : a < suc a = omega arith in no_common_bit (suc a) a below

-- A number above `w` bits and one of `w` bits.
pub bit_or_shifted : (w hi lo : ℕ) → lo < 2 ^ w → bit_or (hi * 2 ^ w) lo ≡ hi * 2 ^ w + lo
bit_or_shifted zero hi zero h = omega (arith, bit_or-zero_fuel (hi * 1) (hi * 1) (omega arith))
bit_or_shifted zero hi (suc lo) h = absurd (omega arith)
bit_or_shifted (suc w) hi lo h =
    let twice : hi * 2 ^ suc w ≡ 2 * (hi * 2 ^ w) = rw (pow-suc 2 w) (twice_shifted hi (2 ^ w)) in
    let half : (2 * (hi * 2 ^ w)) / 2 ≡ hi * 2 ^ w = omega arith in
    let even : (2 * (hi * 2 ^ w)) % 2 ≡ 0 = omega arith in
    let low = rw (half, even) at (bit_or_low (2 * (hi * 2 ^ w)) lo) in
    rw twice (omega (arith, low, bit_or_shifted w hi (lo / 2) (omega (arith, h, pow-suc 2 w))))

pub below-IsClear : (k a : ℕ) → a < 2 ^ k → IsClear k a
below-IsClear zero a h = omega arith
below-IsClear (suc k) a h = below-IsClear k (a / 2) (omega (arith, h, pow-suc 2 k))

module _ (k : ℕ) where
  half_pow : 2 ^ suc k / 2 ≡ 2 ^ k
  half_pow = omega (arith, pow-suc 2 k)

  even_pow : 2 ^ suc k % 2 ≡ 0
  even_pow = omega (arith, pow-suc 2 k)

  half_above : (a : ℕ) → (a + 2 ^ suc k) / 2 ≡ a / 2 + 2 ^ k
  half_above a = omega (arith, pow-suc 2 k)

pub bit_and-clear : (k a : ℕ) → IsClear k a → bit_and a (2 ^ k) ≡ 0
bit_and-clear zero a h = omega (arith, h, bit_and_low a 1, bit_and-zero (a / 2))
bit_and-clear (suc k) a h =
    let low = rw (half_pow k, even_pow k) at (bit_and_low a (2 ^ suc k)) in
    omega (arith, low, bit_and-clear k (a / 2) h)

pub bit_and-set : (k a : ℕ) → IsClear k a → bit_and (a + 2 ^ k) (2 ^ k) ≡ 2 ^ k
bit_and-set zero a h = omega (arith, h, bit_and_low (a + 1) 1, bit_and-zero ((a + 1) / 2))
bit_and-set (suc k) a h =
    let low =
      rw (half_pow k, even_pow k, half_above k a) at (bit_and_low (a + 2 ^ suc k) (2 ^ suc k)) in
    omega (arith, low, pow-suc 2 k, bit_and-set k (a / 2) h)

differ-zero : (x : ℕ) → differ x 0 ≡ x
differ-zero zero = refl
differ-zero (suc x) = refl

bit_xor-zero_fuel : (n a : ℕ) → a ≤ n → bit_xor a 0 ≡ a
bit_xor-zero_fuel n zero h = simp bit_xor-bitwise refl
bit_xor-zero_fuel zero (suc a) h = absurd (omega arith)
bit_xor-zero_fuel (suc n) (suc a) h = omega (
  arith,
  bit_xor_low (suc a) 0,
  bit_xor-zero_fuel n (suc a / 2) (omega arith),
  differ-zero (suc a % 2),
)

pub bit_xor-set : (k a : ℕ) → IsClear k a → bit_xor (a + 2 ^ k) (2 ^ k) ≡ a
bit_xor-set zero a h =
    let odd : (a + 1) % 2 ≡ 1 = omega (arith, h) in
    let half : (a + 1) / 2 ≡ a / 2 = omega (arith, h) in
    let low = rw (odd, half) at (bit_xor_low (a + 1) 1) in
    omega (arith, h, low, bit_xor-zero_fuel (a / 2) (a / 2) (omega arith))
bit_xor-set (suc k) a h =
    let low =
      rw (half_pow k, even_pow k, half_above k a) at (bit_xor_low (a + 2 ^ suc k) (2 ^ suc k)) in
    omega (
      arith,
      low,
      bit_xor-set k (a / 2) h,
      differ-zero ((a + 2 ^ suc k) % 2),
      half_above k a,
      pow-suc 2 k,
    )
