-- ===== src/Prelude/Words.antt =====
-- One bit of a word of any width, set by `|` and cleared by `&`.
use Prim.Native.Nat.{
  ℕ, zero, suc, ◌+◌, ◌*◌, ◌/◌, ◌%◌, ◌^◌, ◌≤◌, ◌<◌, min, max, digits, bitwise, bit_and, bit_or,
  bit_and-bitwise, bit_or-bitwise,
}
use native.Mathlib.Nat.{pow-suc}
use mathlib.Core.Path.{◌≡◌, refl}
use native.Mathlib.Omega.{arith}

-- The native operations recur on their first argument as fuel; more of it changes nothing.
module _ (low : ℕ → ℕ) (join : ℕ → ℕ → ℕ) where
  digits_enough :
      (fuel more x y : ℕ)
      → x ≤ more
      → x ≤ fuel
      → digits low join fuel x y ≡ digits low join more x y
  digits_enough (suc fuel) (suc more) (suc x) y p q =
      rw (digits_enough fuel more (suc x / 2) (y / 2) (omega arith) (omega arith))
  digits_enough (suc fuel) (suc more) zero y p q = refl
  digits_enough (suc fuel) zero (suc x) y p q = absurd (omega arith)
  digits_enough (suc fuel) zero zero y p q = refl
  digits_enough zero (suc more) (suc x) y p q = absurd (omega arith)
  digits_enough zero (suc more) zero y p q = refl
  digits_enough zero zero x y p q = refl

  pub bitwise_low :
      (x y half : ℕ)
      → half ≡ suc x / 2
      → bitwise low join (suc x) y ≡ join (suc x % 2) (y % 2) + 2 * bitwise low join half (y / 2)
  bitwise_low x y half e =
      let same = digits_enough x half half (y / 2) (omega arith) (omega (arith, e)) in
      rw (← e) (omega (arith, same))

pub bit_or_low : (x y : ℕ) → bit_or x y ≡ max (x % 2) (y % 2) + 2 * bit_or (x / 2) (y / 2)
bit_or_low (suc x) y = simp bit_or-bitwise (bitwise_low (λ rest. rest) max x y (suc x / 2) refl)
bit_or_low zero y = simp bit_or-bitwise (omega arith)

pub bit_and_low : (x y : ℕ) → bit_and x y ≡ min (x % 2) (y % 2) + 2 * bit_and (x / 2) (y / 2)
bit_and_low (suc x) y = simp bit_and-bitwise (bitwise_low (λ rest. 0) min x y (suc x / 2) refl)
bit_and_low zero y = simp bit_and-bitwise (omega arith)

pub bit_or-zero_fuel : (n a : ℕ) → a ≤ n → bit_or a 0 ≡ a
bit_or-zero_fuel n zero h = refl
bit_or-zero_fuel zero (suc a) h = absurd (omega arith)
bit_or-zero_fuel (suc n) (suc a) h =
    omega (arith, bit_or_low (suc a) 0, bit_or-zero_fuel n (suc a / 2) (omega arith))

-- Bit `k` of `a` is 0.
abbrev pub IsClear : ℕ → ℕ → Type 0
IsClear zero a = a % 2 ≡ 0
IsClear (suc k) a = IsClear k (a / 2)

pub bit_or-pow : (k a : ℕ) → IsClear k a → bit_or a (2 ^ k) ≡ a + 2 ^ k
bit_or-pow zero a h = omega (arith, bit_or_low a 1, bit_or-zero_fuel (a / 2) (a / 2) (omega arith))
bit_or-pow (suc k) a h =
    let half : 2 ^ suc k / 2 ≡ 2 ^ k = omega (arith, pow-suc 2 k) in
    let even : 2 ^ suc k % 2 ≡ 0 = omega (arith, pow-suc 2 k) in
    let low = rw (half, even) at (bit_or_low a (2 ^ suc k)) in
    omega (arith, low, pow-suc 2 k, bit_or-pow k (a / 2) h)

-- A word of `w` ones.
abbrev pub ones : ℕ → ℕ
ones zero = 0
ones (suc w) = ones w * 2 + 1

bit_and-ones : (w a : ℕ) → a < 2 ^ w → bit_and a (ones w) ≡ a
bit_and-ones zero zero h = refl
bit_and-ones zero (suc a) h = absurd (omega arith)
bit_and-ones (suc w) a h =
    let half : (ones w * 2 + 1) / 2 ≡ ones w = omega arith in
    let odd : (ones w * 2 + 1) % 2 ≡ 1 = omega arith in
    let low = rw (half, odd) at (bit_and_low a (ones w * 2 + 1)) in
    omega (arith, low, bit_and-ones w (a / 2) (omega (arith, h, pow-suc 2 w)))

-- All ones but bit `k`, and `w` ones above it.
abbrev pub all_but : ℕ → ℕ → ℕ
all_but zero w = ones w * 2
all_but (suc k) w = all_but k w * 2 + 1

-- Clearing a bit that was set.
pub bit_and-all_but :
    (k w a : ℕ) → IsClear k a → a < 2 ^ (k + suc w) → bit_and (a + 2 ^ k) (all_but k w) ≡ a
bit_and-all_but zero w a h b =
    let half : (ones w * 2) / 2 ≡ ones w = omega arith in
    let even : (ones w * 2) % 2 ≡ 0 = omega arith in
    let low = rw (half, even) at (bit_and_low (a + 1) (ones w * 2)) in
    let same : (a + 1) / 2 ≡ a / 2 = omega arith in
    let low' = rw same at low in
    let width : zero + suc w ≡ suc w = omega arith in
    let b' = rw width at b in
    omega (arith, low', h, bit_and-ones w (a / 2) (omega (arith, b', pow-suc 2 w)))
bit_and-all_but (suc k) w a h b =
    let half : (all_but k w * 2 + 1) / 2 ≡ all_but k w = omega arith in
    let odd : (all_but k w * 2 + 1) % 2 ≡ 1 = omega arith in
    let low = rw (half, odd) at (bit_and_low (a + 2 ^ suc k) (all_but k w * 2 + 1)) in
    let same : (a + 2 ^ suc k) / 2 ≡ a / 2 + 2 ^ k = omega (arith, pow-suc 2 k) in
    let low' = rw same at low in
    let width : suc k + suc w ≡ suc (k + suc w) = omega arith in
    let b' = rw width at b in
    let rest = bit_and-all_but k w (a / 2) h (omega (arith, b', pow-suc 2 (k + suc w))) in
    omega (arith, low', rest, pow-suc 2 k)
