-- ===== src/Prelude/Bits.antt =====
-- Masks and shifts of one byte as arithmetic; each is a table of at most 256 entries, checked by
-- evaluation.
use Prim.Native.Nat.{ℕ, zero, suc, ◌+◌, ◌*◌, ◌/◌, ◌%◌, ◌<◌, bit_and, bit_or, bit_xor}
use mathlib.Core.Path.{◌≡◌, refl}
use mathlib.Core.Bool.{Bool, true, false}
use mathlib.Core.Logic.{ite}
use native.Mathlib.Decide.{ℕ_discrete}
use native.Mathlib.Omega.{arith}

module _ (f g : ℕ → ℕ) where
  agree_below : ℕ → Bool
  unfolding ℕ_discrete
  agree_below zero = true
  agree_below (suc n) = ite (ℕ_discrete (f n) (g n)) (agree_below n) false

  agree_below→eq : (n : ℕ) → agree_below n ≡ true → (i : ℕ) → i < n → f i ≡ g i
  unfolding agree_below
  agree_below→eq zero e i h = absurd (omega arith)
  agree_below→eq (suc n) e i h = ground (arith, agree_below→eq n (ground arith) i)

pub bit_and-15 : (b : ℕ) → b < 256 → bit_and b 15 ≡ b % 16
unfolding agree_below
bit_and-15 = agree_below→eq _ _ 256 refl

pub bit_and-7 : (b : ℕ) → b < 256 → bit_and b 7 ≡ b % 8
unfolding agree_below
bit_and-7 = agree_below→eq _ _ 256 refl

pub bit_and-128 : (b : ℕ) → b < 256 → bit_and b 128 ≡ b / 128 * 128
unfolding agree_below
bit_and-128 = agree_below→eq _ _ 256 refl

pub bit_and-127 : (b : ℕ) → b < 256 → bit_and b 127 ≡ b % 128
unfolding agree_below
bit_and-127 = agree_below→eq _ _ 256 refl

pub bit_and-255 : (b : ℕ) → b < 65536 → bit_and b 255 ≡ b % 256
unfolding agree_below
bit_and-255 = agree_below→eq _ _ 65536 refl

pub bit_or-128 : (b : ℕ) → b < 128 → bit_or b 128 ≡ b + 128
unfolding agree_below
bit_or-128 = agree_below→eq _ _ 128 refl

pub bit_or-128_high : (b : ℕ) → b < 128 → bit_or (b + 128) 128 ≡ b + 128
unfolding agree_below
bit_or-128_high = agree_below→eq (λ b. bit_or (b + 128) 128) (λ b. b + 128) 128 refl

nibbles : (n : ℕ) → n < 256 → bit_or (n % 16) (n / 16 * 16) ≡ n
unfolding agree_below
nibbles = agree_below→eq _ _ 256 refl

-- Two disjoint groups of bits joined by `|` are added.
pub bit_or_nibbles : (lo hi : ℕ) → lo < 16 → hi < 16 → bit_or lo (hi * 16) ≡ lo + hi * 16
bit_or_nibbles lo hi a b =
    let l : (lo + hi * 16) % 16 ≡ lo = omega arith in
    let h : (lo + hi * 16) / 16 ≡ hi = omega arith in
    rw (l, h) at (nibbles (lo + hi * 16) (omega arith))

triples : (n : ℕ) → n < 256 → bit_or (n % 8) (n / 8 * 8) ≡ n
unfolding agree_below
triples = agree_below→eq _ _ 256 refl

pub bit_or_triples : (lo hi : ℕ) → lo < 8 → hi < 32 → bit_or lo (hi * 8) ≡ lo + hi * 8
bit_or_triples lo hi a b =
    let l : (lo + hi * 8) % 8 ≡ lo = omega arith in
    let h : (lo + hi * 8) / 8 ≡ hi = omega arith in
    rw (l, h) at (triples (lo + hi * 8) (omega arith))

-- All pairs of bytes, for `^`: the pair (a, b) is the number a * 256 + b.
xor_back : (n : ℕ) → n < 65536 → bit_xor (n / 256) (bit_xor (n / 256) (n % 256)) ≡ n % 256
unfolding agree_below
xor_back = agree_below→eq _ _ 65536 refl

pub bit_xor_cancel : (a b : ℕ) → a < 256 → b < 256 → bit_xor a (bit_xor a b) ≡ b
bit_xor_cancel a b h k =
    let hi : (a * 256 + b) / 256 ≡ a = omega arith in
    let lo : (a * 256 + b) % 256 ≡ b = omega arith in
    rw (hi, lo) at (xor_back (a * 256 + b) (omega arith))

xor_byte : (n : ℕ) → n < 65536 → bit_xor (n / 256) (n % 256) / 256 ≡ 0
unfolding agree_below
xor_byte = agree_below→eq _ (λ n. 0) 65536 refl

pub bit_xor-IsByte : (a b : ℕ) → a < 256 → b < 256 → bit_xor a b < 256
bit_xor-IsByte a b h k =
    let hi : (a * 256 + b) / 256 ≡ a = omega arith in
    let lo : (a * 256 + b) % 256 ≡ b = omega arith in
    let small : bit_xor a b / 256 ≡ 0 = rw (hi, lo) at (xor_byte (a * 256 + b) (omega arith)) in
    omega arith
