-- ===== src/ErrorCode/Arms.antt =====
-- One arm of the `try_from` of `Error`: it reads back the code of its own error, and no other.
use scbl.Prelude.{
  ℕ, ◌+◌, ◌*◌, ◌/◌, ◌%◌, ◌^◌, ◌<◌, ◌==◌, ◌≡◌, refl, List, some, ok, ok_or, bit_and, bit_xor, false,
  Option-cases, inl, inr, arith,
}
use scbl.Prelude.Maps.{lookup}
use scbl.Prelude.Shifts.{bit_or_shifted, below-IsClear, bit_and-set, bit_xor-set}
use scbl.Prelude.Words.{bit_or-pow}
use scbl.ErrorCode.Primitive.{IsNumbered, try_from_primitive, code-try_from_primitive}
use scbl.ErrorCode.{Error, quazal_code, error_to_u32, read_as, readers, run_reader, error_try_from}

-- The code is a sum.
pub quazal_code_sum :
    (k c : ℕ) → k < 2 ^ 15 → c < 2 ^ 16 → quazal_code k c ≡ k * 2 ^ 16 + c + 2 ^ 31
unfolding quazal_code
quazal_code_sum k c h j =
    let low = bit_or_shifted 16 k c j in
    rw low
      (bit_or-pow 31 (k * 2 ^ 16 + c) (below-IsClear 31 (k * 2 ^ 16 + c) (omega (arith, h, j))))

-- The two tests of `try_from` on a number with the top bit.
top_bit : (x : ℕ) → x < 2 ^ 31 → (bit_and (x + 2 ^ 31) (2 ^ 31) == 0) ≡ false
top_bit x h = let set = bit_and-set 31 x (below-IsClear 31 x h) in ground (arith, set)

rest_of_code : (x : ℕ) → x < 2 ^ 31 → bit_xor (x + 2 ^ 31) (2 ^ 31) ≡ x
rest_of_code x h = bit_xor-set 31 x (below-IsClear 31 x h)

pub try_from_top :
    (x : ℕ)
    → x < 2 ^ 31
    → error_try_from (x + 2 ^ 31) ≡ ok_or (run_reader (lookup (x / 2 ^ 16) readers) x) (x + 2 ^ 31)
unfolding error_try_from
try_from_top x h = rw (top_bit x h, rest_of_code x h) refl

module _ {A : Type 0} (wrap : A → Error) (code : A → ℕ) (variants : List A)
    (n : IsNumbered code variants) where
  -- An arm reads the code of its own error.
  pub read_back :
      (k : ℕ) (a : A)
      → k < 2 ^ 15
      → lookup k readers ≡ some (read_as wrap code variants)
      → error_try_from (quazal_code k (code a)) ≡ ok (wrap a)
  read_back k a h arm =
      let c = n.word a in
      let x = k * 2 ^ 16 + code a in
      let high : x / 2 ^ 16 ≡ k = omega (arith, c) in
      let low : x % 2 ^ 16 ≡ code a = omega (arith, c) in
      rw
        (
          quazal_code_sum k (code a) h c,
          try_from_top x (omega (arith, h, c)),
          high,
          arm,
          low,
          n.back a,
        )
        refl

  -- What an arm reads has the code that it was read from.
  pub read_code :
      (k x : ℕ) (e : Error)
      → k < 2 ^ 15
      → ((a : A) → error_to_u32 (wrap a) ≡ quazal_code k (code a))
      → x / 2 ^ 16 ≡ k
      → read_as wrap code variants x ≡ some e
      → error_to_u32 e ≡ x + 2 ^ 31
  read_code k x e h codes high found =
      elim (Option-cases (try_from_primitive code variants (x % 2 ^ 16))) [
        | inl missing ↦ cc (rw missing at found)
        | inr (a, there) ↦
            let same : wrap a ≡ e = cc (rw there at found) in
            let low = code-try_from_primitive code variants (x % 2 ^ 16) a there in
            rw⁻¹ same
              (rw (codes a, quazal_code_sum k (code a) h (n.word a)) (omega (arith, low, high)))
      ]
