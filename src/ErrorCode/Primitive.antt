-- ===== src/ErrorCode/Primitive.antt =====
-- What `TryFromPrimitive` and `IntoPrimitive` of the crate num_enum derive for an enum with explicit
-- 16-bit values: a number is read as the variant that has it.
use scbl.Prelude.{ℕ, ◌<◌, ◌≡◌, ◌==◌, List, [], ◌∷◌, Option, none, some, if◌then◌else◌, subst, arith}
use native.Mathlib.Decide.{ℕ_discrete}

module _ {A : Type 0} (code : A → ℕ) where
  unfoldable pub try_from_primitive : List A → ℕ → Option A
  try_from_primitive [] n = none
  try_from_primitive (a ∷ rest) n = if code a == n then some a else try_from_primitive rest n

  -- The codes of the variants are 16-bit words and distinct.
  pub record IsNumbered (variants : List A) : Type 0 where
    pub word : (a : A) → code a < 65536
    pub back : (a : A) → try_from_primitive variants (code a) ≡ some a

  pub code-try_from_primitive :
      (variants : List A) (n : ℕ) (a : A) → try_from_primitive variants n ≡ some a → code a ≡ n
  unfolding try_from_primitive
  code-try_from_primitive [] n a e = cc
  code-try_from_primitive (b ∷ rest) n a e = elim (ℕ_discrete (code b) n) [
    | yes hit ↦ (let same : b ≡ a = ground (arith, hit) in subst (λ q. code q ≡ n) same hit)
    | no miss ↦ code-try_from_primitive rest n a (ground (arith, miss))
  ]
