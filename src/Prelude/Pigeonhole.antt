-- ===== src/Prelude/Pigeonhole.antt =====
-- Distinct numbers from 1 to `h`: at most `h` of them, and all of them if there are `h`.
use Prim.Native.Nat.{ℕ, zero, suc, ◌≤◌}
use mathlib.Core.Path.{◌≡◌, refl, subst}
use mathlib.Core.Logic.{◌≢◌, inl, inr}
use mathlib.Core.Bool.{true, false}
use mathlib.Core.List.{List, [], ◌∷◌}
use native.Mathlib.Omega.{arith}
use native.Mathlib.Decide.{ℕ_discrete}
use scbl.Prelude.Tests.{◌==◌, if◌then◌else◌, Bool-cases}
use scbl.Prelude.Lists.{length, All}
use scbl.Prelude.Maps.{mem, Distinct, IsId}

delete : ℕ → List ℕ → List ℕ
delete k [] = []
delete k (x ∷ xs) = if x == k then xs else x ∷ delete k xs

length-delete : (k : ℕ) (xs : List ℕ) → mem k xs ≡ true → length xs ≡ suc (length (delete k xs))
unfolding delete
length-delete k [] e = cc
length-delete k (x ∷ xs) e = ground (arith, length-delete k xs)

mem-delete : (k j : ℕ) (xs : List ℕ) → k ≢ j → mem j (delete k xs) ≡ mem j xs
unfolding delete
mem-delete k j [] h = refl
mem-delete k j (x ∷ xs) h = ground (arith, mem-delete k j xs h)

Distinct-delete : (k : ℕ) (xs : List ℕ) → Distinct xs → Distinct (delete k xs)
unfolding delete
Distinct-delete k [] d = tt
Distinct-delete k (x ∷ xs) d = ground (arith, mem-delete k x xs, Distinct-delete k xs d.1)

-- Without the largest of them the others lie below it.
IsId-absent :
    (h : ℕ) (xs : List ℕ) → All (IsId (suc h)) xs → mem (suc h) xs ≡ false → All (IsId h) xs
IsId-absent h [] a e = tt
IsId-absent h (x ∷ xs) a e = ground (arith, IsId-absent h xs a.1)

IsId-delete :
    (h : ℕ) (xs : List ℕ) → All (IsId (suc h)) xs → Distinct xs → All (IsId h) (delete (suc h) xs)
unfolding delete
IsId-delete h [] a d = tt
IsId-delete h (x ∷ xs) a d = ground (arith, IsId-delete h xs a.1 d.1, IsId-absent h xs a.1)

pub length-le_of_IsId : (h : ℕ) (xs : List ℕ) → All (IsId h) xs → Distinct xs → length xs ≤ h
length-le_of_IsId zero [] a d = omega arith
length-le_of_IsId zero (x ∷ xs) a d = absurd (omega arith)
length-le_of_IsId (suc h) xs a d = elim (Bool-cases (mem (suc h) xs)) [
  | inl there ↦ omega (
    arith,
    length-delete (suc h) xs there,
    length-le_of_IsId h (delete (suc h) xs) (IsId-delete h xs a d) (Distinct-delete (suc h) xs d),
  )
  | inr missing ↦ omega (arith, length-le_of_IsId h xs (IsId-absent h xs a missing) d)
]

pub mem_of_full :
    (h : ℕ) (xs : List ℕ) (k : ℕ)
    → All (IsId h) xs
    → Distinct xs
    → length xs ≡ h
    → IsId h k
    → mem k xs ≡ true
mem_of_full zero xs k a d e i = absurd (omega arith)
mem_of_full (suc h) xs k a d e i = elim (Bool-cases (mem (suc h) xs)) [
  | inr missing ↦ absurd (omega (arith, length-le_of_IsId h xs (IsId-absent h xs a missing) d))
  | inl there ↦ elim (ℕ_discrete (suc h) k) [
    | yes same ↦ subst (λ (j : ℕ). mem j xs ≡ true) same there
    | no other ↦ rw (← mem-delete (suc h) k xs other) (
        mem_of_full h (delete (suc h) xs) k (IsId-delete h xs a d) (Distinct-delete (suc h) xs d)
          (omega (arith, length-delete (suc h) xs there)) (omega (arith, other)))
  ]
]

pub length-ge_of_full :
    (h : ℕ) (xs : List ℕ) → ((k : ℕ) → IsId h k → mem k xs ≡ true) → h ≤ length xs
length-ge_of_full zero xs full = omega arith
length-ge_of_full (suc h) xs full =
    let there = full (suc h) (omega arith) in
    let rest = length-ge_of_full h (delete (suc h) xs) (λ k i.
      let other : suc h ≢ k = λ e. omega (arith, i, e) in
      let kept = mem-delete (suc h) k xs other in rw kept (full k (omega (arith, i)))) in
    omega (arith, rest, length-delete (suc h) xs there)
