-- ===== src/Rc4/Permutation.antt =====
-- The state of the cipher is at every time a permutation of 0, 1, …, 255, so that every index into
-- it is in range and every byte of the keystream is a byte.
use scbl.Prelude.{
  ℕ, zero, suc, ◌+◌, ◌≤◌, ◌<◌, ◌≡◌, refl, ap, ◌∙◌, ◌≢◌, inl, inr, List, [], ◌∷◌, length, set,
  length-set, IsBytes, ok, arith, Bool-cases, ok-injective, not, is_empty, leb, ◌&&◌,
}
use scbl.Rc4.{Rc4, count_from, index, swap, schedule, new, next}
use mathlib.Core.List.{Perm, Permᴰ}
use mathlib.Core.Path.{subst}
use mathlib.Core.Logic.{∥∥₁_elim}
use mathlib.Core.HLevel.{×_prop}
use native.Mathlib.Bridge.{le_prop}
use mathlib.Core.List.Perm
use native.Mathlib.Decide.{ℕ_discrete}

pub length-count_from : (n count : ℕ) → length (count_from n count) ≡ count
unfolding count_from
length-count_from n zero = refl
length-count_from n (suc count) = ap suc (length-count_from (suc n) count)

pub length-swap : (xs : List ℕ) (i j : ℕ) → length (swap xs i j) ≡ length xs
unfolding swap
length-swap xs i j = length-set (set xs i _) j _ ∙ length-set xs i _

-- Writing one place exchanges the old value for the new one.
perm-set : (xs : List ℕ) (i v : ℕ) → i < length xs → Perm (index xs i ∷ set xs i v) (v ∷ xs)
perm-set [] i v h = absurd (omega arith)
perm-set (x ∷ xs) zero v h = Perm.swap v x xs
perm-set (x ∷ xs) (suc i) v h =
    Perm.trans (Perm.swap x (index xs i) (set xs i v))
      (Perm.trans (Perm.cons x (perm-set xs i v (omega arith))) (Perm.swap v x xs))

index-set_self : (xs : List ℕ) (i v : ℕ) → i < length xs → index (set xs i v) i ≡ v
index-set_self [] i v h = absurd (omega arith)
index-set_self (x ∷ xs) zero v h = refl
index-set_self (x ∷ xs) (suc i) v h = index-set_self xs i v (omega arith)

index-set_ne : (xs : List ℕ) (i j v : ℕ) → i ≢ j → index (set xs i v) j ≡ index xs j
index-set_ne [] i j v h = refl
index-set_ne (x ∷ xs) zero zero v h = absurd (h refl)
index-set_ne (x ∷ xs) zero (suc j) v h = refl
index-set_ne (x ∷ xs) (suc i) zero v h = refl
index-set_ne (x ∷ xs) (suc i) (suc j) v h = index-set_ne xs i j v (λ e. h (ap suc e))

index-swapped :
    (xs : List ℕ) (i j : ℕ) → i < length xs → index (set xs i (index xs j)) j ≡ index xs j
index-swapped xs i j h = elim (ℕ_discrete i j) [
  | yes e ↦ rw (← e) (index-set_self xs i (index xs i) h)
  | no ne ↦ index-set_ne xs i j (index xs j) ne
]

pub perm-swap : (xs : List ℕ) (i j : ℕ) → i < length xs → j < length xs → Perm (swap xs i j) xs
unfolding swap
perm-swap xs i j hi hj = Perm.cons_inv {a = index xs j} (Perm.trans second first)
  where
    ys : List ℕ
    ys = set xs i (index xs j)

    first : Perm (index xs i ∷ ys) (index xs j ∷ xs)
    first = perm-set xs i (index xs j) hi

    second : Perm (index xs j ∷ set ys j (index xs i)) (index xs i ∷ ys)
    second =
        rw (index-swapped xs i j hi) at
          (perm-set ys j (index xs i) (omega (arith, length-set xs i (index xs j))))

-- The bytes in some order.
abbrev pub IsPermutation : List ℕ → Type 0
IsPermutation xs = (length xs ≡ 256) × Perm xs (count_from 0 256)

count_from-IsBytes : (n count : ℕ) → n + count ≤ 256 → IsBytes (count_from n count)
unfolding count_from
count_from-IsBytes n zero h = tt
count_from-IsBytes n (suc count) h = (omega arith, count_from-IsBytes (suc n) count (omega arith))

IsBytes-prop : (xs : List ℕ) → IsProp (IsBytes xs)
IsBytes-prop [] = hlevel
IsBytes-prop (x ∷ xs) = ×_prop le_prop (IsBytes-prop xs)

IsBytes-permᴰ : {xs ys : List ℕ} → Permᴰ xs ys → IsBytes ys → IsBytes xs
IsBytes-permᴰ Permᴰ.nil h = tt
IsBytes-permᴰ (Permᴰ.cons e p) h = (rw e h.0, IsBytes-permᴰ p h.1)
IsBytes-permᴰ (Permᴰ.swap e f) h = (rw e h.1.0, (rw f h.0, h.1.1))
IsBytes-permᴰ (Permᴰ.trans p q) h = IsBytes-permᴰ p (IsBytes-permᴰ q h)

pub IsPermutation-IsBytes : (xs : List ℕ) → IsPermutation xs → IsBytes xs
IsPermutation-IsBytes xs p =
    ∥∥₁_elim p.1 (IsBytes-prop xs) (λ q. IsBytes-permᴰ q (count_from-IsBytes 0 256 (omega arith)))

pub swap-IsPermutation :
    (xs : List ℕ) (i j : ℕ) → i < 256 → j < 256 → IsPermutation xs → IsPermutation (swap xs i j)
swap-IsPermutation xs i j hi hj p =
    (length-swap xs i j ∙ p.0, Perm.trans (perm-swap xs i j (omega arith) (omega arith)) p.1)

schedule-IsPermutation :
    (rounds i j : ℕ) (key state : List ℕ)
    → i + rounds ≤ 256
    → IsPermutation state
    → IsPermutation (schedule rounds i j key state)
unfolding schedule
schedule-IsPermutation zero i j key state h p = p
schedule-IsPermutation (suc rounds) i j key state h p =
    schedule-IsPermutation rounds (suc i) _ key _ (omega arith)
      (swap-IsPermutation state i _ (omega arith) (omega arith) p)

-- The cipher's state is well formed: two indices that are bytes, and a permutation.
pub record IsValid (r : Rc4) : Type 0 where
  pub i_byte : r.i < 256
  pub j_byte : r.j < 256
  pub permuted : IsPermutation r.state

initial-IsPermutation : IsPermutation (count_from 0 256)
initial-IsPermutation = (length-count_from 0 256, Perm.refl _)

-- The state that `Rc4::new` returns is a permutation of the 256 bytes, and its indices are bytes.
pub new-IsValid : {E : Type 0} (key : List ℕ) (r : Rc4) → new {E = E} key ≡ ok r → IsValid r
unfolding new
new-IsValid {E} key r e = elim (Bool-cases (not (is_empty key) && leb (length key) 256)) [
  | inl fits ↦ subst IsValid (ok-injective (rw fits at e)) started
  | inr other ↦ cc (rw other at e)
]
  where
    started : IsValid (record { i = 0; j = 0; state = schedule 256 0 0 key (count_from 0 256) })
    started = record {
      i_byte = omega arith;
      j_byte = omega arith;
      permuted =
          schedule-IsPermutation 256 0 0 key (count_from 0 256) (omega arith) initial-IsPermutation;
    }

-- Each step of the keystream keeps the state a permutation of the 256 bytes and the indices bytes.
pub next-IsValid : (r : Rc4) → IsValid r → IsValid (next r).1
unfolding next
next-IsValid r v = record {
  i_byte = omega arith;
  j_byte = omega arith;
  permuted = swap-IsPermutation r.state _ _ (omega arith) (omega arith) v.permuted;
}

-- A byte in range of the state is a byte, and out of range the model reads 0.
pub index-IsByte : (xs : List ℕ) (i : ℕ) → IsBytes xs → index xs i < 256
index-IsByte [] i h = omega arith
index-IsByte (x ∷ xs) zero h = h.0
index-IsByte (x ∷ xs) (suc i) h = index-IsByte xs i h.1

pub next-IsByte : (r : Rc4) → IsValid r → (next r).0 < 256
unfolding next
next-IsByte r v = index-IsByte _ _ (IsPermutation-IsBytes _ (next-IsValid r v).permuted)
