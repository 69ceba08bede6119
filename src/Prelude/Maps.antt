-- ===== src/Prelude/Maps.antt =====
-- A `HashMap` with number keys as an association list, and sets of distinct keys.
use Prim.Native.Nat.{ℕ, suc, ◌≤◌}
use mathlib.Core.Path.{◌≡◌, refl}
use mathlib.Core.Logic.{inl, inr}
use mathlib.Core.Bool.{Bool, true, false, ◌||◌}
use mathlib.Core.Option.{Option, none, some}
use mathlib.Core.List.{List, [], ◌∷◌}
use native.Mathlib.Omega.{arith}
use scbl.Prelude.Tests.{◌==◌, if◌then◌else◌, Bool-cases}
use scbl.Prelude.Lists.{length, All}

module _ {ℓ} {V : Type ℓ} where
  unfoldable pub lookup : ℕ → List (ℕ × V) → Option V
  lookup key [] = none
  lookup key ((k, value) ∷ rest) = if k == key then some value else lookup key rest

  unfoldable pub insert : ℕ → V → List (ℕ × V) → List (ℕ × V)
  insert key value [] = (key, value) ∷ []
  insert key value ((k, old) ∷ rest) =
      if k == key then (key, value) ∷ rest else (k, old) ∷ insert key value rest

  unfoldable pub remove : ℕ → List (ℕ × V) → List (ℕ × V)
  remove k [] = []
  remove k ((j, w) ∷ m) = if j == k then remove k m else (j, w) ∷ remove k m

  pub lookup-insert :
      (key other : ℕ) (value : V) (m : List (ℕ × V))
      → lookup other (insert key value m) ≡ (if key == other then some value else lookup other m)
  unfolding lookup insert
  lookup-insert key other value ((k, old) ∷ rest) =
      ground (arith, lookup-insert key other value rest)
  lookup-insert key other value [] = refl

  pub lookup-remove :
      (k j : ℕ) (m : List (ℕ × V)) → lookup j (remove k m) ≡ (if k == j then none else lookup j m)
  unfolding lookup remove
  lookup-remove k j [] = ground arith
  lookup-remove k j ((i, w) ∷ m) = ground (arith, lookup-remove k j m)

  abbrev pub keys : List (ℕ × V) → List ℕ
  keys [] = []
  keys ((k, v) ∷ m) = k ∷ keys m

abbrev pub mem : ℕ → List ℕ → Bool
mem k [] = false
mem k (x ∷ xs) = (x == k) || mem k xs

abbrev pub Distinct : List ℕ → Type 0
Distinct [] = Unit {0}
Distinct (x ∷ xs) = (mem x xs ≡ false) × Distinct xs

-- The numbers 1 to `h`.
abbrev pub IsId : ℕ → ℕ → Type 0
IsId h k = (1 ≤ k) × (k ≤ h)

module _ {ℓ} {V : Type ℓ} where
  pub lookup_absent : (k : ℕ) (m : List (ℕ × V)) → lookup k m ≡ none → mem k (keys m) ≡ false
  unfolding lookup
  lookup_absent k [] e = refl
  lookup_absent k ((j, v) ∷ m) e = ground (arith, lookup_absent k m)

  pub lookup_present :
      (k : ℕ) (m : List (ℕ × V)) → mem k (keys m) ≡ true → (v : V) × (lookup k m ≡ some v)
  unfolding lookup
  lookup_present k [] e = cc
  lookup_present k ((j, v) ∷ m) e = elim (Bool-cases (j == k)) [
    | inl hit ↦ (v, rw hit)
    | inr miss ↦ rw miss (lookup_present k m (rw miss at e))
  ]

  pub lookup_held : (k : ℕ) (v : V) (m : List (ℕ × V)) → lookup k m ≡ some v → mem k (keys m) ≡ true
  unfolding lookup
  lookup_held k v [] e = cc
  lookup_held k v ((j, w) ∷ m) e = elim (Bool-cases (j == k)) [
    | inl hit ↦ rw hit
    | inr miss ↦ rw miss (lookup_held k v m (rw miss at e))
  ]

  -- Inserting a new key appends its entry.
  pub keys-insert_new :
      (k : ℕ) (v : V) (m : List (ℕ × V)) (j : ℕ)
      → mem k (keys m) ≡ false
      → (mem j (keys (insert k v m)) ≡ ((k == j) || mem j (keys m)))
        × (length (keys (insert k v m)) ≡ suc (length (keys m)))
  unfolding insert
  keys-insert_new k v [] j e = (refl, refl)
  keys-insert_new k v ((i, w) ∷ m) j e = ground (arith, keys-insert_new k v m j)

  pub Distinct-insert_new :
      (k : ℕ) (v : V) (m : List (ℕ × V))
      → mem k (keys m) ≡ false
      → Distinct (keys m)
      → Distinct (keys (insert k v m))
  unfolding insert
  Distinct-insert_new k v [] e d = (refl, tt)
  Distinct-insert_new k v ((i, w) ∷ m) e d =
      ground (arith, keys-insert_new k v m i, Distinct-insert_new k v m)

  pub All-insert_new :
      (P : ℕ → Type 0) (k : ℕ) (v : V) (m : List (ℕ × V))
      → mem k (keys m) ≡ false
      → P k
      → All P (keys m)
      → All P (keys (insert k v m))
  unfolding insert
  All-insert_new P k v [] e p h = (p, tt)
  All-insert_new P k v ((i, w) ∷ m) e p h = elim (Bool-cases (i == k)) [
    | inl hit ↦ cc (rw hit at e)
    | inr miss ↦ rw miss (h.0, All-insert_new P k v m (rw miss at e) p h.1)
  ]
