-- ===== src/Fragment/Collect.antt =====
-- The last step of a reassembly: the group holds every id from 1 to `n`, each with its chunk of the
-- message, and the chunks are joined from the highest id down.
use scbl.Prelude.{
  ℕ, zero, suc, ◌*◌, ◌≤◌, ◌≡◌, ◌==◌, true, List, [], ◌∷◌, ◌++◌, some, length, All, refl, ok,
  Bool-cases, Option-cases, ap, inl, inr, arith,
}
use scbl.Prelude.Maps.{lookup, insert, keys, mem, IsId, lookup_present}
use scbl.Fragment.{max_key, collect_fragments}
use scbl.Fragment.Invariant.{total_bytes}

pub length-keys : (m : List (ℕ × List ℕ)) → length (keys m) ≡ length m
length-keys [] = refl
length-keys ((k, c) ∷ m) = omega (arith, length-keys m)

max_key_le : (n m : ℕ) (ks : List ℕ) → All (IsId n) ks → max_key ks ≡ some m → m ≤ n
unfolding max_key
max_key_le n m [] a e = cc
max_key_le n m (k ∷ ks) a e = elim (Option-cases (max_key ks)) [
  | inl last ↦ (let e' = rw last at e in ground arith)
  | inr (j, more) ↦ (let e' = rw more at e in let le = max_key_le n j ks a.1 more in ground (arith))
]

pub max_key_lem : (n : ℕ) (ks : List ℕ) → All (IsId n) ks → mem n ks ≡ true → max_key ks ≡ some n
unfolding max_key
max_key_lem n [] a e = cc
max_key_lem n (k ∷ ks) a e = elim (Bool-cases (mem n ks)) [
  | inl later ↦ rw (max_key_lem n ks a.1 later) (ap some (ground arith))
  | inr here ↦ elim (Option-cases (max_key ks)) [
    | inl last ↦ rw last (ground arith)
    | inr (j, more) ↦ rw more (let le = max_key_le n j ks a.1 more in ap some (ground arith))
  ]
]

module _ (chunk : ℕ → List ℕ) where
  -- The chunks from `n` down to 1.
  unfoldable pub joined : ℕ → List ℕ
  joined zero = []
  joined (suc n) = chunk (suc n) ++ joined n

  -- Each retained fragment is its chunk.
  abbrev pub Agrees : List (ℕ × List ℕ) → Type 0
  Agrees [] = Unit {0}
  Agrees ((k, c) ∷ m) = (c ≡ chunk k) × Agrees m

  pub lookup-Agrees :
      (k : ℕ) (c : List ℕ) (m : List (ℕ × List ℕ)) → Agrees m → lookup k m ≡ some c → c ≡ chunk k
  unfolding lookup
  lookup-Agrees k c [] a e = cc
  lookup-Agrees k c ((j, d) ∷ m) a e = ground (arith, lookup-Agrees k c m a.1)

  pub insert-Agrees : (k : ℕ) (m : List (ℕ × List ℕ)) → Agrees m → Agrees (insert k (chunk k) m)
  unfolding insert
  insert-Agrees k [] a = (refl, tt)
  insert-Agrees k ((j, d) ∷ m) a = elim (Bool-cases (j == k)) [
    | inl hit ↦ rw hit (refl, a.1)
    | inr miss ↦ rw miss (a.0, insert-Agrees k m a.1)
  ]

  pub collect-joined :
      (m : List (ℕ × List ℕ)) (n : ℕ)
      → Agrees m
      → ((k : ℕ) → IsId n k → mem k (keys m) ≡ true)
      → collect_fragments m n ≡ ok (joined n)
  unfolding collect_fragments joined
  collect-joined m zero a all = refl
  collect-joined m (suc n) a all =
      let found = lookup_present (suc n) m (all (suc n) (omega arith)) in
      rw (
        found.1,
        lookup-Agrees (suc n) found.0 m a found.1,
        collect-joined m n a (λ k i. all k (omega (arith, i))),
      )

  -- Chunks of at most `size` bytes.
  pub total_bytes_le :
      (size n : ℕ) (m : List (ℕ × List ℕ))
      → Agrees m
      → All (IsId n) (keys m)
      → ((k : ℕ) → IsId n k → length (chunk k) ≤ size)
      → total_bytes m ≤ size * length (keys m)
  unfolding total_bytes
  total_bytes_le size n [] a ids small = omega arith
  total_bytes_le size n ((k, c) ∷ m) a ids small =
      let c_small : length c ≤ size = rw a.0 (small k ids.0) in
      let rest = total_bytes_le size n m a.1 ids.1 small in grind arith
