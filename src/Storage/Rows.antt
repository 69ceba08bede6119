-- ===== src/Storage/Rows.antt =====
-- The clauses of SQL that server/dedicated-server/src/storage/mod.rs uses, on a table that is the list
-- of its rows: WHERE, EXISTS, UPDATE, and ORDER BY of a number.
use scbl.Prelude.{
  ℕ, suc, ◌≡◌, refl, ltb, leb, ◌==◌, Bool, true, false, ◌||◌, List, [], ◌∷◌, Option, none, some,
  if◌then◌else◌, Bool-cases, inl, inr, All, arith,
}
use scbl.Prelude.Maps.{mem}

module _ {A : Type 0} where
  unfoldable pub select : (A → Bool) → List A → List A
  select p [] = []
  select p (x ∷ xs) = let rest = select p xs in if p x then x ∷ rest else rest

  unfoldable pub delete_rows : (A → Bool) → List A → List A
  delete_rows p [] = []
  delete_rows p (x ∷ xs) = let rest = delete_rows p xs in if p x then rest else x ∷ rest

  unfoldable pub has_row : (A → Bool) → List A → Bool
  has_row p [] = false
  has_row p (x ∷ xs) = p x || has_row p xs

  unfoldable pub update_rows : (A → Bool) → (A → A) → List A → List A
  update_rows p f [] = []
  update_rows p f (x ∷ xs) = let rest = update_rows p f xs in (if p x then f x else x) ∷ rest

  unfoldable pub first_row : (A → Bool) → List A → Option A
  first_row p [] = none
  first_row p (x ∷ xs) = let rest = first_row p xs in if p x then some x else rest

  -- A property of all rows stays where it is that of each new row.
  pub All-update_rows :
      (P Q : A → Type 0) (p : A → Bool) (f : A → A) (xs : List A)
      → ((x : A) → p x ≡ true → P x → Q (f x))
      → ((x : A) → p x ≡ false → P x → Q x)
      → All P xs
      → All Q (update_rows p f xs)
  unfolding update_rows
  All-update_rows P Q p f [] hit miss h = tt
  All-update_rows P Q p f (x ∷ xs) hit miss h = elim (Bool-cases (p x)) [
    | inl e ↦ rw e (hit x e h.0, All-update_rows P Q p f xs hit miss h.1)
    | inr e ↦ rw e (miss x e h.0, All-update_rows P Q p f xs hit miss h.1)
  ]

  pub All-select :
      (P : A → Type 0) (p : A → Bool) (xs : List A)
      → ((x : A) → p x ≡ true → P x)
      → All P (select p xs)
  unfolding select
  All-select P p [] h = tt
  All-select P p (x ∷ xs) h = elim (Bool-cases (p x)) [
    | inl e ↦ rw e (h x e, All-select P p xs h)
    | inr e ↦ rw e (All-select P p xs h)
  ]

  pub All-weaken : (P Q : A → Type 0) (xs : List A) → ((x : A) → P x → Q x) → All P xs → All Q xs
  All-weaken P Q [] h k = tt
  All-weaken P Q (x ∷ xs) h k = (h x k.0, All-weaken P Q xs h k.1)

  -- The row that is found satisfies the condition.
  pub first_row-holds : (p : A → Bool) (xs : List A) (x : A) → first_row p xs ≡ some x → p x ≡ true
  unfolding first_row
  first_row-holds p [] x e = cc
  first_row-holds p (y ∷ xs) x e = elim (Bool-cases (p y)) [
    | inl hit ↦ cc (rw hit at e)
    | inr miss ↦ first_row-holds p xs x (rw miss at e)
  ]

  pub first_row-none :
      (p : A → Bool) (xs : List A) → first_row p xs ≡ none → All (λ x. p x ≡ false) xs
  unfolding first_row
  first_row-none p [] e = tt
  first_row-none p (y ∷ xs) e = elim (Bool-cases (p y)) [
    | inl hit ↦ cc (rw hit at e)
    | inr miss ↦ (miss, first_row-none p xs (rw miss at e))
  ]

-- ORDER BY of distinct numbers.
unfoldable pub insert_sorted : ℕ → List ℕ → List ℕ
insert_sorted x [] = x ∷ []
insert_sorted x (y ∷ ys) =
    let rest = insert_sorted x ys in if leb x y then x ∷ (y ∷ ys) else y ∷ rest

unfoldable pub sort_ids : List ℕ → List ℕ
unfolding insert_sorted
sort_ids [] = []
sort_ids (x ∷ xs) = insert_sorted x (sort_ids xs)

-- `collect::<HashSet<_>>()`; the order of a set is taken to be that of the list.
unfoldable pub to_set : List ℕ → List ℕ
to_set [] = []
to_set (x ∷ xs) = let rest = to_set xs in if mem x rest then rest else x ∷ rest

-- The next INTEGER PRIMARY KEY: one more than the largest.
unfoldable pub next_id : List ℕ → ℕ
next_id [] = 1
next_id (x ∷ xs) = let rest = next_id xs in if ltb x rest then rest else suc x

pub mem-insert_sorted :
    (k x : ℕ) (xs : List ℕ) → mem k (insert_sorted x xs) ≡ ((x == k) || mem k xs)
unfolding insert_sorted
mem-insert_sorted k x [] = refl
mem-insert_sorted k x (y ∷ ys) = ground (arith, mem-insert_sorted k x ys)

pub mem-sort_ids : (k : ℕ) (xs : List ℕ) → mem k (sort_ids xs) ≡ mem k xs
unfolding sort_ids
mem-sort_ids k [] = refl
mem-sort_ids k (x ∷ xs) =
    let ih = mem-sort_ids k xs in rw (mem-insert_sorted k x (sort_ids xs), ih) refl

next_id-above : (k : ℕ) (xs : List ℕ) → mem k xs ≡ true → ltb k (next_id xs) ≡ true
unfolding next_id
next_id-above k [] e = cc
next_id-above k (x ∷ xs) e = ground (arith, e, next_id-above k xs)

pub next_id_fresh : (xs : List ℕ) → mem (next_id xs) xs ≡ false
next_id_fresh xs = elim (Bool-cases (mem (next_id xs) xs)) [
  | inl there ↦ let low = next_id-above (next_id xs) xs there in ground (arith, low)
  | inr absent ↦ absent
]

pub All-zip :
    {A : Type 0} (P Q R : A → Type 0) (xs : List A)
    → ((x : A) → P x → Q x → R x)
    → All P xs
    → All Q xs
    → All R xs
All-zip P Q R [] f h k = tt
All-zip P Q R (x ∷ xs) f h k = (f x h.0 k.0, All-zip P Q R xs f h.1 k.1)
