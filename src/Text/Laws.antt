-- ===== src/Text/Laws.antt =====
-- Numbers are parsed back from their decimals, and parts from the text that joins them.
use scbl.Prelude.{
  ◌^◌, ◌⊎◌, ℕ, zero, suc, ◌+◌, ◌*◌, ◌/◌, ◌%◌, ◌<◌, ◌≤◌, ◌≡◌, ◌==◌, refl, ap, ◌∙◌, ltb, true, false,
  List, [], ◌∷◌, ◌++◌, length, drop-append, Option, none, some, All, All-append, Bool-cases, inl,
  inr, arith,
}
use native.Mathlib.Nat.{pow-suc}
use scbl.Text.{
  digits, to_decimal, add_digit, parse_digits, parse_some_digits, parse_unsigned, starts_with,
  add_front, split_once, add_to_first, split, join,
}

abbrev pub IsDigit : ℕ → Type 0
IsDigit c = (48 ≤ c) × (c ≤ 57)

digits-IsDigit : (fuel n : ℕ) → All IsDigit (digits fuel n)
unfolding digits
digits-IsDigit zero n = ((omega arith, omega arith), tt)
digits-IsDigit (suc fuel) n = elim (Bool-cases (ltb n 10)) [
  | inl small ↦ rw small ((omega arith, ground arith), tt)
  | inr large ↦ rw large (
      All-append IsDigit (digits fuel (n / 10)) ((48 + n % 10) ∷ []) (digits-IsDigit fuel (n / 10))
        ((omega arith, omega arith), tt))
]

parse_digits-append :
    (bound : ℕ) (acc : Option ℕ) (xs ys : List ℕ)
    → parse_digits bound acc (xs ++ ys) ≡ parse_digits bound (parse_digits bound acc xs) ys
unfolding parse_digits
parse_digits-append bound none xs ys = refl
parse_digits-append bound (some acc) [] ys = refl
parse_digits-append bound (some acc) (x ∷ xs) ys =
    parse_digits-append bound (add_digit bound acc x) xs ys

add_digit_back :
    (bound acc d : ℕ)
    → d < 10
    → acc * 10 + d < bound
    → add_digit bound acc (48 + d) ≡ some (acc * 10 + d)
unfolding add_digit
add_digit_back bound acc d h k = ground (arith, h, k)

parse_end : (bound : ℕ) (acc : Option ℕ) → parse_digits bound acc [] ≡ acc
unfolding parse_digits
parse_end bound none = refl
parse_end bound (some acc) = refl

last_digit :
    (bound acc d : ℕ)
    → d < 10
    → acc * 10 + d < bound
    → parse_digits bound (some acc) ((48 + d) ∷ []) ≡ some (acc * 10 + d)
unfolding parse_digits
last_digit bound acc d h k =
    parse_end bound (add_digit bound acc (48 + d)) ∙ add_digit_back bound acc d h k

digits_back :
    (bound fuel n : ℕ)
    → n < 10 ^ suc fuel
    → n < bound
    → parse_digits bound (some 0) (digits fuel n) ≡ some n
unfolding digits
digits_back bound zero n h k =
    let plain : 0 * 10 + n % 10 ≡ n = omega (arith, h) in
    last_digit bound 0 (n % 10) (omega arith) (omega (arith, k, plain)) ∙ ap some plain
digits_back bound (suc fuel) n h k = elim (Bool-cases (ltb n 10)) [
  | inl small ↦
      let plain : 0 * 10 + n ≡ n = omega arith in
      rw small (last_digit bound 0 n (ground arith) (omega (arith, k)) ∙ ap some plain)
  | inr large ↦
      let whole : n / 10 * 10 + n % 10 ≡ n = omega arith in
      rw
        (
          large,
          parse_digits-append bound (some 0) (digits fuel (n / 10)) ((48 + n % 10) ∷ []),
          digits_back bound fuel (n / 10) (omega (arith, h, pow-suc 10 (suc fuel)))
              (omega (arith, k)),
        )
        (last_digit bound (n / 10) (n % 10) (omega arith) (omega (arith, k, whole)) ∙ ap some whole)
]

append_not_empty : (xs : List ℕ) (c : ℕ) → ¬ (xs ++ (c ∷ []) ≡ [])
append_not_empty [] c e = cc
append_not_empty (x ∷ xs) c e = cc

not_empty : (fuel n : ℕ) → ¬ (digits fuel n ≡ [])
unfolding digits
not_empty zero n e = cc
not_empty (suc fuel) n e = elim (Bool-cases (ltb n 10)) [
  | inl small ↦ cc (rw small at e)
  | inr large ↦ append_not_empty (digits fuel (n / 10)) (48 + n % 10) (rw large at e)
]

unsigned_back :
    (bound n : ℕ) (s : List ℕ)
    → All IsDigit s
    → parse_digits bound (some 0) s ≡ some n
    → ¬ (s ≡ [])
    → parse_unsigned bound s ≡ some n
unfolding parse_unsigned parse_some_digits
unsigned_back bound n [] a e some_digit = absurd (some_digit refl)
unsigned_back bound n (c ∷ s) a e some_digit =
    let other : (c == 43) ≡ false = ground (arith, a) in rw other e

pub parse_unsigned-to_decimal :
    (bound n : ℕ) → bound ≤ 2 ^ 64 → n < bound → parse_unsigned bound (to_decimal n) ≡ some n
unfolding to_decimal
parse_unsigned-to_decimal bound n w h =
    unsigned_back bound n (digits 20 n) (digits-IsDigit 20 n)
      (digits_back bound 20 n (omega (arith, w, h)) h) (not_empty 20 n)

pub to_decimal-IsDigit : (n : ℕ) → All IsDigit (to_decimal n)
unfolding to_decimal
to_decimal-IsDigit n = digits-IsDigit 20 n

-- A text without a character.
abbrev pub Lacks : ℕ → List ℕ → Type 0
Lacks c = All (λ x. (c == x) ≡ false)

pub digits-Lacks : (c : ℕ) (s : List ℕ) → (c < 48) ⊎ (57 < c) → All IsDigit s → Lacks c s
digits-Lacks c [] h a = tt
digits-Lacks c (x ∷ s) h a = (ground (arith, h, a), digits-Lacks c s h a.1)

starts_back : (pat rest : List ℕ) → starts_with pat (pat ++ rest) ≡ true
unfolding starts_with
starts_back [] rest = refl
starts_back (p ∷ pat) rest =
    let same : (p == p) ≡ true = ground arith in rw same (starts_back pat rest)

-- What stands before a separator lacks its first character.
pub split_once-append :
    (p : ℕ) (pat front rest : List ℕ)
    → Lacks p front
    → split_once (p ∷ pat) (front ++ ((p ∷ pat) ++ rest)) ≡ some (front, rest)
unfolding split_once
split_once-append p pat [] rest h =
    rw (starts_back (p ∷ pat) rest)
      (ap (λ (q : List ℕ). some ([], q)) (drop-append (length (p ∷ pat)) (p ∷ pat) rest refl))
split_once-append p pat (c ∷ front) rest h =
    let miss : starts_with (p ∷ pat) (c ∷ (front ++ ((p ∷ pat) ++ rest))) ≡ false =
      (unfold starts_with in rw h.0 refl) in
    rw (miss, split_once-append p pat front rest h.1) (unfold add_front in refl)

split_part :
    (sep : ℕ) (part rest : List ℕ)
    → Lacks sep part
    → split sep (part ++ (sep ∷ rest)) ≡ part ∷ split sep rest
unfolding split
split_part sep [] rest h = let same : (sep == sep) ≡ true = ground arith in rw same refl
split_part sep (c ∷ part) rest h =
    let other : (c == sep) ≡ false = ground (arith, h) in
    rw (other, split_part sep part rest h.1) (unfold add_to_first in refl)

split_last : (sep : ℕ) (part : List ℕ) → Lacks sep part → split sep part ≡ part ∷ []
unfolding split
split_last sep [] h = refl
split_last sep (c ∷ part) h =
    let other : (c == sep) ≡ false = ground (arith, h) in
    rw (other, split_last sep part h.1) (unfold add_to_first in refl)

-- One part at least.
pub split-join :
    (sep : ℕ) (part : List ℕ) (parts : List (List ℕ))
    → All (Lacks sep) (part ∷ parts)
    → split sep (join sep (part ∷ parts)) ≡ part ∷ parts
unfolding join
split-join sep part [] h = split_last sep part h.0
split-join sep part (next ∷ parts) h =
    split_part sep part (join sep (next ∷ parts)) h.0
    ∙ ap (λ (q : List (List ℕ)). part ∷ q) (split-join sep next parts h.1)
