-- ===== src/Text.antt =====
-- The standard library's operations on text that the code uses: decimal numbers, `split_once`, `split`
-- and `join`. A text is the list of its bytes; every separator is ASCII.
pub mod Laws
use scbl.Prelude.{
  ℕ, zero, suc, ◌+◌, ◌-◌, ◌*◌, ◌/◌, ◌%◌, ◌==◌, leb, ltb, Bool, true, false, ◌&&◌, List, [], ◌∷◌,
  ◌++◌, length, drop, Option, none, some, if◌then◌else◌,
}

-- `Display` of an unsigned number of at most 64 bits, which has at most 20 digits.
unfoldable pub digits : ℕ → ℕ → List ℕ
digits zero n = (48 + n % 10) ∷ []
digits (suc fuel) n =
    if ltb n 10 then (48 + n) ∷ [] else digits fuel (n / 10) ++ ((48 + n % 10) ∷ [])

unfoldable pub to_decimal : ℕ → List ℕ
unfolding digits
to_decimal n = digits 20 n

unfoldable pub add_digit : ℕ → ℕ → ℕ → Option ℕ
add_digit bound acc c =
    if leb 48 c && leb c 57 && ltb (acc * 10 + (c - 48)) bound
    then some (acc * 10 + (c - 48))
    else none

-- The digits behind `acc`; a value of `bound` or more overflows.
unfoldable pub parse_digits : ℕ → Option ℕ → List ℕ → Option ℕ
unfolding add_digit
parse_digits bound none s = none
parse_digits bound (some acc) [] = some acc
parse_digits bound (some acc) (c ∷ s) = parse_digits bound (add_digit bound acc c) s

unfoldable pub parse_some_digits : ℕ → List ℕ → Option ℕ
unfolding parse_digits
parse_some_digits bound [] = none
parse_some_digits bound (c ∷ s) = parse_digits bound (some 0) (c ∷ s)

-- `parse` to an unsigned number below `bound`; 43 is a plus sign.
unfoldable pub parse_unsigned : ℕ → List ℕ → Option ℕ
unfolding parse_some_digits
parse_unsigned bound [] = none
parse_unsigned bound (c ∷ s) =
    if c == 43 then parse_some_digits bound s else parse_some_digits bound (c ∷ s)

unfoldable pub starts_with : List ℕ → List ℕ → Bool
starts_with [] s = true
starts_with (p ∷ pat) [] = false
starts_with (p ∷ pat) (c ∷ s) = (p == c) && starts_with pat s

unfoldable pub add_front : ℕ → Option (List ℕ × List ℕ) → Option (List ℕ × List ℕ)
add_front c none = none
add_front c (some (front, rest)) = some (c ∷ front, rest)

-- `split_once` at a separator that is not empty.
unfoldable pub split_once : List ℕ → List ℕ → Option (List ℕ × List ℕ)
unfolding starts_with add_front
split_once pat [] = none
split_once pat (c ∷ s) =
    let later = split_once pat s in
    if starts_with pat (c ∷ s) then some ([], drop (length pat) (c ∷ s)) else add_front c later

unfoldable pub add_to_first : ℕ → List (List ℕ) → List (List ℕ)
add_to_first c [] = (c ∷ []) ∷ []
add_to_first c (part ∷ parts) = (c ∷ part) ∷ parts

-- `split` at a character; there is always one part.
unfoldable pub split : ℕ → List ℕ → List (List ℕ)
unfolding add_to_first
split sep [] = [] ∷ []
split sep (c ∷ s) = let rest = split sep s in if c == sep then [] ∷ rest else add_to_first c rest

-- `join` with a character.
unfoldable pub join : ℕ → List (List ℕ) → List ℕ
join sep [] = []
join sep (part ∷ []) = part
join sep (part ∷ (next ∷ parts)) = part ++ (sep ∷ join sep (next ∷ parts))
