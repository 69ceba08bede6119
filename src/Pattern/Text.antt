-- ===== src/Pattern/Text.antt =====
-- A pattern is parsed back from the text that it is printed as.
use scbl.Prelude.{
  ℕ, suc, ◌<◌, ◌≤◌, ◌/◌, ◌≡◌, ◌==◌, refl, ap, false, List, [], ◌∷◌, length, map, is_empty, some, ok,
  All, if◌then◌else◌, Bool-cases, inl, inr, arith,
}
use scbl.Pattern.{
  PatternNibble, wildcard, exact, to_digit, exact_digit, parse_nibble, nibble_matches, PatternOctet,
  full, part, octet_matches, all_match, matches, parse_nibbles, add_nibble, octets_of, pattern_of,
  from_str, hex_digit, nibble_to_char, octet_to_string, to_string,
}

abbrev pub IsNibble : PatternNibble → Type 0
IsNibble wildcard = Unit {0}
IsNibble (exact n) = n < 16

abbrev pub IsOctet : PatternOctet → Type 0
IsOctet (full high low) = IsNibble high × IsNibble low
IsOctet (part nibble) = IsNibble nibble

-- A single nibble is printed with a question mark behind it.
unfoldable pub completed : PatternOctet → PatternOctet
completed (full high low) = full high low
completed (part nibble) = full nibble wildcard

hex_back : (n : ℕ) → n < 16 → to_digit (hex_digit n) ≡ some n
unfolding hex_digit to_digit
hex_back n h = ground (arith, h)

hex_digit-ge : (n : ℕ) → 48 ≤ hex_digit n
unfolding hex_digit
hex_digit-ge n = ground arith

hex_digit-other : (n c : ℕ) → n < 16 → c < 48 → (hex_digit n == c) ≡ false
hex_digit-other n c h k = ground (arith, hex_digit-ge n)

hex_digit-known : (n : ℕ) → n < 16 → (hex_digit n == 63) ≡ false
unfolding hex_digit
hex_digit-known n h = ground (arith, h)

nibble_back :
    (n : PatternNibble)
    → IsNibble n
    → (parse_nibble (nibble_to_char n) ≡ some n) × ((nibble_to_char n == 32) ≡ false)
unfolding parse_nibble nibble_to_char exact_digit
nibble_back wildcard h = (refl, refl)
nibble_back (exact n) h =
    (rw (hex_digit-known n h, hex_back n h) refl, hex_digit-other n 32 h (omega arith))

nibbles_of : List PatternOctet → List PatternNibble
nibbles_of [] = []
nibbles_of (full high low ∷ octets) = high ∷ low ∷ nibbles_of octets
nibbles_of (part nibble ∷ octets) = nibble ∷ wildcard ∷ nibbles_of octets

printed :
    (n : PatternNibble) (s : List ℕ) (rest : List PatternNibble)
    → IsNibble n
    → parse_nibbles s ≡ some rest
    → parse_nibbles (nibble_to_char n ∷ s) ≡ some (n ∷ rest)
unfolding parse_nibbles add_nibble
printed n s rest h e = let back = nibble_back n h in rw (back.0, back.1, e) refl

after_blank :
    (octets : List PatternOctet) (nibbles : List PatternNibble)
    → parse_nibbles (to_string octets) ≡ some nibbles
    → parse_nibbles (if is_empty octets then [] else (32 ∷ to_string octets)) ≡ some nibbles
unfolding parse_nibbles to_string
after_blank [] nibbles e = e
after_blank (o ∷ octets) nibbles e = e

text_back :
    (octets : List PatternOctet)
    → All IsOctet octets
    → parse_nibbles (to_string octets) ≡ some (nibbles_of octets)
unfolding to_string octet_to_string nibbles_of
text_back [] h = unfold parse_nibbles in refl
text_back (full high low ∷ octets) h =
    printed high _ _ h.0.0 (printed low _ _ h.0.1 (after_blank octets _ (text_back octets h.1)))
text_back (part nibble ∷ octets) h =
    printed nibble _ _ h.0 (printed wildcard _ _ tt (after_blank octets _ (text_back octets h.1)))

octets_back : (octets : List PatternOctet) → octets_of (nibbles_of octets) ≡ map completed octets
unfolding nibbles_of octets_of completed
octets_back [] = refl
octets_back (full high low ∷ octets) =
    ap (λ (q : List PatternOctet). full high low ∷ q) (octets_back octets)
octets_back (part nibble ∷ octets) =
    ap (λ (q : List PatternOctet). full nibble wildcard ∷ q) (octets_back octets)

completed_matches :
    (octets : List PatternOctet) (bytes : List ℕ)
    → all_match (map completed octets) bytes ≡ all_match octets bytes
unfolding all_match completed octet_matches
completed_matches [] bytes = refl
completed_matches (full high low ∷ octets) [] = refl
completed_matches (part nibble ∷ octets) [] = refl
completed_matches (full high low ∷ octets) (b ∷ bytes) = rw (completed_matches octets bytes) refl
completed_matches (part nibble ∷ octets) (b ∷ bytes) =
    elim (Bool-cases (nibble_matches nibble (b / 16))) [
      | inl hit ↦ rw hit (completed_matches octets bytes)
      | inr miss ↦ rw miss refl
    ]

length-completed : (octets : List PatternOctet) → length (map completed octets) ≡ length octets
length-completed [] = refl
length-completed (o ∷ octets) = ap suc (length-completed octets)

-- The text of a pattern whose nibbles are hexadecimal digits or wildcards is parsed to a pattern that
-- matches the same bytes: the pattern itself, with a wildcard behind each single nibble.
pub from_str-to_string :
    (octets : List PatternOctet)
    → All IsOctet octets
    → (from_str (to_string octets) ≡ ok (map completed octets))
      × ((bytes : List ℕ) → matches (map completed octets) bytes ≡ matches octets bytes)
unfolding from_str pattern_of matches
from_str-to_string octets h = (
  rw (text_back octets h, octets_back octets) refl,
  λ bytes. rw (length-completed octets, completed_matches octets bytes) refl,
)
