-- ===== src/Pattern/Tests.antt =====
-- Patterns of the source's own tests.
use scbl.Prelude.{ℕ, ◌≡◌, refl, true, false, List, [], ◌∷◌, Option, some, ok, err, panic}
use scbl.Pattern.{
  PatternOctet, wildcard, exact, full, part, octet_matches, nibble_matches, parse_nibble, to_digit,
  exact_digit, add_nibble, octets_of, all_match, matches, search_pattern, first_match, windows,
  is_unique, unique_match, from_str, parse_nibbles, pattern_of,
}
use scbl.Pattern.Search.{Finds, search_pattern-Finds}

-- "?? 0? F5"
abbrev three_octets : List PatternOctet
three_octets = full wildcard wildcard ∷ full (exact 0) wildcard ∷ full (exact 15) (exact 5) ∷ []

parsed : from_str (63 ∷ 63 ∷ 32 ∷ 48 ∷ 63 ∷ 32 ∷ 70 ∷ 53 ∷ []) ≡ ok three_octets
unfolding from_str parse_nibbles pattern_of parse_nibble to_digit exact_digit add_nibble octets_of
parsed = refl

-- "g"
not_parsed : from_str (103 ∷ []) ≡ err tt
unfolding from_str parse_nibbles pattern_of parse_nibble to_digit exact_digit add_nibble
not_parsed = refl

matched : matches three_octets (0xff ∷ 0x0f ∷ 0xf5 ∷ []) ≡ true
unfolding matches all_match octet_matches nibble_matches
matched = refl

not_matched : matches three_octets (0xff ∷ 0x1f ∷ 0xf5 ∷ []) ≡ false
unfolding matches all_match octet_matches nibble_matches
not_matched = refl

found_at_two : search_pattern three_octets (1 ∷ 2 ∷ 3 ∷ 0 ∷ 0xf5 ∷ 9 ∷ []) ≡ ok (some 2)
unfolding search_pattern first_match windows matches all_match octet_matches nibble_matches
found_at_two = refl

found_twice : is_unique (full (exact 0) (exact 1) ∷ []) (1 ∷ 2 ∷ 1 ∷ []) ≡ ok false
unfolding is_unique unique_match windows matches all_match octet_matches nibble_matches
found_twice = refl

no_pattern : search_pattern [] (1 ∷ []) ≡ panic
unfolding search_pattern
no_pattern = refl

search_pattern-Finds_example :
    (r : Option ℕ) × (search_pattern three_octets (1 ∷ 2 ∷ 3 ∷ 0 ∷ 0xf5 ∷ 9 ∷ []) ≡ ok r)
    × Finds three_octets (1 ∷ 2 ∷ 3 ∷ 0 ∷ 0xf5 ∷ 9 ∷ []) 0 r
search_pattern-Finds_example =
    search_pattern-Finds (full wildcard wildcard)
      (full (exact 0) wildcard ∷ full (exact 15) (exact 5) ∷ []) (1 ∷ 2 ∷ 3 ∷ 0 ∷ 0xf5 ∷ 9 ∷ [])

abbrev half : List PatternOctet
half = full (exact 0) wildcard ∷ part (exact 15) ∷ []
