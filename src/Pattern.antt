-- ===== src/Pattern.antt =====
-- client/hooks/hooks-addresses/src/patterns.rs: byte patterns with wildcard nibbles and the search for
-- them. A character is its code.
pub mod Search
pub mod Text
mod Tests
use scbl.Prelude.{
  ℕ, zero, suc, ◌+◌, ◌-◌, ◌/◌, ◌^◌, ◌==◌, leb, ltb, Bool, true, false, ◌&&◌, not, List, [], ◌∷◌,
  ◌++◌, length, take, is_empty, Option, none, some, Outcome, ok, err, panic, bit_and, ◌>>=◌,
  if◌then◌else◌,
}

pub data PatternNibble : Type 0 where
  wildcard : PatternNibble
  exact : ℕ → PatternNibble

-- `char::to_digit(16)`.
unfoldable pub to_digit : ℕ → Option ℕ
to_digit c =
    if leb 48 c && leb c 57
    then some (c - 48)
    else if leb 65 c && leb c 70
    then some (c - 55)
    else if leb 97 c && leb c 102
    then some (c - 87)
    else none

unfoldable pub exact_digit : Option ℕ → Option PatternNibble
exact_digit none = none
exact_digit (some b) = some (exact b)

-- `PatternNibble::parse`; 63 is the question mark.
unfoldable pub parse_nibble : ℕ → Option PatternNibble
unfolding to_digit exact_digit
parse_nibble c = if c == 63 then some wildcard else exact_digit (to_digit c)

unfoldable pub nibble_matches : PatternNibble → ℕ → Bool
nibble_matches wildcard nibble = true
nibble_matches (exact n) nibble = n == nibble

pub data PatternOctet : Type 0 where
  full : PatternNibble → PatternNibble → PatternOctet
  part : PatternNibble → PatternOctet

unfoldable pub octet_of : ℕ → PatternOctet
octet_of byte = full (exact (byte / 16)) (exact (bit_and byte 15))

unfoldable pub octet_matches : PatternOctet → ℕ → Bool
unfolding nibble_matches
octet_matches (full high low) byte =
    nibble_matches high (byte / 16) && nibble_matches low (bit_and byte 15)
octet_matches (part nibble) byte = nibble_matches nibble (byte / 16)

-- The loop over `octets.zip(data)`.
unfoldable pub all_match : List PatternOctet → List ℕ → Bool
unfolding octet_matches
all_match [] bytes = true
all_match (octet ∷ octets) [] = true
all_match (octet ∷ octets) (target ∷ rest) =
    if octet_matches octet target then all_match octets rest else false

-- `Pattern::matches`.
unfoldable pub matches : List PatternOctet → List ℕ → Bool
unfolding all_match
matches octets bytes = if ltb (length bytes) (length octets) then false else all_match octets bytes

-- `data.windows(size)`, for a size other than 0.
unfoldable pub windows : ℕ → List ℕ → List (List ℕ)
windows size [] = []
windows size (b ∷ bytes) =
    let rest = windows size bytes in
    if leb size (length (b ∷ bytes)) then take size (b ∷ bytes) ∷ rest else []

unfoldable pub first_match : List PatternOctet → ℕ → List (List ℕ) → Option ℕ
first_match octets idx [] = none
first_match octets idx (window ∷ rest) =
    if matches octets window then some idx else first_match octets (idx + 1) rest

-- `Pattern::search`; `windows` panics for the size 0.
unfoldable pub search_pattern : List PatternOctet → List ℕ → Outcome (Unit {0}) (Option ℕ)
unfolding first_match windows
search_pattern octets bytes =
    if is_empty octets then panic else ok (first_match octets 0 (windows (length octets) bytes))

unfoldable pub unique_match : List PatternOctet → Bool → List (List ℕ) → Bool
unique_match octets found [] = found
unique_match octets found (window ∷ rest) =
    if matches octets window
    then (if found then false else unique_match octets true rest)
    else unique_match octets found rest

-- `Pattern::is_unique`.
unfoldable pub is_unique : List PatternOctet → List ℕ → Outcome (Unit {0}) Bool
unfolding unique_match windows
is_unique octets bytes =
    if is_empty octets
    then panic
    else ok (unique_match octets false (windows (length octets) bytes))

-- `collect::<Option<Vec<_>>>`.
unfoldable pub add_nibble :
    Option PatternNibble → Option (List PatternNibble) → Option (List PatternNibble)
add_nibble none rest = none
add_nibble (some nibble) none = none
add_nibble (some nibble) (some nibbles) = some (nibble ∷ nibbles)

-- `from_str`: blanks, 32, are passed over, and one character that is no nibble is an error.
unfoldable pub parse_nibbles : List ℕ → Option (List PatternNibble)
unfolding parse_nibble
parse_nibbles [] = some []
parse_nibbles (c ∷ s) =
    let rest = parse_nibbles s in if c == 32 then rest else add_nibble (parse_nibble c) rest

-- `chunks(2)`.
unfoldable pub octets_of : List PatternNibble → List PatternOctet
octets_of [] = []
octets_of (high ∷ []) = part high ∷ []
octets_of (high ∷ (low ∷ nibbles)) = full high low ∷ octets_of nibbles

unfoldable pub pattern_of : Option (List PatternNibble) → Outcome (Unit {0}) (List PatternOctet)
pattern_of none = err tt
pattern_of (some nibbles) = ok (octets_of nibbles)

unfoldable pub from_str : List ℕ → Outcome (Unit {0}) (List PatternOctet)
unfolding parse_nibbles pattern_of
from_str s = pattern_of (parse_nibbles s)

-- `{n:X}`, for a nibble.
unfoldable pub hex_digit : ℕ → ℕ
hex_digit n = if ltb n 10 then 48 + n else 55 + n

unfoldable pub nibble_to_char : PatternNibble → ℕ
unfolding hex_digit
nibble_to_char wildcard = 63
nibble_to_char (exact n) = hex_digit n

unfoldable pub octet_to_string : PatternOctet → List ℕ
unfolding nibble_to_char
octet_to_string (full high low) = nibble_to_char high ∷ nibble_to_char low ∷ []
octet_to_string (part nibble) = nibble_to_char nibble ∷ 63 ∷ []

-- `to_string`: a blank after every octet but the last.
unfoldable pub to_string : List PatternOctet → List ℕ
unfolding octet_to_string
to_string [] = []
to_string (octet ∷ octets) =
    octet_to_string octet ++ (if is_empty octets then [] else (32 ∷ to_string octets))
