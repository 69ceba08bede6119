-- ===== src/Storage/Attributes.antt =====
-- server/dedicated-server/src/storage/mod.rs: the attributes of a session as text, which say whether it
-- is a lobby or a game room, and the trigger's pattern of the last migration. Text is taken to have no
-- white space outside ASCII.
use scbl.Prelude.{
  ℕ, ◌^◌, ◌==◌, leb, Bool, true, false, ◌&&◌, ◌||◌, List, [], ◌∷◌, ◌++◌, Option, none, some,
  is_empty, if◌then◌else◌,
}
use scbl.Text.{parse_unsigned, starts_with, split, split_once, join}

unfoldable pub is_white_space : ℕ → Bool
is_white_space c = (leb 9 c && leb c 13) || (c == 32)

unfoldable pub trim_start : List ℕ → List ℕ
unfolding is_white_space
trim_start [] = []
trim_start (c ∷ s) = let rest = trim_start s in if is_white_space c then rest else c ∷ s

-- Without the white space behind the last character that is none.
unfoldable pub trim_end : List ℕ → List ℕ
unfolding is_white_space
trim_end [] = []
trim_end (c ∷ s) =
    let rest = trim_end s in if is_empty rest && is_white_space c then [] else c ∷ rest

-- `str::trim`.
unfoldable pub trim : List ℕ → List ℕ
unfolding trim_start trim_end
trim s = trim_start (trim_end s)

unfoldable pub equal_text : List ℕ → List ℕ → Bool
equal_text [] [] = true
equal_text [] (d ∷ t) = false
equal_text (c ∷ s) [] = false
equal_text (c ∷ s) (d ∷ t) = (c == d) && equal_text s t

-- "=>"
abbrev pub arrow_sign : List ℕ
arrow_sign = 61 ∷ 62 ∷ []

-- The value behind the arrow where the id is the one that is looked for.
unfoldable pub value_for : ℕ → Option ℕ → List ℕ → Option ℕ
unfolding trim
value_for attribute_id none raw_value = none
value_for attribute_id (some id) raw_value =
    if id == attribute_id then parse_unsigned (2 ^ 32) (trim raw_value) else none

unfoldable pub entry_value : ℕ → Option (List ℕ × List ℕ) → Option ℕ
unfolding value_for trim
entry_value attribute_id none = none
entry_value attribute_id (some (raw_id, raw_value)) =
    value_for attribute_id (parse_unsigned (2 ^ 32) (trim raw_id)) raw_value

unfoldable pub or_else : Option ℕ → Option ℕ → Option ℕ
or_else none later = later
or_else (some v) later = some v

-- `find_map` over the entries.
unfoldable pub find_value : ℕ → List (List ℕ) → Option ℕ
unfolding entry_value or_else
find_value attribute_id [] = none
find_value attribute_id (entry ∷ entries) =
    or_else (entry_value attribute_id (split_once arrow_sign entry))
      (find_value attribute_id entries)

unfoldable pub session_attribute_value : List ℕ → ℕ → Option ℕ
unfolding find_value
session_attribute_value attributes attribute_id = find_value attribute_id (split 59 attributes)

unfoldable pub has_some : Option ℕ → ℕ → Bool
has_some none v = false
has_some (some w) v = w == v

unfoldable pub is_lobby_session_attributes : List ℕ → Bool
unfolding session_attribute_value has_some
is_lobby_session_attributes attributes = has_some (session_attribute_value attributes 113) 1

unfoldable pub is_game_room_attributes : List ℕ → Bool
unfolding session_attribute_value has_some
is_game_room_attributes attributes = has_some (session_attribute_value attributes 113) 0

-- "113"
abbrev pub class_id : List ℕ
class_id = 49 ∷ 49 ∷ 51 ∷ []

-- "113 => 1"
abbrev pub lobby_class : List ℕ
lobby_class = class_id ++ (32 ∷ 61 ∷ 62 ∷ 32 ∷ 49 ∷ [])

unfoldable pub is_class : Option (List ℕ × List ℕ) → Bool
unfolding trim equal_text
is_class none = false
is_class (some (raw_id, raw_value)) = equal_text (trim raw_id) class_id

-- The entries that the loop pushes, and whether it replaced one.
unfoldable pub project_entries : List (List ℕ) → List (List ℕ) × Bool
unfolding trim is_class
project_entries [] = ([], false)
project_entries (entry ∷ entries) =
    let rest = project_entries entries in
    let entry' = trim entry in
    if is_empty entry'
    then rest
    else if is_class (split_once arrow_sign entry')
    then (lobby_class ∷ rest.0, true)
    else (entry' ∷ rest.0, rest.1)

unfoldable pub project_private_invite_session_class_only : List ℕ → List ℕ
unfolding project_entries
project_private_invite_session_class_only attributes =
    let r = project_entries (split 59 attributes) in
    join 59 (if r.1 then r.0 else r.0 ++ (lobby_class ∷ []))

-- `replace(attributes, ' ', '')`.
unfoldable pub without_spaces : List ℕ → List ℕ
without_spaces [] = []
without_spaces (c ∷ s) = let rest = without_spaces s in if c == 32 then rest else c ∷ rest

unfoldable pub contains_text : List ℕ → List ℕ → Bool
unfolding starts_with
contains_text pat [] = starts_with pat []
contains_text pat (c ∷ s) = starts_with pat (c ∷ s) || contains_text pat s

-- `(';' || replace(attributes, ' ', '') || ';') LIKE '%;113=>…;%'`, for the digit `d`.
unfoldable pub is_like_class : ℕ → List ℕ → Bool
unfolding without_spaces contains_text
is_like_class d attributes =
    contains_text (59 ∷ 49 ∷ 49 ∷ 51 ∷ 61 ∷ 62 ∷ d ∷ 59 ∷ [])
      (59 ∷ (without_spaces attributes ++ (59 ∷ [])))
