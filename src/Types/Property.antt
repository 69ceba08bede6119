-- ===== src/Types/Property.antt =====
-- server/quazal/src/rmc/types.rs: `Property` and the text of a list of them, which is how the servers
-- store the attributes of a game session.
use scbl.Prelude.{
  ℕ, ◌^◌, ◌<◌, ◌≡◌, ◌==◌, false, refl, ap, ◌∙◌, List, [], ◌∷◌, ◌++◌, map, Option, none, some, All,
  All-append, inl, inr, arith,
}
use scbl.Text.{to_decimal, parse_unsigned, split_once, split, join}
use scbl.Text.Laws.{
  parse_unsigned-to_decimal, to_decimal-IsDigit, Lacks, digits-Lacks, split_once-append, split-join,
}

pub record Property : Type 0 where
  pub id : ℕ
  pub value : ℕ

-- " => "
abbrev pub arrow : List ℕ
arrow = 32 ∷ 61 ∷ 62 ∷ 32 ∷ []

-- `Display`.
unfoldable pub property_to_string : Property → List ℕ
property_to_string p = to_decimal p.id ++ (arrow ++ to_decimal p.value)

unfoldable pub both : Option ℕ → Option ℕ → Option Property
both (some id) (some value) = some (record { id = id; value = value })
both (some id) none = none
both none value = none

unfoldable pub property_of : Option (List ℕ × List ℕ) → Option Property
unfolding both
property_of none = none
property_of (some (id, value)) = both (parse_unsigned (2 ^ 32) id) (parse_unsigned (2 ^ 32) value)

-- `FromStr`; the only error is `InvalidValue`.
unfoldable pub property_from_str : List ℕ → Option Property
unfolding property_of
property_from_str s = property_of (split_once arrow s)

unfoldable pub add_property : Option Property → Option (List Property) → Option (List Property)
add_property none rest = none
add_property (some p) none = none
add_property (some p) (some ps) = some (p ∷ ps)

unfoldable pub parse_all : List (List ℕ) → Option (List Property)
unfolding property_from_str add_property
parse_all [] = some []
parse_all (s ∷ parts) = add_property (property_from_str s) (parse_all parts)

-- `FromStr` of `QList<Property>`; 59 is the semicolon.
unfoldable pub properties_from_str : List ℕ → Option (List Property)
unfolding parse_all
properties_from_str s = parse_all (split 59 s)

-- The attributes that a session is stored with.
unfoldable pub session_attributes : List Property → List ℕ
unfolding property_to_string
session_attributes ps = join 59 (map property_to_string ps)

abbrev pub IsProperty : Property → Type 0
IsProperty p = (p.id < 2 ^ 32) × (p.value < 2 ^ 32)

property_back : (p : Property) → IsProperty p → property_from_str (property_to_string p) ≡ some p
unfolding property_from_str property_to_string property_of both
property_back p h =
    let front = digits-Lacks 32 (to_decimal p.id) (inl (omega arith)) (to_decimal-IsDigit p.id) in
    rw
      (
        split_once-append 32 (61 ∷ 62 ∷ 32 ∷ []) (to_decimal p.id) (to_decimal p.value) front,
        parse_unsigned-to_decimal (2 ^ 32) p.id (omega arith) h.0,
        parse_unsigned-to_decimal (2 ^ 32) p.value (omega arith) h.1,
      )
      refl

pub property-Lacks : (p : Property) → Lacks 59 (property_to_string p)
unfolding property_to_string
property-Lacks p =
    All-append (λ x. (59 == x) ≡ false) (to_decimal p.id) (arrow ++ to_decimal p.value)
      (digits-Lacks 59 (to_decimal p.id) (inr (omega arith)) (to_decimal-IsDigit p.id))
      (
        refl,
        (
          refl,
          (
            refl,
            (
              refl,
              digits-Lacks 59 (to_decimal p.value) (inr (omega arith)) (to_decimal-IsDigit p.value),
            ),
          ),
        ),
      )

pub All-Lacks : (ps : List Property) → All (Lacks 59) (map property_to_string ps)
All-Lacks [] = tt
All-Lacks (p ∷ ps) = (property-Lacks p, All-Lacks ps)

All-back :
    (ps : List Property) → All IsProperty ps → parse_all (map property_to_string ps) ≡ some ps
unfolding parse_all add_property
All-back [] h = refl
All-back (p ∷ ps) h = rw (property_back p h.0, All-back ps h.1) refl

-- The attributes of a session, one at least and each a pair of 32-bit numbers, are parsed back from
-- the text that they are stored as.
pub properties_from_str-session_attributes :
    (p : Property) (ps : List Property)
    → All IsProperty (p ∷ ps)
    → properties_from_str (session_attributes (p ∷ ps)) ≡ some (p ∷ ps)
unfolding properties_from_str session_attributes
properties_from_str-session_attributes p ps h =
    ap parse_all
      (split-join 59 (property_to_string p) (map property_to_string ps) (All-Lacks (p ∷ ps)))
    ∙ All-back (p ∷ ps) h

-- The text of no attributes is no list of properties.
pub no_attributes : properties_from_str (session_attributes []) ≡ none
unfolding properties_from_str session_attributes parse_all property_from_str property_of
    add_property split split_once join
no_attributes = refl
