-- ===== src/Storage/Classes.antt =====
-- What server/dedicated-server/src/storage/mod.rs reads from the attributes that a session is stored
-- with.
use scbl.Prelude.{
  ℕ, ◌^◌, ◌==◌, ◌≡◌, refl, sym, ap, ◌∙◌, true, false, List, [], ◌∷◌, ◌++◌, append_assoc, map,
  Option, none, some, All, All-append, is_empty, if◌then◌else◌, Bool-cases, inl, inr, arith,
}
use scbl.Text.{to_decimal, split_once}
use scbl.Text.Laws.{
  IsDigit, digits-Lacks, to_decimal-IsDigit, parse_unsigned-to_decimal, split_once-append,
  split-join,
}
use scbl.Types.Property.{Property, IsProperty, property_to_string, session_attributes, All-Lacks}
use scbl.Storage.Attributes.{
  is_white_space, trim, trim_start, trim_end, value_for, entry_value, or_else, find_value,
  session_attribute_value, arrow_sign,
}

-- The value of the first attribute with an id.
unfoldable pub value_in : ℕ → List Property → Option ℕ
value_in id [] = none
value_in id (p ∷ ps) = let rest = value_in id ps in if p.id == id then some p.value else rest

trim_end-digits : (s : List ℕ) → All IsDigit s → trim_end s ≡ s
unfolding trim_end is_white_space
trim_end-digits [] h = refl
trim_end-digits (c ∷ s) h =
    let ink : is_white_space c ≡ false = let d = h.0 in ground (arith, d) in
    let ih = trim_end-digits s h.1 in
    elim (Bool-cases (is_empty s)) [ inl e ↦ rw (ih, e) (rw ink refl) | inr e ↦ rw (ih, e) refl ]

trim_end-space : (s : List ℕ) → All IsDigit s → trim_end (s ++ (32 ∷ [])) ≡ s
unfolding trim_end is_white_space
trim_end-space [] h = refl
trim_end-space (c ∷ s) h =
    let ink : is_white_space c ≡ false = let d = h.0 in ground (arith, d) in
    let ih = trim_end-space s h.1 in
    elim (Bool-cases (is_empty s)) [ inl e ↦ rw (ih, e) (rw ink refl) | inr e ↦ rw (ih, e) refl ]

trim_start-digits : (s : List ℕ) → All IsDigit s → trim_start s ≡ s
unfolding trim_start is_white_space
trim_start-digits [] h = refl
trim_start-digits (c ∷ s) h =
    let ink : is_white_space c ≡ false = let d = h.0 in ground (arith, d) in rw ink refl

trim-before : (s : List ℕ) → All IsDigit s → trim (s ++ (32 ∷ [])) ≡ s
unfolding trim
trim-before s h = rw (trim_end-space s h) (trim_start-digits s h)

blank : (s : List ℕ) → is_empty s ≡ true → [] ≡ s
blank [] e = refl
blank (c ∷ s) e = cc

trim-behind : (s : List ℕ) → All IsDigit s → trim (32 ∷ s) ≡ s
unfolding trim trim_start trim_end is_white_space
trim-behind s h = elim (Bool-cases (is_empty s)) [
  | inl e ↦ rw (trim_end-digits s h, e) (blank s e)
  | inr e ↦ rw (trim_end-digits s h, e) (trim_start-digits s h)
]

entry_value-property :
    (id : ℕ) (p : Property)
    → IsProperty p
    → entry_value id (split_once arrow_sign (property_to_string p))
      ≡ (if p.id == id then some p.value else none)
unfolding property_to_string entry_value value_for
entry_value-property id p h =
    let i = to_decimal p.id in
    let v = to_decimal p.value in
    let di = to_decimal-IsDigit p.id in
    let dv = to_decimal-IsDigit p.value in
    let lacks =
      All-append (λ x. (61 == x) ≡ false) i (32 ∷ []) (digits-Lacks 61 i (inr (omega arith)) di)
        (refl, tt) in
    let whole : i ++ (32 ∷ (61 ∷ (62 ∷ (32 ∷ v)))) ≡ (i ++ (32 ∷ [])) ++ (61 ∷ (62 ∷ (32 ∷ v))) =
      sym (append_assoc i (32 ∷ []) (61 ∷ (62 ∷ (32 ∷ v)))) in
    rw
      (
        whole,
        split_once-append 61 (62 ∷ []) (i ++ (32 ∷ [])) (32 ∷ v) lacks,
        trim-before i di,
        parse_unsigned-to_decimal (2 ^ 32) p.id (omega arith) h.0,
        trim-behind v dv,
        parse_unsigned-to_decimal (2 ^ 32) p.value (omega arith) h.1,
      )
      refl

find_value-properties :
    (id : ℕ) (ps : List Property)
    → All IsProperty ps
    → find_value id (map property_to_string ps) ≡ value_in id ps
unfolding find_value value_in or_else
find_value-properties id [] h = refl
find_value-properties id (p ∷ ps) h =
    rw (entry_value-property id p h.0, find_value-properties id ps h.1)
      (elim (Bool-cases (p.id == id)) [ inl hit ↦ rw hit refl | inr miss ↦ rw miss refl ])

-- In the text that a session is stored with, of one attribute at least and each a pair of 32-bit
-- numbers, the storage finds for every id the value of the first attribute with that id.
pub session_attribute_value-session_attributes :
    (id : ℕ) (p : Property) (ps : List Property)
    → All IsProperty (p ∷ ps)
    → session_attribute_value (session_attributes (p ∷ ps)) id ≡ value_in id (p ∷ ps)
unfolding session_attribute_value session_attributes
session_attribute_value-session_attributes id p ps h =
    ap (find_value id)
      (split-join 59 (property_to_string p) (map property_to_string ps) (All-Lacks (p ∷ ps)))
    ∙ find_value-properties id (p ∷ ps) h
