-- ===== src/GameSession/Asked.antt =====
-- What a search asks for, said of the lists of attributes, and the maps that game_session_ex.rs makes
-- of them.
use scbl.Prelude.{
  ℕ, ◌==◌, ==_iff, ◌≡◌, ◌↔◌, ◌⊎◌, ◌||◌, refl, sym, ap, ◌∙◌, true, List, [], ◌∷◌, Option, none, some,
  All, Bool-cases, Option-cases, inl, inr, subst, if◌then◌else◌, arith,
}
use scbl.Prelude.Maps.{lookup, insert, keys, mem, Distinct, lookup-insert, lookup_held}
use scbl.Types.Property.{Property}
use scbl.GameSession.Search.{collect_properties, default_103, required_attributes}

-- The first of two values that is there.
unfoldable pub first_value : Option ℕ → Option ℕ → Option ℕ
first_value none other = other
first_value (some v) other = some v

-- The last value that a list gives for an id.
unfoldable pub last_value : ℕ → List Property → Option ℕ
unfolding first_value
last_value id [] = none
last_value id (p ∷ ps) = first_value (last_value id ps) (if p.id == id then some p.value else none)

-- The attributes have every value that is asked for, but that of 112, and where no 103 is asked for,
-- 103 is 0.
pub record HasAll (asked attributes : List Property) : Type 0 where
  pub each :
      (id value : ℕ)
      → ¬ (id ≡ 112)
      → last_value id asked ≡ some value
      → last_value id attributes ≡ some value
  pub default : last_value 103 asked ≡ none → last_value 103 attributes ≡ some 0

lookup-collect :
    (id : ℕ) (m : List (ℕ × ℕ)) (ps : List Property)
    → lookup id (collect_properties m ps) ≡ first_value (last_value id ps) (lookup id m)
unfolding collect_properties last_value first_value
lookup-collect id m [] = refl
lookup-collect id m (p ∷ ps) =
    let ih = lookup-collect id (insert p.id p.value m) ps in
    elim (Option-cases (last_value id ps)) [
      | inl nothing ↦ elim (Bool-cases (p.id == id)) [
        | inl hit ↦ rw (ih, nothing, hit, lookup-insert p.id id p.value m, hit) refl
        | inr miss ↦ rw (ih, nothing, miss, lookup-insert p.id id p.value m, miss) refl
      ]
      | inr (v, there) ↦ rw (ih, there) refl
    ]

-- The map of a list gives the last value of each id.
pub lookup-collected :
    (id : ℕ) (ps : List Property) → lookup id (collect_properties [] ps) ≡ last_value id ps
unfolding first_value lookup
lookup-collected id ps = elim (Option-cases (last_value id ps)) [
  | inl nothing ↦ rw (lookup-collect id [] ps, nothing) refl
  | inr (v, there) ↦ rw (lookup-collect id [] ps, there) refl
]

lookup-default :
    (id : ℕ) (m : List (ℕ × ℕ)) (found : Option ℕ)
    → lookup 103 m ≡ found
    → lookup id (default_103 m found)
      ≡ first_value (lookup id m) (if 103 == id then some 0 else none)
unfolding default_103 first_value
lookup-default id m none e = elim (Bool-cases (103 == id)) [
  | inl hit ↦
      let same : 103 ≡ id = (==_iff 103 id).0 hit in
      let gone : lookup id m ≡ none = subst (λ k. lookup k m ≡ none) same e in
      rw (lookup-insert 103 id 0 m, hit, gone) refl
  | inr miss ↦ elim (Option-cases (lookup id m)) [
    | inl nothing ↦ rw (lookup-insert 103 id 0 m, miss, nothing) refl
    | inr (v, there) ↦ rw (lookup-insert 103 id 0 m, miss, there) refl
  ]
]
lookup-default id m (some w) e = elim (Option-cases (lookup id m)) [
  | inl nothing ↦ elim (Bool-cases (103 == id)) [
    | inl hit ↦
        let same : 103 ≡ id = (==_iff 103 id).0 hit in
        let there : lookup id m ≡ some w = subst (λ k. lookup k m ≡ some w) same e in cc
    | inr miss ↦ rw (nothing, miss) refl
  ]
  | inr (v, there) ↦ rw there refl
]

-- What the map of the required attributes asks of an id.
lookup-required :
    (id : ℕ) (ps : List Property)
    → lookup id (required_attributes ps)
      ≡ first_value (last_value id ps) (if 103 == id then some 0 else none)
unfolding required_attributes
lookup-required id ps =
    lookup-default id (collect_properties [] ps) (lookup 103 (collect_properties [] ps)) refl
    ∙ ap (λ v. first_value v (if 103 == id then some 0 else none)) (lookup-collected id ps)

mem-insert :
    (k j v : ℕ) (m : List (ℕ × ℕ)) → mem j (keys (insert k v m)) ≡ ((k == j) || mem j (keys m))
unfolding insert
mem-insert k j v [] = refl
mem-insert k j v ((i, w) ∷ m) = ground (arith, mem-insert k j v m)

Distinct-insert : (k v : ℕ) (m : List (ℕ × ℕ)) → Distinct (keys m) → Distinct (keys (insert k v m))
unfolding insert
Distinct-insert k v [] d = (refl, tt)
Distinct-insert k v ((i, w) ∷ m) d = ground (arith, mem-insert k i v m, Distinct-insert k v m)

Distinct-collect :
    (m : List (ℕ × ℕ)) (ps : List Property)
    → Distinct (keys m)
    → Distinct (keys (collect_properties m ps))
unfolding collect_properties
Distinct-collect m [] d = d
Distinct-collect m (p ∷ ps) d =
    Distinct-collect (insert p.id p.value m) ps (Distinct-insert p.id p.value m d)

Distinct-default :
    (m : List (ℕ × ℕ)) (found : Option ℕ)
    → Distinct (keys m)
    → Distinct (keys (default_103 m found))
unfolding default_103
Distinct-default m none d = Distinct-insert 103 0 m d
Distinct-default m (some v) d = d

module _ (P : ℕ × ℕ → Type 0) where
  All-lookup :
      (m : List (ℕ × ℕ)) (id value : ℕ) → All P m → lookup id m ≡ some value → P (id, value)
  unfolding lookup
  All-lookup [] id value h e = cc
  All-lookup ((k, v) ∷ m) id value h e = elim (Bool-cases (k == id)) [
    | inl hit ↦
        let key : k ≡ id = (==_iff k id).0 hit in
        let held : v ≡ value = cc (rw hit at e) in
        subst (λ j. P (j, value)) key (subst (λ w. P (k, w)) held h.0)
    | inr miss ↦ All-lookup m id value h.1 (rw miss at e)
  ]

  lookup-All :
      (m : List (ℕ × ℕ))
      → Distinct (keys m)
      → ((id value : ℕ) → lookup id m ≡ some value → P (id, value))
      → All P m
  unfolding lookup
  lookup-All [] d h = tt
  lookup-All ((k, v) ∷ m) d h = (
    h k v (rw ((==_iff k k).1 refl) refl),
    lookup-All m d.1 (λ id value e. elim (Bool-cases (k == id)) [
      | inl hit ↦
          let key : k ≡ id = (==_iff k id).0 hit in
          let again : mem k (keys m) ≡ true =
            subst (λ j. mem j (keys m) ≡ true) (sym key) (lookup_held id value m e) in
          absurd (ground (arith, d, again))
      | inr miss ↦ h id value (rw miss e)
    ]),
  )

-- What a search wants of one attribute: 112 may be anything, another has the value.
abbrev pub Wanted : List (ℕ × ℕ) → ℕ × ℕ → Type 0
Wanted attrs (id, value) = (id ≡ 112) ⊎ (lookup id attrs ≡ some value)

required-HasAll :
    (asked attributes : List Property)
    → All (Wanted (collect_properties [] attributes)) (required_attributes asked)
    → HasAll asked attributes
unfolding first_value
required-HasAll asked attributes h =
    let wanted =
      All-lookup (Wanted (collect_properties [] attributes)) (required_attributes asked) in
    record {
      each = λ id value other e. elim (wanted id value h (rw (lookup-required id asked, e) refl)) [
        | inl same ↦ absurd (other same)
        | inr found ↦ sym (lookup-collected id attributes) ∙ found
      ];
      default = λ e. elim (wanted 103 0 h (rw (lookup-required 103 asked, e) refl)) [
        | inl same ↦ absurd (ground (arith, same))
        | inr found ↦ sym (lookup-collected 103 attributes) ∙ found
      ];
    }

HasAll-required :
    (asked attributes : List Property)
    → HasAll asked attributes
    → All (Wanted (collect_properties [] attributes)) (required_attributes asked)
unfolding required_attributes first_value
HasAll-required asked attributes h =
    lookup-All (Wanted (collect_properties [] attributes)) (required_attributes asked)
      (Distinct-default _ _ (Distinct-collect [] asked tt))
      (λ id value e.
        let e1 = sym (lookup-required id asked) ∙ e in
        elim (Bool-cases (id == 112)) [
          | inl any ↦ inl ((==_iff id 112).0 any)
          | inr other ↦ inr (
              lookup-collected id attributes ∙ elim (Option-cases (last_value id asked)) [
                | inr (v, there) ↦
                    h.each id value (λ same. ground (arith, same, other)) (there ∙ rw there at e1)
                | inl nothing ↦ elim (Bool-cases (103 == id)) [
                  | inl hit ↦
                      let key : 103 ≡ id = (==_iff 103 id).0 hit in
                      let zero_value : some 0 ≡ some value = rw (nothing, hit) at e1 in
                      subst (λ k. last_value k attributes ≡ some value) key
                        (h.default (subst (λ k. last_value k asked ≡ none) (sym key) nothing)
                          ∙ zero_value)
                  | inr miss ↦ cc (rw (nothing, miss) at e1)
                ]
              ])
        ])

-- The two say the same.
pub HasAll-iff :
    (asked attributes : List Property)
    → All (Wanted (collect_properties [] attributes)) (required_attributes asked)
      ↔ HasAll asked attributes
HasAll-iff asked attributes = (required-HasAll asked attributes, HasAll-required asked attributes)
