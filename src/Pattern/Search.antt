-- ===== src/Pattern/Search.antt =====
-- What a search finds: the first place at which the pattern agrees with the bytes.
use scbl.Prelude.{
  ℕ, zero, suc, ◌+◌, ◌-◌, ◌<◌, ◌≤◌, ◌≡◌, ◌↔◌, refl, ltb, leb, le→ltb, true, false, List, [], ◌∷◌,
  length, take, drop, length-take, length-drop, Option, none, some, ok, Bool-cases, inl, inr, arith,
}
use scbl.Pattern.{
  PatternOctet, octet_matches, all_match, matches, windows, first_match, search_pattern,
}

-- Every octet has a byte that it matches, in order.
abbrev pub Agrees : List PatternOctet → List ℕ → Type 0
Agrees [] bytes = Unit {0}
Agrees (octet ∷ octets) [] = ⊥
Agrees (octet ∷ octets) (b ∷ bytes) = (octet_matches octet b ≡ true) × Agrees octets bytes

pub length-Agrees :
    (octets : List PatternOctet) (bytes : List ℕ)
    → Agrees octets bytes
    → length octets ≤ length bytes
length-Agrees [] bytes a = omega arith
length-Agrees (o ∷ octets) [] a = absurd a
length-Agrees (o ∷ octets) (b ∷ bytes) a = omega (arith, length-Agrees octets bytes a.1)

all_match-Agrees :
    (octets : List PatternOctet) (bytes : List ℕ)
    → length octets ≤ length bytes
    → (all_match octets bytes ≡ true) ↔ Agrees octets bytes
unfolding all_match
all_match-Agrees [] bytes h = (λ e. tt, λ a. refl)
all_match-Agrees (o ∷ octets) [] h = absurd (omega arith)
all_match-Agrees (o ∷ octets) (b ∷ bytes) h =
    let rest = all_match-Agrees octets bytes (omega arith) in
    elim (Bool-cases (octet_matches o b)) [
      | inl hit ↦ (λ e. (hit, rest.0 (rw hit at e)), λ a. rw hit (rest.1 a.1))
      | inr miss ↦ (λ e. cc (rw miss at e), λ a. cc)
    ]

Agrees-take :
    (octets : List PatternOctet) (bytes : List ℕ)
    → Agrees octets (take (length octets) bytes) ↔ Agrees octets bytes
Agrees-take [] bytes = (λ a. tt, λ a. tt)
Agrees-take (o ∷ octets) [] = (λ a. a, λ a. a)
Agrees-take (o ∷ octets) (b ∷ bytes) =
    let rest = Agrees-take octets bytes in (λ a. (a.0, rest.0 a.1), λ a. (a.0, rest.1 a.1))

-- The test of a window is the agreement of the pattern with the bytes from there on.
window_lem :
    (octets : List PatternOctet) (bytes : List ℕ)
    → length octets ≤ length bytes
    → (matches octets (take (length octets) bytes) ≡ true) ↔ Agrees octets bytes
unfolding matches
window_lem octets bytes h =
    let size = length-take (length octets) bytes in
    let long : ltb (length (take (length octets) bytes)) (length octets) ≡ false =
      le→ltb _ _ (omega (arith, h, size)) in
    let all = all_match-Agrees octets (take (length octets) bytes) (omega (arith, h, size)) in
    let cut = Agrees-take octets bytes in
    (λ e. cut.0 (all.0 (rw long at e)), λ a. rw long (all.1 (cut.1 a)))

-- What a search that counts from `k` may return.
abbrev pub Finds : List PatternOctet → List ℕ → ℕ → Option ℕ → Type 0
Finds octets bytes k none = (l : ℕ) → ¬ Agrees octets (drop l bytes)
Finds octets bytes k (some i) =
    (k ≤ i)
    × Agrees octets (drop (i - k) bytes)
    × ((l : ℕ) → l < i - k → ¬ Agrees octets (drop l bytes))

too_short :
    (octets : List PatternOctet) (bytes : List ℕ)
    → length bytes < length octets
    → (l : ℕ) → ¬ Agrees octets (drop l bytes)
too_short octets bytes h l a =
    let n = length-Agrees octets (drop l bytes) a in
    let d = length-drop l bytes in omega (arith, h, n, d)

-- The places behind the first one.
misses :
    (octets : List PatternOctet) (b : ℕ) (bytes : List ℕ) (n : ℕ)
    → ¬ Agrees octets (b ∷ bytes)
    → ((l : ℕ) → l < n → ¬ Agrees octets (drop l bytes))
    → (l : ℕ) → l < suc n
    → ¬ Agrees octets (drop l (b ∷ bytes))
misses octets b bytes n miss f zero h = miss
misses octets b bytes n miss f (suc l) h = f l (omega arith)

Finds-later :
    (octets : List PatternOctet) (b : ℕ) (bytes : List ℕ) (k : ℕ) (r : Option ℕ)
    → ¬ Agrees octets (b ∷ bytes)
    → Finds octets bytes (k + 1) r
    → Finds octets (b ∷ bytes) k r
Finds-later octets b bytes k none miss f =
    λ l. misses octets b bytes (suc l) miss (λ j h. f j) l (omega arith)
Finds-later octets b bytes k (some i) miss f =
    let step : i - k ≡ suc (i - (k + 1)) = omega (arith, f.0) in
    (omega (arith, f.0), rw step f.1, rw step (misses octets b bytes (i - (k + 1)) miss f.2))

module _ (octet : PatternOctet) (octets : List PatternOctet) where
  abbrev pattern_size : ℕ
  pattern_size = length (octet ∷ octets)

  first_place :
      (b : ℕ) (bytes : List ℕ) (k : ℕ)
      → Agrees (octet ∷ octets) (b ∷ bytes)
      → Finds (octet ∷ octets) (b ∷ bytes) k (some k)
  first_place b bytes k a =
      let none_before : k - k ≡ 0 = omega arith in
      (omega arith, rw none_before a, λ l h. absurd (omega (arith, h)))

  first_match-Finds :
      (bytes : List ℕ) (k : ℕ)
      → Finds (octet ∷ octets) bytes k (first_match (octet ∷ octets) k (windows pattern_size bytes))
  unfolding first_match windows
  first_match-Finds [] k = too_short (octet ∷ octets) [] (omega arith)
  first_match-Finds (b ∷ bytes) k = elim (Bool-cases (leb pattern_size (length (b ∷ bytes)))) [
    | inl fits ↦
        let w = window_lem (octet ∷ octets) (b ∷ bytes) (ground arith) in
        rw fits (elim (Bool-cases (matches (octet ∷ octets) (take pattern_size (b ∷ bytes)))) [
          | inl hit ↦ rw hit (first_place b bytes k (w.0 hit))
          | inr miss ↦ rw miss (
              Finds-later (octet ∷ octets) b bytes k _ (λ a. cc (w.1 a))
                (first_match-Finds bytes (k + 1)))
        ])
    | inr short ↦ rw short (too_short (octet ∷ octets) (b ∷ bytes) (ground arith))
  ]

  -- The search for a pattern that is not empty returns the first place at which every octet matches
  -- its byte, and nothing where there is no such place.
  pub search_pattern-Finds :
      (bytes : List ℕ)
      → (r : Option ℕ) × (search_pattern (octet ∷ octets) bytes ≡ ok r)
        × Finds (octet ∷ octets) bytes 0 r
  unfolding search_pattern
  search_pattern-Finds bytes = (_, refl, first_match-Finds bytes 0)
