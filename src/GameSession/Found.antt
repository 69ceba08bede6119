-- ===== src/GameSession/Found.antt =====
-- Which sessions a search finds, by the attributes that they were stored with.
use scbl.Prelude.{
  ℕ, ◌==◌, ==_iff, ◌≡◌, ◌↔◌, refl, ap, ◌∙◌, true, false, List, [], ◌∷◌, Option, none, some, Outcome,
  ok, err, panic, ok-injective, All, Bool-cases, inl, inr, subst, arith,
}
use scbl.Prelude.Maps.{lookup}
use scbl.Client.{ClientInfo}
use scbl.Rmc.{Error}
use scbl.Types.Property.{
  Property, IsProperty, properties_from_str, session_attributes,
  properties_from_str-session_attributes,
}
use scbl.GameSession.{GameSession, Storage, login_required, with_user, queried}
use scbl.GameSession.Asked.{HasAll, Wanted, HasAll-iff}
use scbl.GameSession.Search.{
  collect_properties, required_attributes, has_value, has_attributes, fits_attributes, keep_session,
  keep_sessions, SearchResult, add_result, search_results, answer_search,
  is_invitation_search_query, search_sessions,
}

has_value_iff :
    (found : Option ℕ) (value : ℕ) → (has_value found value ≡ true) ↔ (found ≡ some value)
unfolding has_value
has_value_iff none value = (λ e. cc, λ e. cc)
has_value_iff (some v) value = (λ e. ap some ((==_iff v value).0 e), λ e. (==_iff v value).1 (cc))

-- An attribute other than 112 is compared.
compared :
    (attrs : List (ℕ × ℕ)) (id value : ℕ)
    → (id == 112) ≡ false
    → Wanted attrs (id, value)
    → has_value (lookup id attrs) value ≡ true
compared attrs id value other (inl same) = absurd (ground (arith, same, other))
compared attrs id value other (inr found) = (has_value_iff (lookup id attrs) value).1 found

has_attributes_iff :
    (attrs req : List (ℕ × ℕ)) → (has_attributes attrs req ≡ true) ↔ All (Wanted attrs) req
unfolding has_attributes
has_attributes_iff attrs [] = (λ e. tt, λ w. refl)
has_attributes_iff attrs ((id, value) ∷ req) =
    let rest = has_attributes_iff attrs req in
    let one = has_value_iff (lookup id attrs) value in
    elim (Bool-cases (id == 112)) [
      | inl skipped ↦ (
        λ e. (inl ((==_iff id 112).0 skipped), rest.0 (rw skipped at e)),
        λ w. rw skipped (rest.1 w.1),
      )
      | inr other ↦ elim (Bool-cases (has_value (lookup id attrs) value)) [
        | inl hit ↦ (
          λ e. (inr (one.0 hit), rest.0 (rw (other, hit) at e)),
          λ w. rw (other, hit) (rest.1 w.1),
        )
        | inr miss ↦
            (λ e. cc (rw (other, miss) at e), λ w. cc (compared attrs id value other w.0, miss))
      ]
    ]

-- A session that was stored with one attribute at least, each a pair of 32-bit numbers, stays in a
-- search without an invitation exactly where it has every value that is asked for: of an id that is
-- given more than once, the last value counts, 112 may have any value or none, and where no 103 is asked
-- for, it must be 0.
pub keep_session-created :
    (parameters : List Property) (session : GameSession) (p : Property) (ps : List Property)
    → All IsProperty (p ∷ ps)
    → session.attributes ≡ session_attributes (p ∷ ps)
    → (keep_session false (required_attributes parameters) session ≡ true)
      ↔ HasAll parameters (p ∷ ps)
unfolding keep_session fits_attributes
keep_session-created parameters session p ps h stored =
    let parsed = ap properties_from_str stored ∙ properties_from_str-session_attributes p ps h in
    let kept =
      has_attributes_iff (collect_properties [] (p ∷ ps)) (required_attributes parameters) in
    let asked = HasAll-iff parameters (p ∷ ps) in
    rw parsed (λ e. asked.0 (kept.0 e), λ h'. kept.1 (asked.1 h'))

-- A result whose attributes are as asked for.
abbrev pub Fits : List Property → SearchResult → Type 0
Fits asked r = HasAll asked r.attributes

result-Fits :
    (asked : List Property) (session : GameSession) (parsed : Option (List Property))
    (rest : List SearchResult)
    → fits_attributes (required_attributes asked) parsed ≡ true
    → All (Fits asked) rest
    → All (Fits asked) (add_result session parsed rest)
unfolding fits_attributes add_result
result-Fits asked session none rest e h = h
result-Fits asked session (some ps) rest e h =
    let kept = has_attributes_iff (collect_properties [] ps) (required_attributes asked) in
    ((HasAll-iff asked ps).0 (kept.0 e), h)

results-Fits :
    (asked : List Property) (sessions : List GameSession)
    → All (Fits asked) (search_results (keep_sessions false (required_attributes asked) sessions))
unfolding keep_sessions keep_session search_results
results-Fits asked [] = tt
results-Fits asked (session ∷ sessions) =
    elim (Bool-cases
      (fits_attributes (required_attributes asked) (properties_from_str session.attributes))) [
        | inl hit ↦ rw hit (
            result-Fits asked session (properties_from_str session.attributes) _ hit
              (results-Fits asked sessions))
        | inr miss ↦ rw miss (results-Fits asked sessions)
      ]

module _ {S : Type 0} (st : Storage S) (session_type : ℕ) (parameters : List Property) where
  answered-Fits :
      (s : S) (found : Option (List GameSession)) (results : List SearchResult)
      → (queried
          (s, found)
          (λ s' sessions. (
            s',
            ok (search_results (keep_sessions false (required_attributes parameters) sessions)),
          ))).1
        ≡ ok results
      → All (Fits parameters) results
  unfolding queried
  answered-Fits s none results e = cc
  answered-Fits s (some sessions) results e =
      subst (All (Fits parameters)) (ok-injective e) (results-Fits parameters sessions)

  user-Fits :
      (s : S) (user : Outcome Error ℕ) (results : List SearchResult)
      → (with_user user s (λ user_id.
          answer_search st
            (st.clear_manual_invitation_search s user_id session_type)
            user_id
            session_type
            parameters
            none)).1
        ≡ ok results
      → All (Fits parameters) results
  unfolding with_user answer_search
  user-Fits s (ok user_id) results e = answered-Fits _ _ results e
  user-Fits s (err x) results e = cc
  user-Fits s panic results e = cc

  -- A search other than for an invitation returns sessions that have every value that is asked for, by
  -- the attributes that are sent back: of an id that is given more than once, the last value counts,
  -- 112 may have any value or none, and where no 103 is asked for, it is 0.
  pub search_sessions-Fits :
      (s : S) (ci : ClientInfo) (query_id : ℕ) (results : List SearchResult)
      → is_invitation_search_query query_id ≡ false
      → (search_sessions st s ci query_id session_type parameters).1 ≡ ok results
      → All (Fits parameters) results
  unfolding search_sessions
  search_sessions-Fits s ci query_id results plain e =
      user-Fits s (login_required ci) results (rw plain at e)
