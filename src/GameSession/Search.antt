-- ===== src/GameSession/Search.antt =====
-- server/dedicated-server/src/game_session_ex.rs: `search_sessions`, from the request to the results.
use scbl.Prelude.{
  ℕ, ◌==◌, Bool, true, false, ◌||◌, List, [], ◌∷◌, ◌++◌, Option, none, some, Outcome, ok, err,
  panic, if◌then◌else◌,
}
use scbl.Prelude.Maps.{lookup, insert}
use scbl.Client.{ClientInfo}
use scbl.Types.Property.{Property, properties_from_str}
use scbl.Types.Url.{StationUrl, StationUrlParseError, url_from_str}
use scbl.GameSession.{
  Participant, GameSession, InvitedGameSession, Storage, Handled, login_required, with_user,
  queried,
}

-- A search that asks for the session of an accepted invitation.
unfoldable pub is_invitation_search_query : ℕ → Bool
is_invitation_search_query query_id = query_id == 8

-- `map(|p| (p.id, p.value)).collect::<HashMap<_, _>>()`.
unfoldable pub collect_properties : List (ℕ × ℕ) → List Property → List (ℕ × ℕ)
collect_properties m [] = m
collect_properties m (p ∷ ps) = collect_properties (insert p.id p.value m) ps

-- The `Entry::Vacant` of the attribute 103 becomes 0.
unfoldable pub default_103 : List (ℕ × ℕ) → Option ℕ → List (ℕ × ℕ)
default_103 m none = insert 103 0 m
default_103 m (some v) = m

unfoldable pub required_attributes : List Property → List (ℕ × ℕ)
unfolding collect_properties default_103
required_attributes ps = let m = collect_properties [] ps in default_103 m (lookup 103 m)

unfoldable pub has_value : Option ℕ → ℕ → Bool
has_value none value = false
has_value (some v) value = v == value

-- `for (id, value) in &req_attrs`; the attribute 112 is not compared.
unfoldable pub has_attributes : List (ℕ × ℕ) → List (ℕ × ℕ) → Bool
unfolding has_value
has_attributes attrs [] = true
has_attributes attrs ((id, value) ∷ req) =
    let rest = has_attributes attrs req in
    if id == 112 then rest else if has_value (lookup id attrs) value then rest else false

unfoldable pub fits_attributes : List (ℕ × ℕ) → Option (List Property) → Bool
unfolding has_attributes
fits_attributes req none = false
fits_attributes req (some ps) = has_attributes (collect_properties [] ps) req

-- The closure of `filter_map`: which sessions stay.
unfoldable pub keep_session : Bool → List (ℕ × ℕ) → GameSession → Bool
unfolding fits_attributes
keep_session invitation_search req session =
    if invitation_search then true else fits_attributes req (properties_from_str session.attributes)

unfoldable pub keep_sessions : Bool → List (ℕ × ℕ) → List GameSession → List GameSession
unfolding keep_session
keep_sessions invitation_search req [] = []
keep_sessions invitation_search req (session ∷ sessions) =
    let rest = keep_sessions invitation_search req sessions in
    if keep_session invitation_search req session then session ∷ rest else rest

pub record ResultParticipant : Type 0 where
  pub pid : ℕ
  pub name : List ℕ
  pub station_urls : List StationUrl

-- `GameSessionSearchResultEx`, with the result inside it.
pub record SearchResult : Type 0 where
  pub session_id : ℕ
  pub type_id : ℕ
  pub host_pid : ℕ
  pub host_urls : List StationUrl
  pub attributes : List Property
  pub participants : List ResultParticipant

-- `url.parse().ok()`, where an URL that cannot be parsed is left out. No clause of `url_from_str`
-- panics.
unfoldable pub add_parsed :
    Outcome StationUrlParseError StationUrl → List StationUrl → List StationUrl
add_parsed (ok url) urls = url ∷ urls
add_parsed (err e) urls = urls
add_parsed panic urls = urls

unfoldable pub parse_urls : List (List ℕ) → List StationUrl
unfolding add_parsed
parse_urls [] = []
parse_urls (url ∷ urls) = add_parsed (url_from_str url) (parse_urls urls)

-- `filter` and `flat_map` over the participants.
unfoldable pub urls_of : ℕ → List Participant → List (List ℕ)
urls_of host [] = []
urls_of host (p ∷ ps) =
    let rest = urls_of host ps in if p.user_id == host then p.station_urls ++ rest else rest

unfoldable pub add_url :
    Outcome StationUrlParseError StationUrl → Option (List StationUrl) → Option (List StationUrl)
add_url (ok url) none = none
add_url (ok url) (some urls) = some (url ∷ urls)
add_url (err e) urls = none
add_url panic urls = none

-- `try_into`: one URL that cannot be parsed is an error.
unfoldable pub try_urls : List (List ℕ) → Option (List StationUrl)
unfolding add_url
try_urls [] = some []
try_urls (url ∷ urls) = add_url (url_from_str url) (try_urls urls)

unfoldable pub add_participant :
    Participant → Option (List StationUrl) → List ResultParticipant → List ResultParticipant
add_participant p none rest = rest
add_participant p (some urls) rest =
    record { pid = p.user_id; name = p.name; station_urls = urls } ∷ rest

unfoldable pub result_participants : List Participant → List ResultParticipant
unfolding add_participant try_urls
result_participants [] = []
result_participants (p ∷ ps) = add_participant p (try_urls p.station_urls) (result_participants ps)

unfoldable pub add_result :
    GameSession → Option (List Property) → List SearchResult → List SearchResult
unfolding parse_urls urls_of result_participants
add_result session none rest = rest
add_result session (some attributes) rest =
    record {
      session_id = session.session_id;
      type_id = session.session_type;
      host_pid = session.creator_id;
      host_urls = parse_urls (urls_of session.creator_id session.participants);
      attributes = attributes;
      participants = result_participants session.participants;
    }
    ∷ rest

-- The second `filter_map`.
unfoldable pub search_results : List GameSession → List SearchResult
unfolding add_result
search_results [] = []
search_results (session ∷ sessions) =
    add_result session (properties_from_str session.attributes) (search_results sessions)

-- A kind of invitation that is asked for by hand.
unfoldable pub is_manual_kind : ℕ → Bool
is_manual_kind kind = kind == 1 || kind == 2 || kind == 4

module _ {S : Type 0} (st : Storage S) where
  unfoldable pub note_search : S → ℕ → ℕ → Option InvitedGameSession → S
  unfolding is_manual_kind
  note_search s user_id session_type none = st.clear_manual_invitation_search s user_id session_type
  note_search s user_id session_type (some invite) =
      if is_manual_kind invite.kind
      then st.note_manual_invitation_search s user_id session_type
      else st.clear_manual_invitation_search s user_id session_type

  -- The filter and the results.
  unfoldable pub answer_search :
      S → ℕ → ℕ → List Property → Option InvitedGameSession → Handled S (List SearchResult)
  unfolding keep_sessions search_results required_attributes queried
  answer_search s user_id session_type parameters (some invited) = (
    s,
    ok (
        search_results
          (keep_sessions true (required_attributes parameters) (invited.session ∷ []))),
  )
  answer_search s user_id session_type parameters none =
      queried (s, st.search_sessions s session_type (some user_id))
        (λ s' sessions.
          (s', ok (search_results (keep_sessions false (required_attributes parameters) sessions))))

  unfoldable pub search_sessions :
      S → ClientInfo → ℕ → ℕ → List Property → Handled S (List SearchResult)
  unfolding with_user login_required queried note_search answer_search is_invitation_search_query
  search_sessions s ci query_id session_type parameters =
      with_user (login_required ci) s (λ user_id.
        if is_invitation_search_query query_id
        then queried (st.find_accepted_manual_invited_session s user_id session_type) (λ s' invited.
          answer_search (note_search s' user_id session_type invited) user_id session_type
            parameters invited)
        else answer_search (st.clear_manual_invitation_search s user_id session_type) user_id
            session_type parameters none)
