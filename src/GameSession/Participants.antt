-- ===== src/GameSession/Participants.antt =====
-- server/dedicated-server/src/game_session.rs: `search_sessions_with_participants`.
use scbl.Prelude.{
  ℕ, ◌==◌, leb, Bool, false, ◌&&◌, ◌||◌, List, [], ◌∷◌, map, is_empty, Option, none, some, ok,
  if◌then◌else◌,
}
use scbl.Prelude.Maps.{mem}
use scbl.Client.{ClientInfo}
use scbl.Types.Property.{Property, properties_from_str}
use scbl.Types.Url.{StationUrl}
use scbl.GameSession.{
  Participant, GameSession, InvitedGameSession, Storage, Handled, login_required, with_user,
  queried,
}
use scbl.GameSession.Search.{try_urls}

-- One of the requested participants takes part.
unfoldable pub participant_search_matches_invited_session : List ℕ → List ℕ → Bool
participant_search_matches_invited_session [] invited = false
participant_search_matches_invited_session (id ∷ requested) invited =
    mem id invited || participant_search_matches_invited_session requested invited

unfoldable pub invitation_can_route_participant_search : ℕ → Bool
invitation_can_route_participant_search kind = leb 1 kind && leb kind 4

-- `find` for the creator.
unfoldable pub find_host : ℕ → List Participant → Option Participant
find_host creator [] = none
find_host creator (p ∷ ps) = if p.user_id == creator then some p else find_host creator ps

-- `GameSessionSearchWithParticipantsResult`, with the result inside it.
pub record ParticipantResult : Type 0 where
  pub type_id : ℕ
  pub session_id : ℕ
  pub host_pid : ℕ
  pub host_urls : List StationUrl
  pub attributes : List Property
  pub participant_ids : List ℕ

-- Behind the two conversions.
unfoldable pub participant_result :
    GameSession
    → Participant
    → Option (List StationUrl)
    → Option (List Property)
    → Option ParticipantResult
participant_result session host none attributes = none
participant_result session host (some urls) none = none
participant_result session host (some urls) (some attributes) = some (record {
  type_id = session.session_type;
  session_id = session.session_id;
  host_pid = host.user_id;
  host_urls = urls;
  attributes = attributes;
  participant_ids = map (λ (p : Participant). p.user_id) session.participants;
})

unfoldable pub result_with_host : GameSession → Option Participant → Option ParticipantResult
unfolding participant_result
result_with_host session none = none
result_with_host session (some host) =
    if is_empty host.station_urls
    then none
    else participant_result session host (try_urls host.station_urls)
        (properties_from_str session.attributes)

unfoldable pub add_some : Option ParticipantResult → List ParticipantResult → List ParticipantResult
add_some none rest = rest
add_some (some r) rest = r ∷ rest

-- `filter_map` over the sessions.
unfoldable pub participant_results : List GameSession → List ParticipantResult
unfolding result_with_host add_some find_host
participant_results [] = []
participant_results (session ∷ sessions) =
    add_some (result_with_host session (find_host session.creator_id session.participants))
      (participant_results sessions)

module _ {S : Type 0} (st : Storage S) where
  unfoldable pub routed_search :
      S → ℕ → List ℕ → Option InvitedGameSession → Handled S (List ParticipantResult)
  unfolding participant_search_matches_invited_session invitation_can_route_participant_search
      participant_results queried
  routed_search s session_type requested none =
      queried (s, st.search_sessions_with_participants s session_type requested)
        (λ s' sessions. (s', ok (participant_results sessions)))
  routed_search s session_type requested (some invited) =
      if invitation_can_route_participant_search invited.kind
        && participant_search_matches_invited_session requested
            (map (λ (p : Participant). p.user_id) invited.session.participants)
      then (s, ok (participant_results (invited.session ∷ [])))
      else queried (s, st.search_sessions_with_participants s session_type requested)
          (λ s' sessions. (s', ok (participant_results sessions)))

  unfoldable pub search_sessions_with_participants :
      S → ClientInfo → ℕ → List ℕ → Handled S (List ParticipantResult)
  unfolding with_user login_required queried routed_search
  search_sessions_with_participants s ci session_type requested =
      with_user (login_required ci) s (λ user_id.
        queried (st.find_accepted_invited_session s user_id session_type)
          (λ s' invited. routed_search s' session_type requested invited))
