-- ===== src/Storage/Searches.antt =====
-- server/dedicated-server/src/storage/mod.rs: the searches for game sessions. Rows that a SELECT without
-- ORDER BY returns are in the order in which they are stored.
use scbl.Prelude.{
  ℕ, ◌==◌, leb, Bool, false, not, ◌&&◌, ◌||◌, List, [], ◌∷◌, map, Option, none, some, is_empty,
  if◌then◌else◌,
}
use scbl.Prelude.Maps.{mem}
use scbl.GameSession.{Participant, GameSession}
use scbl.Storage.{Db, GameRow, is_active, participant_ids}
use scbl.Storage.Rows.{select, has_row, first_row}
use scbl.Storage.Accepted.{add_named, urls_of_user, sorted_participants}

unfoldable pub is_user_id : Option ℕ → ℕ → Bool
is_user_id none id = false
is_user_id (some other) id = other == id

-- The participants of a session; the URLs of the user who asks are left out.
unfoldable pub stored_participants : Db → Option ℕ → List (ℕ × ℕ) → List Participant
unfolding add_named urls_of_user is_user_id
stored_participants db exclude_user [] = []
stored_participants db exclude_user (p ∷ ps) =
    add_named (first_row (λ u. u.id == p.1) db.users)
      (if is_user_id exclude_user p.1 then [] else urls_of_user db p.1)
      (stored_participants db exclude_user ps)

unfoldable pub session_row : GameRow → List Participant → GameSession
session_row g participants = record {
  session_type = g.type_id;
  session_id = g.id;
  creator_id = g.creator_id;
  attributes = g.attributes;
  participants = participants;
}

-- The `retain` of both searches: the host takes part and has a URL.
unfoldable pub is_joinable : GameSession → Bool
is_joinable session =
    has_row (λ p. (p.user_id == session.creator_id) && not (is_empty p.station_urls))
      session.participants

unfoldable pub search_sessions : ℕ → Option ℕ → Db → List GameSession
unfolding stored_participants session_row is_joinable is_user_id
search_sessions type_id exclude_user db = select is_joinable (
    map
      (λ g.
        session_row g
          (stored_participants db exclude_user (select (λ p. p.0 == g.id) db.participants)))
      (select
        (λ g. (g.type_id == type_id) && (not (is_user_id exclude_user g.creator_id) && is_active g))
        db.games))

-- A session in which one of the participants takes part.
unfoldable pub has_participant : List (ℕ × ℕ) → List ℕ → ℕ → Bool
has_participant participants ids game_id =
    has_row (λ p. (p.0 == game_id) && mem p.1 ids) participants

unfoldable pub insert_by_id : GameRow → List GameRow → List GameRow
insert_by_id g [] = g ∷ []
insert_by_id g (h ∷ hs) =
    let rest = insert_by_id g hs in if leb g.id h.id then g ∷ (h ∷ hs) else h ∷ rest

-- ORDER BY id.
unfoldable pub sort_games : List GameRow → List GameRow
unfolding insert_by_id
sort_games [] = []
sort_games (g ∷ gs) = insert_by_id g (sort_games gs)

unfoldable pub search_sessions_with_participants : ℕ → List ℕ → Db → List GameSession
unfolding has_participant sort_games session_row sorted_participants participant_ids is_joinable
search_sessions_with_participants type_id ids db = select is_joinable (
    map (λ g. session_row g (sorted_participants db (participant_ids db.participants g.id)))
      (sort_games (
        select
          (λ g.
            (g.type_id == type_id)
            && (is_active g && (is_empty ids || has_participant db.participants ids g.id)))
          db.games)))
