-- ===== src/Storage/Lobby.antt =====
-- server/dedicated-server/src/storage/mod.rs: `delete_game_session`, which brings the players of a game
-- room back to the lobby of their host.
use scbl.Prelude.{
  ℕ, ◌+◌, ◌==◌, leb, length, ◌||◌, Bool, not, ◌&&◌, List, [], ◌∷◌, Option, none, some, ok, is_empty,
  if◌then◌else◌, ◌>>=◌,
}
use scbl.Storage.{
  Db, Tx, GameRow, InviteRow, has_url, is_null, is_active, is_session, joined, participant_ids,
  set_destroyed,
}
use scbl.Storage.Rows.{select, update_rows, first_row}
use scbl.Storage.Attributes.{is_game_room_attributes, is_lobby_session_attributes}
use scbl.Storage.Parties.{ensure_party_for_leader, make_invite, Offer}
use scbl.Storage.Games.{consume}

-- A session that its creator deletes.
abbrev pub is_own_session : ℕ → ℕ → ℕ → GameRow → Bool
is_own_session creator_id type_id session_id g =
    is_session type_id session_id g && (g.creator_id == creator_id)

-- Another active session of the host, with the host in it and reachable.
unfoldable pub is_lobby_candidate : ℕ → ℕ → ℕ → Db → GameRow → Bool
unfolding joined has_url
is_lobby_candidate creator_id type_id session_id db g =
    (g.creator_id == creator_id)
    && ((g.type_id == type_id)
        && (not (g.id == session_id)
            && (is_active g
                && (joined db.participants g.id g.creator_id && has_url db g.creator_id))))

-- ORDER BY id DESC, and the first row.
unfoldable pub higher_id : GameRow → Option GameRow → Option GameRow
higher_id g none = some g
higher_id g (some h) = if leb h.id g.id then some g else some h

unfoldable pub highest_id : List GameRow → Option GameRow
unfolding higher_id
highest_id [] = none
highest_id (g ∷ gs) = higher_id g (highest_id gs)

unfoldable pub is_open_restore : ℕ → InviteRow → Bool
is_open_restore receiver i = (i.receiver == receiver) && ((i.kind == 4) && is_null i.consumed_at)

unfoldable pub close_restores : ℕ → Db → Db
unfolding is_open_restore consume
close_restores receiver db = record db {
  invites = update_rows (is_open_restore receiver) (consume db.now) db.invites;
}

abbrev pub restore_offer : ℕ → ℕ → ℕ → ℕ → ℕ → Offer
restore_offer creator_id type_id lobby_id party_id receiver = record {
  sender = creator_id;
  receiver = receiver;
  kind = 4;
  session_type = type_id;
  session_id = lobby_id;
  party_id = some party_id;
  lifetime = 60;
}

unfoldable pub restore_one : ℕ → ℕ → ℕ → ℕ → ℕ → Db → Tx ℕ
unfolding joined close_restores make_invite
restore_one creator_id type_id lobby_id party_id receiver db =
    if joined db.participants lobby_id receiver
    then ok (db, 0)
    else make_invite (restore_offer creator_id type_id lobby_id party_id receiver)
        (close_restores receiver db)

unfoldable pub restore_all : ℕ → ℕ → ℕ → ℕ → List ℕ → Db → Tx ℕ
unfolding restore_one
restore_all creator_id type_id lobby_id party_id [] db = ok (db, 0)
restore_all creator_id type_id lobby_id party_id (receiver ∷ receivers) db =
    restore_one creator_id type_id lobby_id party_id receiver db >>= λ r.
    restore_all creator_id type_id lobby_id party_id receivers r.0 >>= λ s. ok (s.0, r.1 + s.1)

unfoldable pub restore_to : ℕ → ℕ → List ℕ → ℕ → Option GameRow → Db → Tx (ℕ × ℕ)
unfolding ensure_party_for_leader restore_all
restore_to creator_id type_id receivers deleted none db = ok (db, (deleted, 0))
restore_to creator_id type_id receivers deleted (some lobby) db =
    ensure_party_for_leader creator_id db >>= λ r.
    restore_all creator_id type_id lobby.id r.1 receivers r.0 >>= λ s. ok (s.0, (deleted, s.1))

unfoldable pub others : ℕ → List ℕ → List ℕ
others user_id ids = select (λ id. not (id == user_id)) ids

unfoldable pub delete_row : ℕ → ℕ → ℕ → Option GameRow → Db → Tx (ℕ × ℕ)
unfolding participant_ids others set_destroyed is_game_room_attributes is_lobby_session_attributes
    is_lobby_candidate highest_id restore_to
delete_row creator_id type_id session_id none db = ok (db, (0, 0))
delete_row creator_id type_id session_id (some g) db =
    let remaining = others creator_id (participant_ids db.participants session_id) in
    let deleted = length (select (is_own_session creator_id type_id session_id) db.games) in
    let db' = record db {
      games =
          update_rows (is_own_session creator_id type_id session_id) (set_destroyed db.now)
            db.games;
    } in
    if (deleted == 0) || (not (is_game_room_attributes g.attributes) || is_empty remaining)
    then ok (db', (deleted, 0))
    else restore_to creator_id type_id remaining deleted
        (highest_id (
          select
            (λ h.
              is_lobby_candidate creator_id type_id session_id db' h
              && is_lobby_session_attributes h.attributes)
            db'.games))
        db'

-- How many sessions are deleted, and how many invitations are made.
unfoldable pub delete_game_session : ℕ → ℕ → ℕ → Db → Tx (ℕ × ℕ)
unfolding delete_row
delete_game_session creator_id type_id session_id db =
    delete_row creator_id type_id session_id
      (first_row (is_own_session creator_id type_id session_id) db.games) db
