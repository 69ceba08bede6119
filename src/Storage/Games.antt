-- ===== src/Storage/Games.antt =====
-- server/dedicated-server/src/storage/mod.rs: the calls that change game sessions and who takes part.
use scbl.Prelude.{
  ℕ, ◌%◌, ◌^◌, ◌==◌, leb, ltb, Bool, true, false, not, ◌&&◌, ◌||◌, List, [], ◌∷◌, ◌++◌, Option,
  none, some, Outcome, ok, err, is_empty, if◌then◌else◌, ◌>>=◌,
}
use scbl.Storage.{
  Db, Tx, DbError, foreign_key, GameRow, InviteRow, has_user, is_null, is_active, is_session,
  joined, insert_participant, insert_participants, delete_parties, delete_participant, set_creator,
  reconcile_game_session,
}
use scbl.Storage.Rows.{select, has_row, first_row, update_rows, next_id, to_set}
use scbl.Storage.Attributes.{is_game_room_attributes}
use scbl.Storage.Parties.{queue_party_follow_invites, set_member, is_live, is_for}

unfoldable pub game_ids : List GameRow → List ℕ
game_ids [] = []
game_ids (g ∷ gs) = g.id ∷ game_ids gs

-- The end of a call that enters a game room.
unfoldable pub follow_into : Bool → ℕ → ℕ → ℕ → Db → Tx ℕ
unfolding queue_party_follow_invites
follow_into game_room user_id type_id session_id db =
    if game_room then queue_party_follow_invites user_id type_id session_id db else ok (db, 0)

unfoldable pub create_game_session : ℕ → ℕ → List ℕ → Db → Tx ℕ
unfolding game_ids insert_participant follow_into is_game_room_attributes has_user
create_game_session user_id type_id attributes db =
    let id = next_id (game_ids db.games) in
    let row : GameRow = record {
      id = id;
      type_id = type_id;
      creator_id = user_id;
      attributes = attributes;
      destroyed_at = none;
    } in
    if has_user db user_id
    then (insert_participant id user_id (record db { games = db.games ++ (row ∷ []) }) >>= λ db'.
        follow_into (is_game_room_attributes attributes) user_id type_id (id % 2 ^ 32) db' >>= λ r.
        ok (r.0, id % 2 ^ 32))
    else err foreign_key

-- The newest of the invitations, by `created` and `rowid`.
unfoldable pub is_newer : InviteRow → InviteRow → Bool
is_newer i j = ltb j.created i.created || ((i.created == j.created) && leb j.rowid i.rowid)

unfoldable pub newer : InviteRow → Option InviteRow → Option InviteRow
unfolding is_newer
newer i none = some i
newer i (some j) = if is_newer i j then some i else some j

unfoldable pub newest : List InviteRow → Option InviteRow
unfolding newer
newest [] = none
newest (i ∷ is) = newer i (newest is)

-- An accepted invitation to a lobby, which has a party.
unfoldable pub is_lobby_invite : ℕ → ℕ → ℕ → ℕ → InviteRow → Bool
is_lobby_invite now user_id type_id session_id i =
    (i.receiver == user_id)
    && (((i.kind == 2) || (i.kind == 4))
        && (is_for type_id session_id i
            && (not (is_null i.party_id) && (not (is_null i.accepted_at) && is_live now i))))

-- The one who joins a lobby by an invitation becomes a member of its party.
unfoldable pub join_party : ℕ → Option ℕ → Db → Outcome DbError Db
unfolding delete_parties set_member
join_party user_id none db = ok db
join_party user_id (some party_id) db =
    set_member user_id party_id
      (delete_parties (λ party. (party.leader_id == user_id) && not (party.id == party_id)) db)

unfoldable pub invited_party : Option InviteRow → Option ℕ
invited_party none = none
invited_party (some i) = i.party_id

unfoldable pub consume : ℕ → InviteRow → InviteRow
consume now i = record i { consumed_at = some now }

unfoldable pub is_accepted_for : ℕ → ℕ → ℕ → ℕ → InviteRow → Bool
is_accepted_for now user_id type_id session_id i =
    (i.receiver == user_id)
    && (is_for type_id session_id i && (not (is_null i.accepted_at) && is_live now i))

unfoldable pub join_row : ℕ → ℕ → ℕ → Option GameRow → Db → Tx Bool
unfolding insert_participant join_party newest is_lobby_invite invited_party consume is_accepted_for
    follow_into is_game_room_attributes
join_row user_id type_id session_id none db = ok (db, false)
join_row user_id type_id session_id (some g) db =
    insert_participant session_id user_id db >>= λ db1.
    join_party user_id
      (invited_party
        (newest (select (is_lobby_invite db.now user_id type_id session_id) db1.invites)))
      db1
    >>= λ db2.
        let db3 = record db2 {
          invites =
              update_rows (is_accepted_for db.now user_id type_id session_id) (consume db.now)
                db2.invites;
        } in
        follow_into (is_game_room_attributes g.attributes) user_id type_id session_id db3 >>= λ r.
        ok (r.0, true)

unfoldable pub join_game_session_unbounded : ℕ → ℕ → ℕ → Db → Tx Bool
unfolding join_row
join_game_session_unbounded user_id type_id session_id db =
    join_row user_id type_id session_id (first_row (is_session type_id session_id) db.games) db

unfoldable pub leave_game_session : ℕ → ℕ → ℕ → Db → Db
unfolding delete_participant reconcile_game_session
leave_game_session user_id type_id session_id db =
    let left =
      if has_row (is_session type_id session_id) db.games
      then delete_participant session_id user_id db
      else db in
    reconcile_game_session type_id session_id left

unfoldable pub migrate_game_session_host : ℕ → ℕ → ℕ → Db → Db × Bool
unfolding joined set_creator
migrate_game_session_host user_id type_id session_id db =
    if has_row (is_session type_id session_id) db.games && joined db.participants session_id user_id
    then (
      record db {
        games = update_rows (is_session type_id session_id) (set_creator user_id) db.games;
      },
      true,
    )
    else (db, false)

-- A session that its creator abandoned.
unfoldable pub is_abandoned : ℕ → ℕ → ℕ → GameRow → Bool
is_abandoned user_id type_id session_id g =
    (g.id == session_id)
    && ((g.type_id == type_id) && ((g.creator_id == user_id) && not (is_active g)))

unfoldable pub revive : GameRow → GameRow
revive g = record g { destroyed_at = none }

unfoldable pub restore_abandoned_game_session_for_split : ℕ → ℕ → ℕ → Db → Tx Bool
unfolding is_abandoned revive insert_participant
restore_abandoned_game_session_for_split user_id type_id session_id db =
    let db' = record db {
      games = update_rows (is_abandoned user_id type_id session_id) revive db.games;
    } in
    if has_row (is_abandoned user_id type_id session_id) db.games
    then (insert_participant session_id user_id db' >>= λ db''. ok (db'', true))
    else ok (db, false)

unfoldable pub set_attributes : List ℕ → GameRow → GameRow
set_attributes attributes g = record g { attributes = attributes }

unfoldable pub update_game_session : ℕ → ℕ → List ℕ → Db → Db
unfolding set_attributes
update_game_session type_id game_id attributes db = record db {
  games =
      update_rows (λ g. (g.id == game_id) && (g.type_id == type_id)) (set_attributes attributes)
        db.games;
}

-- An accepted invitation to a private room, or to follow.
unfoldable pub is_private_invite : ℕ → ℕ → ℕ → ℕ → InviteRow → Bool
is_private_invite now user_id type_id session_id i =
    ((i.kind == 1) || (i.kind == 3)) && is_accepted_for now user_id type_id session_id i

-- The row with the highest id.
unfoldable pub later : InviteRow → Option InviteRow → Option InviteRow
later i none = some i
later i (some j) = if leb j.rowid i.rowid then some i else some j

unfoldable pub last_row : List InviteRow → Option InviteRow
unfolding later
last_row [] = none
last_row (i ∷ is) = later i (last_row is)

-- Whether a private participant waits for its own JoinSession.
unfoldable pub is_deferred : ℕ → ℕ → Bool → Option InviteRow → Bool
is_deferred caller_id creator_id already_joined none = false
is_deferred caller_id creator_id already_joined (some i) =
    not already_joined && not ((caller_id == creator_id) && (i.sender == caller_id))

unfoldable pub add_one_private : ℕ → ℕ → ℕ → ℕ → ℕ → Db → Outcome DbError Db
unfolding is_deferred is_private_invite is_accepted_for last_row insert_participant joined
add_one_private caller_id creator_id type_id session_id user_id db =
    if is_deferred caller_id creator_id (joined db.participants session_id user_id)
      (last_row (select (is_private_invite db.now user_id type_id session_id) db.invites))
    then ok db
    else insert_participant session_id user_id db

unfoldable pub add_private : ℕ → ℕ → ℕ → ℕ → List ℕ → Db → Outcome DbError Db
unfolding add_one_private
add_private caller_id creator_id type_id session_id [] db = ok db
add_private caller_id creator_id type_id session_id (user_id ∷ ids) db =
    add_one_private caller_id creator_id type_id session_id user_id db >>= λ db'.
    add_private caller_id creator_id type_id session_id ids db'

unfoldable pub add_to : ℕ → ℕ → ℕ → List ℕ → List ℕ → Option GameRow → Db → Tx (Unit {0})
unfolding insert_participants add_private reconcile_game_session
add_to caller_id type_id session_id private_ids public_ids none db = ok (db, tt)
add_to caller_id type_id session_id private_ids public_ids (some g) db =
    insert_participants session_id public_ids db >>= λ db1.
    add_private caller_id g.creator_id type_id session_id private_ids db1 >>= λ db2.
    ok (reconcile_game_session type_id session_id db2, tt)

unfoldable pub add_participants : ℕ → ℕ → ℕ → List ℕ → List ℕ → Db → Tx (Unit {0})
unfolding add_to to_set
add_participants caller_id type_id session_id private_ids public_ids db =
    if is_empty private_ids && is_empty public_ids
    then ok (db, tt)
    else add_to caller_id type_id session_id (to_set private_ids) (to_set public_ids)
        (first_row (is_session type_id session_id) db.games) db

unfoldable pub delete_participants : ℕ → List ℕ → Db → Db
unfolding delete_participant
delete_participants session_id [] db = db
delete_participants session_id (user_id ∷ ids) db =
    delete_participants session_id ids (delete_participant session_id user_id db)

unfoldable pub remove_participants : ℕ → ℕ → List ℕ → Db → Db
unfolding delete_participants reconcile_game_session to_set
remove_participants type_id session_id ids db =
    reconcile_game_session type_id session_id (delete_participants session_id (to_set ids) db)
