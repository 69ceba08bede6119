-- ===== src/Storage.antt =====
-- server/dedicated-server/src/storage/mod.rs and the tables of storage/migrations: the database of the
-- servers as tables that are lists of rows, and the statements that several calls share. The columns
-- that no call of the model reads are left out. A statement fails where a foreign key or a unique key
-- does not hold, and a call whose transaction fails leaves the database as it was; failures of the
-- file system are left out. Time stands still within a call. Every invitation has an expiry: the
-- migration that added the column deleted those that had none.
pub mod Rows
pub mod Attributes
pub mod Parties
pub mod Games
pub mod Lobby
pub mod Users
pub mod Hosted
pub mod Reconcile
pub mod Grows
pub mod Kept
pub mod Calls
pub mod Ends
pub mod Changes
pub mod Invites
pub mod Delivery
pub mod Accepted
pub mod Searches
pub mod Sqlite
pub mod Handlers
pub mod Invited
pub mod Offers
pub mod Joined
pub mod Taken
pub mod Effects
pub mod Classes
mod Tests
use scbl.Prelude.{
  ℕ, ◌+◌, ◌-◌, ◌*◌, ◌==◌, leb, ltb, Bool, true, false, not, ◌&&◌, ◌||◌, List, [], ◌∷◌, ◌++◌, map,
  Option, none, some, Outcome, ok, err, panic, is_empty, if◌then◌else◌, ◌>>=◌,
}
use scbl.Prelude.Maps.{mem}
use scbl.Storage.Rows.{select, delete_rows, has_row, update_rows, first_row, sort_ids}
use scbl.Storage.Attributes.{is_like_class}

pub record UserRow : Type 0 where
  pub id : ℕ
  pub username : List ℕ
  pub password : Option (List ℕ)
  pub password_hash : Option (List ℕ)
  pub is_online : Bool
  pub last_api_seen_at : Option ℕ

-- The column `attributes` may be NULL, but every call that writes it writes a text.
pub record GameRow : Type 0 where
  pub id : ℕ
  pub type_id : ℕ
  pub creator_id : ℕ
  pub attributes : List ℕ
  pub destroyed_at : Option ℕ

pub record PartyRow : Type 0 where
  pub id : ℕ
  pub leader_id : ℕ

pub record MemberRow : Type 0 where
  pub user_id : ℕ
  pub party_id : ℕ

pub record InviteRow : Type 0 where
  pub rowid : ℕ
  pub sender : ℕ
  pub receiver : ℕ
  pub kind : ℕ
  pub session_type : ℕ
  pub session_id : ℕ
  pub party_id : Option ℕ
  pub created : ℕ
  pub expires_at : ℕ
  pub delivered_at : Option ℕ
  pub accepted_at : Option ℕ
  pub consumed_at : Option ℕ
  pub delivery_count : ℕ

-- The tables, the last id of the parties (AUTOINCREMENT), the searches that are held in memory, and the
-- clocks: seconds for the database, and nanoseconds for `Instant`.
pub record Db : Type 0 where
  pub users : List UserRow
  pub games : List GameRow
  pub participants : List (ℕ × ℕ)
  pub station_urls : List (ℕ × List ℕ)
  pub user_sessions : List (List ℕ × ℕ)
  pub parties : List PartyRow
  pub party_members : List MemberRow
  pub last_party_id : ℕ
  pub invites : List InviteRow
  pub manual_invitation_searches : List ((ℕ × ℕ) × ℕ)
  pub now : ℕ
  pub instant : ℕ

-- What a statement fails with.
pub data DbError : Type 0 where
  foreign_key unique_key no_password two_passwords bad_hash : DbError

abbrev pub Tx : Type 0 → Type 0
Tx A = Outcome DbError (Db × A)

-- A call with its transaction: a failure leaves the database as it was.
unfoldable pub run : {A : Type 0} → Db → Tx A → Db × Option A
run db (ok (db', a)) = (db', some a)
run db (err e) = (db, none)
run db panic = (db, none)

unfoldable pub is_null : Option ℕ → Bool
is_null none = true
is_null (some t) = false

abbrev pub is_active : GameRow → Bool
is_active g = is_null g.destroyed_at

unfoldable pub has_user : Db → ℕ → Bool
has_user db user_id = has_row (λ u. u.id == user_id) db.users

unfoldable pub has_game : Db → ℕ → Bool
has_game db game_id = has_row (λ g. g.id == game_id) db.games

unfoldable pub joined : List (ℕ × ℕ) → ℕ → ℕ → Bool
joined participants game_id user_id =
    has_row (λ p. (p.0 == game_id) && (p.1 == user_id)) participants

unfoldable pub has_url : Db → ℕ → Bool
has_url db user_id = has_row (λ u. u.0 == user_id) db.station_urls

-- `id = ? AND type_id = ? AND destroyed_at IS NULL`.
abbrev pub is_session : ℕ → ℕ → GameRow → Bool
is_session type_id session_id g = (g.id == session_id) && ((g.type_id == type_id) && is_active g)

unfoldable pub game_session_is_active : Db → ℕ → ℕ → Bool
game_session_is_active db type_id session_id = has_row (is_session type_id session_id) db.games

-- `INSERT OR IGNORE INTO participants`.
unfoldable pub insert_participant : ℕ → ℕ → Db → Outcome DbError Db
unfolding joined has_game has_user
insert_participant game_id user_id db =
    if joined db.participants game_id user_id
    then ok db
    else if has_game db game_id && has_user db user_id
    then ok (record db { participants = db.participants ++ ((game_id, user_id) ∷ []) })
    else err foreign_key

unfoldable pub insert_participants : ℕ → List ℕ → Db → Outcome DbError Db
unfolding insert_participant
insert_participants game_id [] db = ok db
insert_participants game_id (user_id ∷ ids) db =
    insert_participant game_id user_id db >>= λ db'. insert_participants game_id ids db'

-- `DELETE FROM parties WHERE …`, which deletes the members of these parties.
unfoldable pub delete_parties : (PartyRow → Bool) → Db → Db
delete_parties p db = record db {
  parties = delete_rows p db.parties;
  party_members =
      delete_rows (λ m. has_row (λ party. p party && (party.id == m.party_id)) db.parties)
        db.party_members;
}

unfoldable pub leave_party : ℕ → Db → Db
unfolding delete_parties
leave_party user_id db =
    let db' = delete_parties (λ party. party.leader_id == user_id) db in
    record db' { party_members = delete_rows (λ m. m.user_id == user_id) db'.party_members }

-- The condition of the trigger `scbl_party_member_leave_lobby`.
unfoldable pub leaves_lobby : Db → ℕ → ℕ → Bool
leaves_lobby db game_id user_id =
    has_row (λ g. (g.id == game_id) && is_like_class 49 g.attributes) db.games
    && not (
        has_row
          (λ g.
            is_active g && (is_like_class 48 g.attributes && joined db.participants g.id user_id))
          db.games)

unfoldable pub without_participant : ℕ → ℕ → Db → Db
without_participant game_id user_id db = record db {
  participants = delete_rows (λ p. (p.0 == game_id) && (p.1 == user_id)) db.participants;
}

-- One row of participants is deleted, and the trigger fires.
unfoldable pub delete_participant : ℕ → ℕ → Db → Db
unfolding without_participant leaves_lobby leave_party
delete_participant game_id user_id db =
    let db' = without_participant game_id user_id db in
    if joined db.participants game_id user_id
    then if leaves_lobby db' game_id user_id then leave_party user_id db' else db'
    else db

-- The participants of a game in the order of their ids.
unfoldable pub participant_ids : List (ℕ × ℕ) → ℕ → List ℕ
participant_ids participants game_id =
    sort_ids (map (λ p. p.1) (select (λ p. p.0 == game_id) participants))

unfoldable pub set_destroyed : ℕ → GameRow → GameRow
set_destroyed now g = record g { destroyed_at = some now }

unfoldable pub set_creator : ℕ → GameRow → GameRow
set_creator user_id g = record g { creator_id = user_id }

-- `reconcile_game_session_async` where the session is active: without participants it is destroyed, and
-- without its host the participant with the lowest id becomes the host.
unfoldable pub reconcile_with : ℕ → ℕ → ℕ → List ℕ → Db → Db
unfolding set_destroyed set_creator
reconcile_with type_id session_id creator_id [] db = record db {
  games = update_rows (is_session type_id session_id) (set_destroyed db.now) db.games;
}
reconcile_with type_id session_id creator_id (first ∷ ids) db =
    if mem creator_id (first ∷ ids) then db else record db {
      games = update_rows (is_session type_id session_id) (set_creator first) db.games;
    }

unfoldable pub reconcile_row : ℕ → ℕ → Option GameRow → Db → Db
unfolding reconcile_with participant_ids
reconcile_row type_id session_id none db = db
reconcile_row type_id session_id (some g) db =
    reconcile_with type_id session_id g.creator_id (participant_ids db.participants session_id) db

unfoldable pub reconcile_game_session : ℕ → ℕ → Db → Db
unfolding reconcile_row
reconcile_game_session type_id session_id db =
    reconcile_row type_id session_id (first_row (is_session type_id session_id) db.games) db
