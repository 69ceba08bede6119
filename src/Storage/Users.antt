-- ===== src/Storage/Users.antt =====
-- server/dedicated-server/src/storage/mod.rs: accounts, the sessions of users, their end, and the
-- invitation searches that are held in memory. The crate argon2 is the argument `verify`: it answers
-- nothing for a hash that cannot be parsed.
use scbl.Prelude.{
  ℕ, ◌+◌, ◌-◌, ◌/◌, ◌%◌, ◌*◌, ◌==◌, leb, ltb, Bool, true, false, not, ◌&&◌, ◌||◌, List, [], ◌∷◌,
  ◌++◌, map, Option, none, some, Outcome, ok, err, if◌then◌else◌,
}
use scbl.Storage.{
  Db, Tx, DbError, foreign_key, unique_key, no_password, two_passwords, bad_hash, GameRow, UserRow,
  has_user, is_active, joined, delete_participant, leave_party, set_destroyed,
  reconcile_game_session,
}
use scbl.Storage.Rows.{select, delete_rows, has_row, first_row, update_rows}
use scbl.Storage.Attributes.{equal_text}

unfoldable pub id_of : Option UserRow → Option ℕ
id_of none = none
id_of (some u) = some u.id

unfoldable pub find_user_id_by_name : Db → List ℕ → Option ℕ
unfolding id_of equal_text
find_user_id_by_name db username = id_of (first_row (λ u. equal_text u.username username) db.users)

unfoldable pub password_of : Option UserRow → Option (List ℕ)
password_of none = none
password_of (some u) = u.password

unfoldable pub find_password_for_user : Db → ℕ → Option (List ℕ)
unfolding password_of
find_password_for_user db user_id = password_of (first_row (λ u. u.id == user_id) db.users)

unfoldable pub set_online : Bool → UserRow → UserRow
set_online online u = record u { is_online = online }

unfoldable pub mark_online : Bool → ℕ → Db → Db
unfolding set_online
mark_online online user_id db = record db {
  users = update_rows (λ u. u.id == user_id) (set_online online) db.users;
}

-- The end of `login_user`: the user where the password is right.
unfoldable pub checked : UserRow → Bool → Db → Tx (Option ℕ)
unfolding mark_online
checked u right db = if right then ok (mark_online true u.id db, some u.id) else ok (db, none)

unfoldable pub check_hash : UserRow → Option Bool → Db → Tx (Option ℕ)
unfolding checked
check_hash u none db = err bad_hash
check_hash u (some right) db = checked u right db

module _ (verify : List ℕ → List ℕ → Option Bool) where
  unfoldable pub login_with_row :
      UserRow → List ℕ → Option (List ℕ) → Option (List ℕ) → Db → Tx (Option ℕ)
  unfolding checked check_hash equal_text
  login_with_row u password none none db = err no_password
  login_with_row u password (some stored) (some hash) db = err two_passwords
  login_with_row u password (some stored) none db = checked u (equal_text stored password) db
  login_with_row u password none (some hash) db = check_hash u (verify hash password) db

  unfoldable pub login_row : Option UserRow → List ℕ → Db → Tx (Option ℕ)
  unfolding login_with_row
  login_row none password db = ok (db, none)
  login_row (some u) password db = login_with_row u password u.password u.password_hash db

  unfoldable pub login_user : List ℕ → List ℕ → Db → Tx (Option ℕ)
  unfolding login_row equal_text
  login_user username password db =
      login_row (first_row (λ u. equal_text u.username username) db.users) password db

-- The digit of `{c:02X}`.
unfoldable pub upper_digit : ℕ → ℕ
upper_digit d = if ltb d 10 then 48 + d else 55 + d

unfoldable pub to_upper_hex : List ℕ → List ℕ
unfolding upper_digit
to_upper_hex [] = []
to_upper_hex (c ∷ key) = upper_digit (c / 16) ∷ (upper_digit (c % 16) ∷ to_upper_hex key)

unfoldable pub create_user_session : ℕ → List ℕ → Db → Outcome DbError Db
unfolding to_upper_hex equal_text has_user mark_online
create_user_session user_id key db =
    let id = to_upper_hex key in
    if has_row (λ s. equal_text s.0 id) db.user_sessions
    then err unique_key
    else if has_user db user_id
    then ok (
        mark_online true user_id
          (record db { user_sessions = db.user_sessions ++ ((id, user_id) ∷ []) }))
    else err foreign_key

unfoldable pub set_seen : ℕ → UserRow → UserRow
set_seen now u = record u { last_api_seen_at = some now }

unfoldable pub touch_api_presence : ℕ → Db → Db
unfolding set_seen
touch_api_presence user_id db = record db {
  users = update_rows (λ u. u.id == user_id) (set_seen db.now) db.users;
}

-- The active sessions that a user hosts or takes part in.
unfoldable pub is_affected : ℕ → List (ℕ × ℕ) → GameRow → Bool
unfolding joined
is_affected user_id participants g =
    is_active g && ((g.creator_id == user_id) || joined participants g.id user_id)

unfoldable pub affected_sessions : ℕ → Db → List (ℕ × ℕ)
unfolding is_affected
affected_sessions user_id db =
    map (λ g. (g.type_id, g.id)) (select (is_affected user_id db.participants) db.games)

-- The games of a user, in each of which the row is deleted.
unfoldable pub leave_games : ℕ → List (ℕ × ℕ) → Db → Db
unfolding delete_participant
leave_games user_id [] db = db
leave_games user_id (p ∷ ps) db =
    let rest = leave_games user_id ps in
    if p.1 == user_id then rest (delete_participant p.0 user_id db) else rest db

unfoldable pub reconcile_all : List (ℕ × ℕ) → Db → Db
unfolding reconcile_game_session
reconcile_all [] db = db
reconcile_all (s ∷ ss) db = reconcile_all ss (reconcile_game_session s.0 s.1 db)

unfoldable pub delete_urls : ℕ → Db → Db
delete_urls user_id db = record db {
  station_urls = delete_rows (λ u. u.0 == user_id) db.station_urls;
}

unfoldable pub delete_sessions_of : ℕ → Db → Db
delete_sessions_of user_id db = record db {
  user_sessions = delete_rows (λ s. s.1 == user_id) db.user_sessions;
}

-- `delete_user_session`, and `cleanup_user_game_state_async`, which has the same statements.
unfoldable pub delete_user_session : ℕ → Db → Db
unfolding affected_sessions leave_party leave_games delete_urls delete_sessions_of mark_online
    reconcile_all
delete_user_session user_id db =
    let left = leave_games user_id db.participants (leave_party user_id db) in
    reconcile_all (affected_sessions user_id db)
      (mark_online false user_id (delete_sessions_of user_id (delete_urls user_id left)))

-- Seen by the overlay in the last fifteen seconds.
unfoldable pub seen_since : ℕ → Option ℕ → Bool
seen_since now none = false
seen_since now (some t) = leb now (t + 15)

-- Whether the state of the games is kept.
unfoldable pub close_secure_session : ℕ → Db → Db × Bool
unfolding seen_since delete_sessions_of mark_online delete_user_session
close_secure_session user_id db =
    let db' = mark_online false user_id (delete_sessions_of user_id db) in
    if has_row (λ u. (u.id == user_id) && seen_since db.now u.last_api_seen_at) db.users
    then (db', true)
    else (delete_user_session user_id db', false)

unfoldable pub is_stale_user : Db → UserRow → Bool
unfolding seen_since
is_stale_user db u =
    not u.is_online
    && (not (seen_since db.now u.last_api_seen_at)
        && (has_row (λ url. url.0 == u.id) db.station_urls
            || has_row (λ p. p.1 == u.id) db.participants))

unfoldable pub cleanup_all : List UserRow → Db → Db
unfolding delete_user_session
cleanup_all [] db = db
cleanup_all (u ∷ us) db = cleanup_all us (delete_user_session u.id db)

unfoldable pub cleanup_stale_api_sessions : Db → Db
unfolding is_stale_user cleanup_all
cleanup_stale_api_sessions db = cleanup_all (select (is_stale_user db) db.users) db

unfoldable pub invalidate_sessions : Db → Db
unfolding set_destroyed set_online
invalidate_sessions db = record db {
  parties = [];
  party_members = [];
  station_urls = [];
  user_sessions = [];
  games = update_rows is_active (set_destroyed db.now) db.games;
  users = update_rows (λ u. true) (set_online false) db.users;
}

unfoldable pub distinct_texts : List (List ℕ) → List (List ℕ)
unfolding equal_text
distinct_texts [] = []
distinct_texts (t ∷ ts) =
    let rest = distinct_texts ts in if has_row (equal_text t) rest then rest else t ∷ rest

unfoldable pub register_urls : ℕ → List (List ℕ) → Db → Outcome DbError Db
unfolding delete_urls distinct_texts has_user
register_urls user_id [] db = ok (delete_urls user_id db)
register_urls user_id (url ∷ urls) db =
    let db' = delete_urls user_id db in
    if has_user db user_id
    then ok (record db' {
      station_urls = db'.station_urls ++ map (λ t. (user_id, t)) (distinct_texts (url ∷ urls));
    })
    else err foreign_key

-- Fifteen seconds in nanoseconds.
abbrev pub search_ttl : ℕ
search_ttl = 15 * 1_000_000_000

abbrev pub is_search : ℕ → ℕ → (ℕ × ℕ) × ℕ → Bool
is_search receiver_id session_type s = (s.0.0 == receiver_id) && (s.0.1 == session_type)

unfoldable pub prune_manual_invitation_searches : ℕ → List ((ℕ × ℕ) × ℕ) → List ((ℕ × ℕ) × ℕ)
prune_manual_invitation_searches instant searches =
    select (λ s. leb (instant - s.1) search_ttl) searches

unfoldable pub note_manual_invitation_search : ℕ → ℕ → Db → Db
unfolding prune_manual_invitation_searches
note_manual_invitation_search receiver_id session_type db = record db {
  manual_invitation_searches =
      ((receiver_id, session_type), db.instant)
      ∷ delete_rows (is_search receiver_id session_type)
          (prune_manual_invitation_searches db.instant db.manual_invitation_searches);
}

unfoldable pub clear_manual_invitation_search : ℕ → ℕ → Db → Db
clear_manual_invitation_search receiver_id session_type db = record db {
  manual_invitation_searches =
      delete_rows (is_search receiver_id session_type) db.manual_invitation_searches;
}

unfoldable pub manual_invitation_search_is_active : ℕ → ℕ → Db → Db × Bool
unfolding prune_manual_invitation_searches
manual_invitation_search_is_active receiver_id session_type db =
    let searches = prune_manual_invitation_searches db.instant db.manual_invitation_searches in
    (
      record db { manual_invitation_searches = searches },
      has_row (is_search receiver_id session_type) searches,
    )
