-- ===== src/Storage/Delivery.antt =====
-- server/dedicated-server/src/storage/mod.rs: invitations on their way to the receiver, delivered by
-- `take_invite_async` and accepted by `accept_invite_async`.
use scbl.Prelude.{ℕ, ◌+◌, ◌==◌, leb, Bool, true, not, ◌&&◌, ◌||◌, Option, none, some, if◌then◌else◌}
use scbl.Storage.{Db, InviteRow, is_null, joined}
use scbl.Storage.Rows.{select, first_row, update_rows}
use scbl.Storage.Parties.{is_live}
use scbl.Storage.Games.{newest, consume}
use scbl.Storage.Invites.{has_target, cleanup_invalid_invites}

pub record Invite : Type 0 where
  pub id : ℕ
  pub sender : ℕ
  pub receiver : ℕ
  pub kind : ℕ
  pub session_type : ℕ
  pub session_id : ℕ
  pub delivery_count : ℕ

-- An invitation to follow for one who is in the session already.
unfoldable pub is_redundant : Db → ℕ → InviteRow → Bool
unfolding joined
is_redundant db user_id i =
    (i.receiver == user_id)
    && ((i.kind == 3)
        && (is_null i.accepted_at
            && (is_live db.now i && joined db.participants i.session_id i.receiver)))

-- Three seconds behind the last delivery; one to follow is two seconds old.
unfoldable pub waited : ℕ → ℕ → Option ℕ → Bool
waited now seconds none = true
waited now seconds (some t) = leb (t + seconds) now

unfoldable pub is_due : ℕ → ℕ → InviteRow → Bool
unfolding waited
is_due now user_id i =
    (i.receiver == user_id)
    && (is_null i.accepted_at
        && (is_live now i
            && (waited now 3 i.delivered_at && (not (i.kind == 3) || leb (i.created + 2) now))))

unfoldable pub deliver : ℕ → InviteRow → InviteRow
deliver now i = record i { delivered_at = some now; delivery_count = i.delivery_count + 1 }

unfoldable pub invite_of : InviteRow → Invite
invite_of i = record {
  id = i.rowid;
  sender = i.sender;
  receiver = i.receiver;
  kind = i.kind;
  session_type = i.session_type;
  session_id = i.session_id;
  delivery_count = i.delivery_count;
}

unfoldable pub deliver_row : Option InviteRow → Db → Db × Option Invite
unfolding deliver invite_of
deliver_row none db = (db, none)
deliver_row (some i) db = (
  record db { invites = update_rows (λ j. j.rowid == i.rowid) (deliver db.now) db.invites },
  some (invite_of (deliver db.now i)),
)

unfoldable pub suppress_redundant : ℕ → Db → Db
unfolding is_redundant consume
suppress_redundant user_id db = record db {
  invites = update_rows (is_redundant db user_id) (consume db.now) db.invites;
}

unfoldable pub take_invite : ℕ → Db → Db × Option Invite
unfolding cleanup_invalid_invites suppress_redundant is_due newest deliver_row
take_invite user_id db =
    let db' = suppress_redundant user_id (cleanup_invalid_invites db) in
    deliver_row (newest (select (is_due db'.now user_id) db'.invites)) db'

-- `COALESCE(accepted_at, CURRENT_TIMESTAMP)`.
unfoldable pub or_now : ℕ → Option ℕ → Option ℕ
or_now now none = some now
or_now now (some t) = some t

unfoldable pub accept : ℕ → InviteRow → InviteRow
unfolding or_now
accept now i = record i { accepted_at = or_now now i.accepted_at }

abbrev pub is_own_invite : ℕ → ℕ → ℕ → InviteRow → Bool
is_own_invite now user_id invite_id i =
    (i.rowid == invite_id) && ((i.receiver == user_id) && is_live now i)

-- The check of the target of a private room, or of a party that follows; `db` is what a rollback
-- leaves.
unfoldable pub authorized : Db → Option InviteRow → Db → Db × Option Invite
unfolding has_target invite_of
authorized db none db' = (db', none)
authorized db (some i) db' =
    if ((i.kind == 1) || (i.kind == 3)) && not (has_target db' i)
    then (db, none)
    else (db', some (invite_of i))

unfoldable pub accept_rows : ℕ → ℕ → Db → Db
unfolding accept
accept_rows user_id invite_id db = record db {
  invites = update_rows (is_own_invite db.now user_id invite_id) (accept db.now) db.invites;
}

unfoldable pub accept_invite : ℕ → ℕ → Db → Db × Option Invite
unfolding cleanup_invalid_invites accept_rows authorized
accept_invite user_id invite_id db =
    let db' = accept_rows user_id invite_id (cleanup_invalid_invites db) in
    authorized db
      (first_row (λ i. is_own_invite db'.now user_id invite_id i && not (is_null i.accepted_at))
        db'.invites)
      db'
