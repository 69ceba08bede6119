-- ===== src/Storage/Invites.antt =====
-- server/dedicated-server/src/storage/mod.rs: the creation of invitations, the sessions that they lead
-- to, and the deletion of those that lead nowhere any more.
use scbl.Prelude.{ℕ, ◌==◌, leb, Bool, not, ◌&&◌, ◌||◌, Option, none, some, ok, if◌then◌else◌, ◌>>=◌}
use scbl.Storage.{Db, Tx, GameRow, InviteRow, has_url, is_null, is_session, joined}
use scbl.Storage.Rows.{delete_rows, has_row}
use scbl.Storage.Parties.{ensure_party_for_leader, insert_invite}

unfoldable pub is_manual : ℕ → Bool
is_manual kind = (kind == 1) || ((kind == 2) || (kind == 4))

-- The session that an invitation leads to: active, with its host in it and reachable, and hosted by
-- the sender, or for a party that follows with the sender in it.
unfoldable pub is_target : Db → InviteRow → GameRow → Bool
unfolding is_manual joined has_url
is_target db i g =
    is_session i.session_type i.session_id g
    && (joined db.participants g.id g.creator_id
        && (has_url db g.creator_id
            && ((is_manual i.kind && (g.creator_id == i.sender))
                || ((i.kind == 3) && joined db.participants g.id i.sender))))

unfoldable pub has_target : Db → InviteRow → Bool
unfolding is_target
has_target db i = has_row (is_target db i) db.games

-- The session of a new invitation: active, hosted by the sender, who is in it and reachable.
unfoldable pub is_hosted_by : Db → ℕ → ℕ → ℕ → GameRow → Bool
unfolding joined has_url
is_hosted_by db sender_id session_type session_id g =
    is_session session_type session_id g
    && ((g.creator_id == sender_id)
        && (joined db.participants g.id g.creator_id && has_url db sender_id))

unfoldable pub is_over : ℕ → InviteRow → Bool
is_over now i = not (is_null i.consumed_at) || leb i.expires_at now

-- The open invitations that a new one replaces.
unfoldable pub is_replaced : ℕ → InviteRow → Bool
is_replaced receiver_id i =
    (i.receiver == receiver_id) && (((i.kind == 1) || (i.kind == 2)) && is_null i.consumed_at)

unfoldable pub invite_party : ℕ → ℕ → Db → Tx (Option ℕ)
unfolding ensure_party_for_leader
invite_party sender_id kind db =
    if kind == 2
    then (ensure_party_for_leader sender_id db >>= λ r. ok (r.0, some r.1))
    else ok (db, none)

unfoldable pub without_replaced : ℕ → Db → Db
unfolding is_over is_replaced
without_replaced receiver_id db = record db {
  invites = delete_rows (is_replaced receiver_id) (delete_rows (is_over db.now) db.invites);
}

-- The id of the new invitation, or nothing where the session is not the sender's.
unfoldable pub add_invite : ℕ → ℕ → ℕ → ℕ → ℕ → Db → Tx (Option ℕ)
unfolding invite_party without_replaced is_hosted_by insert_invite
add_invite sender_id receiver_id kind session_type session_id db =
    if (kind == 1) || (kind == 2)
    then (invite_party sender_id kind db >>= λ r.
        let db' = without_replaced receiver_id r.0 in
        if has_row (is_hosted_by db' sender_id session_type session_id) db'.games
        then (insert_invite
              (record {
                sender = sender_id;
                receiver = receiver_id;
                kind = kind;
                session_type = session_type;
                session_id = session_id;
                party_id = r.1;
                lifetime = 300;
              })
              db'
            >>= λ s. ok (s.0, some s.1))
        else ok (db, none))
    else ok (db, none)

unfoldable pub is_invalid : Db → InviteRow → Bool
unfolding is_over has_target
is_invalid db i = is_over db.now i || not (has_target db i)

unfoldable pub cleanup_invalid_invites : Db → Db
unfolding is_invalid
cleanup_invalid_invites db = record db { invites = delete_rows (is_invalid db) db.invites }
