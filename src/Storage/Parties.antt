-- ===== src/Storage/Parties.antt =====
-- server/dedicated-server/src/storage/mod.rs: the party of a leader, and the invitations that make its
-- members follow the leader into a game room.
use scbl.Prelude.{
  ℕ, ◌+◌, ◌==◌, ltb, Bool, true, false, not, ◌&&◌, List, [], ◌∷◌, ◌++◌, map, Option, none, some,
  Outcome, ok, err, if◌then◌else◌, ◌>>=◌,
}
use scbl.Storage.{Db, Tx, PartyRow, InviteRow, DbError, foreign_key, has_user, is_null, joined}
use scbl.Storage.Rows.{select, delete_rows, has_row, first_row, sort_ids, next_id}

abbrev pub party_of : Db → ℕ → Option PartyRow
party_of db leader_id = first_row (λ party. party.leader_id == leader_id) db.parties

-- `ON CONFLICT(user_id) DO UPDATE`: a user is a member of one party.
unfoldable pub set_member : ℕ → ℕ → Db → Outcome DbError Db
unfolding has_user
set_member user_id party_id db =
    if has_user db user_id && has_row (λ party. party.id == party_id) db.parties
    then ok (record db {
      party_members =
          delete_rows (λ m. m.user_id == user_id) db.party_members
          ++ (record { user_id = user_id; party_id = party_id } ∷ []);
    })
    else err foreign_key

-- A party that exists, or a new one.
unfoldable pub found_party : ℕ → Option PartyRow → Db → Tx ℕ
unfolding has_user
found_party leader_id (some party) db = ok (db, party.id)
found_party leader_id none db =
    if has_user db leader_id
    then ok (
      record db {
        parties = db.parties ++ (record { id = db.last_party_id + 1; leader_id = leader_id } ∷ []);
        last_party_id = db.last_party_id + 1;
      },
      db.last_party_id + 1,
    )
    else err foreign_key

unfoldable pub ensure_party_for_leader : ℕ → Db → Tx ℕ
unfolding found_party set_member
ensure_party_for_leader leader_id db = found_party leader_id (party_of db leader_id) db >>= λ r.
    set_member leader_id r.1 r.0 >>= λ db'. ok (db', r.1)

-- An invitation, and who gets it.
pub record Offer : Type 0 where
  pub sender : ℕ
  pub receiver : ℕ
  pub kind : ℕ
  pub session_type : ℕ
  pub session_id : ℕ
  pub party_id : Option ℕ
  pub lifetime : ℕ

unfoldable pub invite_ids : List InviteRow → List ℕ
invite_ids [] = []
invite_ids (i ∷ is) = i.rowid ∷ invite_ids is

-- `INSERT INTO invites`, with the id of the row.
unfoldable pub insert_invite : Offer → Db → Tx ℕ
unfolding has_user invite_ids
insert_invite offer db =
    let rowid = next_id (invite_ids db.invites) in
    if has_user db offer.sender && has_user db offer.receiver
    then ok (
      record db {
        invites =
            db.invites
            ++ (record {
              rowid = rowid;
              sender = offer.sender;
              receiver = offer.receiver;
              kind = offer.kind;
              session_type = offer.session_type;
              session_id = offer.session_id;
              party_id = offer.party_id;
              created = db.now;
              expires_at = db.now + offer.lifetime;
              delivered_at = none;
              accepted_at = none;
              consumed_at = none;
              delivery_count = 0;
            }
                ∷ []);
      },
      rowid,
    )
    else err foreign_key

-- `expires_at > CURRENT_TIMESTAMP` and `consumed_at IS NULL`.
abbrev pub is_live : ℕ → InviteRow → Bool
is_live now i = is_null i.consumed_at && ltb now i.expires_at

-- A comparison with a column that may be NULL: true only for a value, and false only for a value.
unfoldable pub is_id : Option ℕ → ℕ → Bool
is_id none id = false
is_id (some other) id = other == id

unfoldable pub may_be_id : Option ℕ → ℕ → Bool
may_be_id none id = true
may_be_id (some other) id = other == id

abbrev pub is_for : ℕ → ℕ → InviteRow → Bool
is_for session_type session_id i = (i.session_type == session_type) && (i.session_id == session_id)

-- The rows that the DELETE of `queue_party_follow_invites_async` takes.
unfoldable pub is_other_follow : ℕ → ℕ → ℕ → ℕ → ℕ → InviteRow → Bool
unfolding may_be_id
is_other_follow now party_id session_type session_id receiver i =
    (i.receiver == receiver)
    && ((i.kind == 3)
        && (is_null i.consumed_at
            && not (
                may_be_id i.party_id party_id
                && (is_for session_type session_id i && ltb now i.expires_at))))

unfoldable pub is_follow : ℕ → ℕ → ℕ → ℕ → ℕ → InviteRow → Bool
unfolding is_id
is_follow now party_id session_type session_id receiver i =
    (i.receiver == receiver)
    && ((i.kind == 3)
        && (is_id i.party_id party_id && (is_for session_type session_id i && is_live now i)))

unfoldable pub without_other_follows : ℕ → ℕ → ℕ → ℕ → Db → Db
unfolding is_other_follow
without_other_follows party_id session_type session_id receiver db = record db {
  invites =
      delete_rows (is_other_follow db.now party_id session_type session_id receiver) db.invites;
}

abbrev pub follow_offer : ℕ → ℕ → ℕ → ℕ → ℕ → Offer
follow_offer leader_id party_id session_type session_id receiver = record {
  sender = leader_id;
  receiver = receiver;
  kind = 3;
  session_type = session_type;
  session_id = session_id;
  party_id = some party_id;
  lifetime = 300;
}

-- An invitation, counted.
unfoldable pub make_invite : Offer → Db → Tx ℕ
unfolding insert_invite
make_invite offer db = insert_invite offer db >>= λ r. ok (r.0, 1)

-- One turn of the loop over the members.
unfoldable pub queue_one : ℕ → ℕ → ℕ → ℕ → ℕ → Db → Tx ℕ
unfolding without_other_follows is_follow make_invite
queue_one leader_id party_id session_type session_id receiver db =
    let db' = without_other_follows party_id session_type session_id receiver db in
    if has_row (is_follow db.now party_id session_type session_id receiver) db'.invites
    then ok (db', 0)
    else make_invite (follow_offer leader_id party_id session_type session_id receiver) db'

unfoldable pub queue_all : ℕ → ℕ → ℕ → ℕ → List ℕ → Db → Tx ℕ
unfolding queue_one
queue_all leader_id party_id session_type session_id [] db = ok (db, 0)
queue_all leader_id party_id session_type session_id (receiver ∷ receivers) db =
    queue_one leader_id party_id session_type session_id receiver db >>= λ r.
    queue_all leader_id party_id session_type session_id receivers r.0 >>= λ s. ok (s.0, r.1 + s.1)

-- The members of a party without its leader.
unfoldable pub followers : Db → ℕ → ℕ → List ℕ
followers db party_id leader_id = sort_ids (
    map (λ m. m.user_id)
      (select (λ m. (m.party_id == party_id) && not (m.user_id == leader_id)) db.party_members))

unfoldable pub queue_for : ℕ → ℕ → ℕ → Option PartyRow → Db → Tx ℕ
unfolding queue_all followers joined
queue_for leader_id session_type session_id none db = ok (db, 0)
queue_for leader_id session_type session_id (some party) db =
    if joined db.participants session_id leader_id
    then queue_all leader_id party.id session_type session_id (followers db party.id leader_id) db
    else ok (db, 0)

-- `queue_party_follow_invites_async`, with how many invitations it made.
unfoldable pub queue_party_follow_invites : ℕ → ℕ → ℕ → Db → Tx ℕ
unfolding queue_for
queue_party_follow_invites leader_id session_type session_id db =
    queue_for leader_id session_type session_id (party_of db leader_id) db
