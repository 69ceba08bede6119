-- ===== src/Storage/Changes.antt =====
-- server/dedicated-server/src/storage/mod.rs as a whole: the calls that change the database as steps, and
-- the databases that they reach.
use scbl.Prelude.{
  ℕ, ◌==◌, ◌≡◌, refl, sym, subst, Bool, true, false, ◌&&◌, List, [], ◌∷◌, ok, All, Bool-cases, inl,
  inr, arith,
}
use scbl.Storage.{Db, UserRow, leave_party, delete_parties, game_session_is_active}
use scbl.Storage.Rows.{select, has_row, All-weaken}
use scbl.Prelude.Maps.{Distinct}
use scbl.Storage.Kept.{named}
use scbl.Storage.Games.{
  game_ids, create_game_session, join_game_session_unbounded, leave_game_session,
  migrate_game_session_host, restore_abandoned_game_session_for_split, update_game_session,
  add_participants, remove_participants,
}
use scbl.Storage.Lobby.{delete_game_session}
use scbl.Storage.Users.{
  delete_user_session, affected_sessions, is_affected, leave_games, mark_online, delete_sessions_of,
  delete_urls, close_secure_session, seen_since, cleanup_stale_api_sessions, cleanup_all,
  is_stale_user, invalidate_sessions,
}
use scbl.Storage.Hosted.{IsHosted, IsCovered}
use scbl.Storage.Calls.{
  create-IsHosted, join-IsHosted, leave-IsHosted, remove-IsHosted, migrate-IsHosted,
  update-IsHosted,
}
use scbl.Storage.Ends.{
  restore-IsHosted, add-IsHosted, delete-IsHosted, invalidate-IsHosted, same_IsHostedBut,
  reconcile_all-IsHosted, leave_games-IsHostedBut, selected,
}

pub delete_user_session-IsHosted :
    (u : ℕ) (db : Db) → IsHosted db → IsHosted (delete_user_session u db)
unfolding delete_user_session affected_sessions is_affected leave_party delete_parties mark_online
    delete_sessions_of delete_urls
delete_user_session-IsHosted u db h =
    let ss = affected_sessions u db in
    let own =
      All-weaken _ _ db.games
        (λ x there active host.
          let mine : (x.creator_id == u) ≡ true = ground (arith, host) in
          there (rw (active, mine) refl))
        (selected (is_affected u db.participants) db.games) in
    let named_all = named ss db h in
    let start = same_IsHostedBut ss db (leave_party u db) refl refl named_all in
    let left = leave_games-IsHostedBut ss u db.participants (leave_party u db) own start in
    reconcile_all-IsHosted ss
      (mark_online false u
        (delete_sessions_of u (delete_urls u (leave_games u db.participants (leave_party u db)))))
      (same_IsHostedBut ss (leave_games u db.participants (leave_party u db)) _ refl refl left)

pub close-IsHosted : (u : ℕ) (db : Db) → IsHosted db → IsHosted (close_secure_session u db).0
unfolding close_secure_session mark_online delete_sessions_of
close-IsHosted u db h =
    let db' = mark_online false u (delete_sessions_of u db) in
    let k : IsHosted db' = same_IsHostedBut [] db db' refl refl h in
    elim (Bool-cases
      (has_row (λ x. (x.id == u) && seen_since db.now x.last_api_seen_at) db.users)) [
        | inl kept ↦ rw kept k
        | inr ended ↦ rw ended (delete_user_session-IsHosted u db' k)
      ]

cleanup_all-IsHosted : (us : List UserRow) (db : Db) → IsHosted db → IsHosted (cleanup_all us db)
unfolding cleanup_all
cleanup_all-IsHosted [] db h = h
cleanup_all-IsHosted (u ∷ us) db h =
    cleanup_all-IsHosted us (delete_user_session u.id db) (delete_user_session-IsHosted u.id db h)

pub cleanup-IsHosted : (db : Db) → IsHosted db → IsHosted (cleanup_stale_api_sessions db)
unfolding cleanup_stale_api_sessions
cleanup-IsHosted db h = cleanup_all-IsHosted (select (is_stale_user db) db.users) db h

-- A call that changes neither the sessions nor the participants: the accounts, the URLs, the
-- invitations and the clocks.
pub record Beside (db db' : Db) : Type 0 where
  pub games : db.games ≡ db'.games
  pub participants : db.participants ≡ db'.participants

-- A call that succeeds. Participants are removed from an active session under its own type.
pub data Change : Db → Db → Type 0 where
  created :
      {db : Db} (u t : ℕ) (attributes : List ℕ) (r : Db × ℕ)
      → create_game_session u t attributes db ≡ ok r
      → Change db r.0
  joins :
      {db : Db} (u t s : ℕ) (r : Db × Bool)
      → join_game_session_unbounded u t s db ≡ ok r
      → Change db r.0
  leaves : {db : Db} (u t s : ℕ) → Change db (leave_game_session u t s db)
  migrated : {db : Db} (u t s : ℕ) → Change db (migrate_game_session_host u t s db).0
  restored :
      {db : Db} (u t s : ℕ) (r : Db × Bool)
      → restore_abandoned_game_session_for_split u t s db ≡ ok r
      → Change db r.0
  updated :
      {db : Db} (t s : ℕ) (attributes : List ℕ) → Change db (update_game_session t s attributes db)
  added :
      {db : Db} (caller t s : ℕ) (private_ids public_ids : List ℕ) (r : Db × Unit {0})
      → add_participants caller t s private_ids public_ids db ≡ ok r
      → Change db r.0
  removed :
      {db : Db} (t s : ℕ) (ids : List ℕ)
      → game_session_is_active db t s ≡ true
      → Change db (remove_participants t s ids db)
  deleted :
      {db : Db} (u t s : ℕ) (r : Db × (ℕ × ℕ)) → delete_game_session u t s db ≡ ok r → Change db r.0
  closed : {db : Db} (u : ℕ) → Change db (close_secure_session u db).0
  ended : {db : Db} (u : ℕ) → Change db (delete_user_session u db)
  cleaned : {db : Db} → Change db (cleanup_stale_api_sessions db)
  invalidated : {db : Db} → Change db (invalidate_sessions db)
  beside : {db db' : Db} → Beside db db' → Change db db'

pub data Changes : Db → Db → Type 0 where
  none_yet : {db : Db} → Changes db db
  next : {a b c : Db} → Changes a b → Change b c → Changes a c

Change-IsHosted : {db db' : Db} → Change db db' → IsHosted db → IsHosted db'
unfolding game_session_is_active
Change-IsHosted (created u t attributes r e) h = create-IsHosted u t attributes _ r e h
Change-IsHosted (joins u t s r e) h = join-IsHosted u t s _ r e h
Change-IsHosted (leaves u t s) h = leave-IsHosted u t s _ h
Change-IsHosted (migrated u t s) h = migrate-IsHosted u t s _ h
Change-IsHosted (restored u t s r e) h = restore-IsHosted u t s _ r e h
Change-IsHosted (updated t s attributes) h = update-IsHosted t s attributes _ h
Change-IsHosted (added caller t s private_ids public_ids r e) h =
    add-IsHosted caller t s private_ids public_ids _ r e h
Change-IsHosted (removed t s ids there) h = remove-IsHosted t s ids _ there h
Change-IsHosted (deleted u t s r e) h = delete-IsHosted u t s _ r e h
Change-IsHosted (closed u) h = close-IsHosted u _ h
Change-IsHosted (ended u) h = delete_user_session-IsHosted u _ h
Change-IsHosted cleaned h = cleanup-IsHosted _ h
Change-IsHosted invalidated h = invalidate-IsHosted _ h
Change-IsHosted (beside b) h = same_IsHostedBut [] _ _ b.games b.participants h

empty-IsHosted : (db : Db) → db.games ≡ [] → IsHosted db
unfolding game_ids
empty-IsHosted db e = record {
  distinct = subst (λ gs. Distinct (game_ids gs)) (sym e) tt;
  hosted = subst (λ gs. All (IsCovered [] db.participants) gs) (sym e) tt;
}

-- In every database that the calls reach from one without sessions, each active session has its host
-- among its participants, and the ids of the sessions are distinct; participants are removed from an
-- active session under its own type.
pub Changes-IsHosted : {a db : Db} → a.games ≡ [] → Changes a db → IsHosted db
Changes-IsHosted start none_yet = empty-IsHosted _ start
Changes-IsHosted start (next before change) = Change-IsHosted change (Changes-IsHosted start before)
