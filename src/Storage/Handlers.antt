-- ===== src/Storage/Handlers.antt =====
-- The handlers of server/dedicated-server/src/game_session.rs over the database of
-- server/dedicated-server/src/storage/mod.rs.
use scbl.Prelude.{
  ℕ, ◌≡◌, refl, Bool, true, false, List, [], Option, none, some, Outcome, ok, err, panic,
  if◌then◌else◌,
}
use scbl.Rmc.{Error, access_denied}
use scbl.Client.{ClientInfo}
use scbl.Types.Property.{Property, session_attributes}
use scbl.GameSession
use scbl.GameSession.{Handled, with_user, queried, login_required, split_result}
use scbl.Storage.{Db, Tx, run, game_session_is_active}
use scbl.Storage.Games
use scbl.Storage.Lobby
use scbl.Storage.Users.{clear_manual_invitation_search}
use scbl.Storage.Hosted.{IsHosted}
use scbl.Storage.Calls.{
  create-IsHosted, join-IsHosted, leave-IsHosted, remove-IsHosted, migrate-IsHosted,
  update-IsHosted,
}
use scbl.Storage.Ends.{restore-IsHosted, add-IsHosted, delete-IsHosted, same_IsHostedBut}
use scbl.Storage.Sqlite.{sqlite}

-- A call whose success keeps the invariant keeps it whatever it ends in.
run-IsHosted :
    {A : Type 0} (db : Db) (call : Tx A)
    → IsHosted db
    → ((r : Db × A) → call ≡ ok r → IsHosted r.0)
    → IsHosted (run db call).0
unfolding run
run-IsHosted db (ok r) h k = k r refl
run-IsHosted db (err e) h k = h
run-IsHosted db panic h k = h

-- A handler that leaves the invariant, whatever it answers.
pub record IsKept {A : Type 0} (handled : Handled Db A) : Type 0 where
  pub at : IsHosted handled.0

kept : {A : Type 0} (db : Db) (a : Outcome Error A) → IsHosted db → IsKept (db, a)
kept db a h = record { at = h }

user-IsKept :
    {A : Type 0} (o : Outcome Error ℕ) (db : Db) (body : ℕ → Handled Db A)
    → IsHosted db
    → ((u : ℕ) → IsKept (body u))
    → IsKept (with_user o db body)
unfolding with_user
user-IsKept (ok u) db body h k = k u
user-IsKept (err e) db body h k = kept db (err e) h
user-IsKept panic db body h k = kept db panic h

queried-IsKept :
    {A B : Type 0} (r : Db × Option A) (next : Db → A → Handled Db B)
    → IsHosted r.0
    → ((db : Db) (a : A) → IsHosted db → IsKept (next db a))
    → IsKept (queried r next)
unfolding queried
queried-IsKept (db, none) next h k = record { at = h }
queried-IsKept (db, some a) next h k = k db a h

-- What `split_session` does behind each of its first two calls.
abbrev after_check : ℕ → ℕ → ℕ → Db → Bool → Handled Db (ℕ × ℕ)
after_check t s u db active =
    if active
    then split_result db t s false false
    else queried (sqlite.restore_abandoned_game_session_for_split db u t s)
        (λ db' restored. split_result db' t s false restored)

abbrev after_migration : ℕ → ℕ → ℕ → Db → Bool → Handled Db (ℕ × ℕ)
after_migration t s u db migrated =
    if migrated
    then split_result db t s true false
    else queried (db, sqlite.game_session_is_active db t s) (after_check t s u)

abbrev after_join : ℕ → ℕ → Db → Bool → Handled Db (Unit {0})
after_join t u db joined =
    if joined
    then (sqlite.clear_manual_invitation_search db u t, ok tt)
    else (db, err access_denied)

split_result-IsKept :
    (db : Db) (t s : ℕ) (migrated restored : Bool)
    → IsHosted db
    → IsKept (split_result db t s migrated restored)
unfolding split_result
split_result-IsKept db t s migrated restored h = record { at = h }

after_check-IsKept :
    (t s u : ℕ) (db : Db) (active : Bool) → IsHosted db → IsKept (after_check t s u db active)
after_check-IsKept t s u db true h = split_result-IsKept db t s false false h
after_check-IsKept t s u db false h =
    queried-IsKept (sqlite.restore_abandoned_game_session_for_split db u t s)
      (λ db' restored. split_result db' t s false restored)
      (run-IsHosted db (Games.restore_abandoned_game_session_for_split u t s db) h
        (λ r e. restore-IsHosted u t s db r e h))
      (λ db' restored k. split_result-IsKept db' t s false restored k)

after_migration-IsKept :
    (t s u : ℕ) (db : Db) (migrated : Bool)
    → IsHosted db
    → IsKept (after_migration t s u db migrated)
after_migration-IsKept t s u db true h = split_result-IsKept db t s true false h
after_migration-IsKept t s u db false h =
    queried-IsKept (db, sqlite.game_session_is_active db t s) (after_check t s u) h
      (after_check-IsKept t s u)

after_join-IsKept :
    (t u : ℕ) (db : Db) (joined : Bool) → IsHosted db → IsKept (after_join t u db joined)
unfolding clear_manual_invitation_search
after_join-IsKept t u db true h = record {
  at = same_IsHostedBut [] db (clear_manual_invitation_search u t db) refl refl h;
}
after_join-IsKept t u db false h = record { at = h }

module _ (db : Db) (ci : ClientInfo) (h : IsHosted db) where
  -- A handler of one call.
  call-IsKept :
      {A B : Type 0} (call : ℕ → Db × Option A) (finish : Db → A → Outcome Error B)
      → ((u : ℕ) → IsHosted (call u).0)
      → IsKept
          (with_user (login_required ci) db (λ u. queried (call u) (λ db' a. (db', finish db' a))))
  call-IsKept call finish k =
      user-IsKept (login_required ci) db (λ u. queried (call u) (λ db' a. (db', finish db' a))) h
        (λ u.
          queried-IsKept (call u) (λ db' a. (db', finish db' a)) (k u)
            (λ db' a k'. record { at = k' }))

  split-IsKept : (t s : ℕ) → IsKept (GameSession.split_session sqlite db ci t s)
  unfolding GameSession.split_session
  split-IsKept t s =
      user-IsKept (login_required ci) db
        (λ u. queried (sqlite.migrate_game_session_host db u t s) (after_migration t s u)) h
        (λ u.
          queried-IsKept (sqlite.migrate_game_session_host db u t s) (after_migration t s u)
            (migrate-IsHosted u t s db h) (after_migration-IsKept t s u))

  join-IsKept : (t s : ℕ) → IsKept (GameSession.join_session sqlite db ci t s)
  unfolding GameSession.join_session
  join-IsKept t s =
      user-IsKept (login_required ci) db
        (λ u. queried (sqlite.join_game_session_unbounded db u t s) (after_join t u)) h
        (λ u.
          queried-IsKept (sqlite.join_game_session_unbounded db u t s) (after_join t u)
            (run-IsHosted db (Games.join_game_session_unbounded u t s db) h
              (λ r e. join-IsHosted u t s db r e h))
            (after_join-IsKept t u))

  -- Whatever client calls them, and whatever they answer, the handlers that create, update, delete,
  -- leave, abandon, join and split a session, that migrate a session or its host, and that add
  -- participants leave every active session with its host among its participants, where it was so
  -- before.
  pub handlers-IsKept :
      (t s : ℕ) (attributes : List Property) (private_ids public_ids : List ℕ)
      → IsKept (GameSession.create_session sqlite db ci attributes t)
        × IsKept (GameSession.update_session sqlite db ci attributes t s)
        × IsKept (GameSession.delete_session sqlite db ci t s)
        × IsKept (GameSession.migrate_session sqlite db ci t s)
        × IsKept (GameSession.migrate_session_host sqlite db ci t s)
        × IsKept (GameSession.leave_session sqlite db ci t s)
        × IsKept (GameSession.abandon_session sqlite db ci t s)
        × IsKept (GameSession.add_participants sqlite db ci t s private_ids public_ids)
        × IsKept (GameSession.join_session sqlite db ci t s)
        × IsKept (GameSession.split_session sqlite db ci t s)
  unfolding GameSession.create_session GameSession.update_session GameSession.delete_session
      GameSession.migrate_session GameSession.migrate_session_host GameSession.leave_session
      GameSession.abandon_session GameSession.add_participants
  handlers-IsKept t s attributes private_ids public_ids =
      let text = session_attributes attributes in
      let migrates = λ (u : ℕ). migrate-IsHosted u t s db h in
      let leaves = λ (u : ℕ). leave-IsHosted u t s db h in
      (
        call-IsKept (λ u. sqlite.create_game_session db u t text) (λ db' id. ok id)
            (λ u.
              run-IsHosted db (Games.create_game_session u t text db) h
                (λ r e. create-IsHosted u t text db r e h)),
        call-IsKept (λ u. sqlite.update_game_session db t s text) (λ db' a. ok tt)
            (λ u. update-IsHosted t s text db h),
        call-IsKept (λ u. sqlite.delete_game_session db u t s) (λ db' counts. ok tt)
            (λ u.
              run-IsHosted db (Lobby.delete_game_session u t s db) h
                (λ r e. delete-IsHosted u t s db r e h)),
        call-IsKept (λ u. sqlite.migrate_game_session_host db u t s)
            (λ db' migrated. if migrated then ok (t, s) else err access_denied) migrates,
        call-IsKept (λ u. sqlite.migrate_game_session_host db u t s)
            (λ db' migrated. if migrated then ok tt else err access_denied) migrates,
        call-IsKept (λ u. sqlite.leave_game_session db u t s) (λ db' a. ok tt) leaves,
        call-IsKept (λ u. sqlite.leave_game_session db u t s) (λ db' a. ok tt) leaves,
        call-IsKept (λ u. sqlite.add_participants db u t s private_ids public_ids) (λ db' a. ok tt)
            (λ u.
              run-IsHosted db (Games.add_participants u t s private_ids public_ids db) h
                (λ r e. add-IsHosted u t s private_ids public_ids db r e h)),
        join-IsKept t s,
        split-IsKept t s,
      )

  -- So does the removal of participants from an active session under its own type.
  pub remove_participants-IsKept :
      (t s : ℕ) (ids : List ℕ)
      → game_session_is_active db t s ≡ true
      → IsKept (GameSession.remove_participants sqlite db ci t s ids)
  unfolding GameSession.remove_participants game_session_is_active
  remove_participants-IsKept t s ids there =
      call-IsKept (λ u. sqlite.remove_participants db t s ids) (λ db' a. ok tt)
        (λ u. remove-IsHosted t s ids db there h)
