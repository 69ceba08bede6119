-- ===== src/Storage/Ends.antt =====
-- The calls of server/dedicated-server/src/storage/mod.rs that add participants, and those that end
-- sessions, each with what it does to the hosts.
use scbl.Prelude.{
  ℕ, ◌==◌, ◌≡◌, refl, sym, ap, subst, Bool, true, not, ◌&&◌, ◌||◌, List, [], ◌∷◌, map, Option, none,
  some, ok, All, is_empty, length, Bool-cases, inl, inr, ok-injective, >>=-eq-ok, arith,
}
use scbl.Prelude.Maps.{Distinct}
use scbl.Storage.{
  Db, GameRow, is_active, is_session, is_null, insert_participant, insert_participants,
  delete_participant, participant_ids, set_destroyed, reconcile_game_session,
}
use scbl.Storage.Rows.{select, has_row, first_row, update_rows, All-update_rows, All-weaken, to_set}
use scbl.Storage.Attributes.{is_game_room_attributes, is_lobby_session_attributes}
use scbl.Storage.Games.{
  game_ids, restore_abandoned_game_session_for_split, is_abandoned, revive, add_participants,
  add_to, add_private,
}
use scbl.Storage.Lobby.{
  delete_game_session, delete_row, restore_to, is_own_session, is_lobby_candidate, highest_id,
  others,
}
use scbl.Storage.Users.{leave_games, reconcile_all, invalidate_sessions}
use scbl.Storage.Hosted.{
  IsHosted, IsHostedBut, IsCovered, listed, covered_more, Distinct-update_rows,
}
use scbl.Storage.Reconcile.{reconcile-IsHostedBut}
use scbl.Storage.Grows.{
  Grows-IsHostedBut, Grows-trans, Grows-same, if-ok, insert_participant-Grows,
  insert_participants-Grows, add_private-Grows, restore_to-Grows,
}
use scbl.Storage.Kept.{updated-IsHostedBut, named, deleted-IsHostedBut, delete_participant-games}

-- A restored session has its creator as its participant.
pub restore-IsHosted :
    (u t s : ℕ) (db : Db) (r : Db × Bool)
    → restore_abandoned_game_session_for_split u t s db ≡ ok r
    → IsHosted db
    → IsHosted r.0
unfolding restore_abandoned_game_session_for_split is_abandoned revive
restore-IsHosted u t s db r e h =
    let p = is_abandoned u t s in
    let db1 : Db = record db { games = update_rows p revive db.games } in
    if-ok (has_row p db.games) _ _ r
      (λ k.
        let (db2, e1, f1) = >>=-eq-ok (insert_participant s u db1) _ k in
        let (grown, there) = insert_participant-Grows s u db1 db2 e1 in
        let all =
          All-update_rows (IsCovered [] db.participants) (IsCovered [] db2.participants) p revive
            db.games
            (λ g hit c active.
              let id : g.id ≡ s = ground (arith, hit) in
              let own : g.creator_id ≡ u = ground (arith, hit) in rw (id, own) (rw there refl))
            (λ g miss c.
              (covered_more [] db.participants db2.participants (g ∷ []) grown.more (c, tt)).0)
            h.hosted in
        let hosted : IsHosted db2 = record {
          distinct =
              subst (λ gs. Distinct (game_ids gs)) grown.games
                (subst Distinct (sym (Distinct-update_rows p revive db.games (λ g. refl)))
                  h.distinct);
          hosted = subst (λ gs. All (IsCovered [] db2.participants) gs) grown.games all;
        } in
        subst (λ q. IsHosted q) (ap (λ q. q.0) (ok-injective f1)) hosted)
      (λ k. subst (λ q. IsHosted q) (ap (λ q. q.0) (ok-injective k)) h) e

pub add-IsHosted :
    (caller t s : ℕ) (private_ids public_ids : List ℕ) (db : Db) (r : Db × Unit {0})
    → add_participants caller t s private_ids public_ids db ≡ ok r
    → IsHosted db
    → IsHosted r.0
unfolding add_participants
add-IsHosted caller t s private_ids public_ids db r e h =
    if-ok (is_empty private_ids && is_empty public_ids) _ _ r
      (λ k. subst (λ q. IsHosted q) (ap (λ q. q.0) (ok-injective k)) h)
      (added (first_row (is_session t s) db.games)) e
  where
    added :
        (g : Option GameRow)
        → add_to caller t s (to_set private_ids) (to_set public_ids) g db ≡ ok r
        → IsHosted r.0
    added none k = subst (λ q. IsHosted q) (ap (λ q. q.0) (ok-injective k)) h
    added (some g) k =
        let (db1, e1, f1) = >>=-eq-ok (insert_participants s (to_set public_ids) db) _ k in
        let (db2, e2, f2) =
          >>=-eq-ok (add_private caller g.creator_id t s (to_set private_ids) db1) _ f1 in
        let grown =
          Grows-trans (insert_participants-Grows s (to_set public_ids) db db1 e1)
            (add_private-Grows caller g.creator_id t s (to_set private_ids) db1 db2 e2) in
        subst (λ q. IsHosted q) (ap (λ q. q.0) (ok-injective f2))
          (reconcile-IsHostedBut t s [] db2
            (named ((t, s) ∷ []) db2 (Grows-IsHostedBut [] db db2 grown h)))

-- A destroyed row needs no host.
destroyed_covered :
    (ps : List (ℕ × ℕ)) (now : ℕ) (g : GameRow) → IsCovered [] ps (set_destroyed now g)
unfolding set_destroyed is_null
destroyed_covered ps now g active = cc

row_deleted :
    (c t s : ℕ) (g : GameRow) (db : Db) (r : Db × (ℕ × ℕ))
    → delete_row c t s (some g) db ≡ ok r
    → IsHosted db
    → IsHosted r.0
unfolding delete_row
row_deleted c t s g db r e h =
    let left = others c (participant_ids db.participants s) in
    let n = length (select (is_own_session c t s) db.games) in
    let db1 : Db = record db {
      games = update_rows (is_own_session c t s) (set_destroyed db.now) db.games;
    } in
    let ended : IsHosted db1 =
      updated-IsHostedBut [] (is_own_session c t s) (set_destroyed db.now) db
        (λ x. unfold set_destroyed in refl) (λ x hit k. destroyed_covered db.participants db.now x)
        h in
    let lobby = highest_id (
      select (λ x. is_lobby_candidate c t s db1 x && is_lobby_session_attributes x.attributes)
        db1.games) in
    if-ok ((n == 0) || (not (is_game_room_attributes g.attributes) || is_empty left))
      (ok (db1, (n, 0))) (restore_to c t left n lobby db1) r
      (λ k. subst (λ q. IsHosted q) (ap (λ q. q.0) (ok-injective k)) ended)
      (λ k. Grows-IsHostedBut [] db1 r.0 (restore_to-Grows c t left n lobby db1 r k) ended) e

pub delete-IsHosted :
    (c t s : ℕ) (db : Db) (r : Db × (ℕ × ℕ))
    → delete_game_session c t s db ≡ ok r
    → IsHosted db
    → IsHosted r.0
unfolding delete_game_session
delete-IsHosted c t s db r e h = deleted (first_row (is_own_session c t s) db.games) e
  where
    deleted : (g : Option GameRow) → delete_row c t s g db ≡ ok r → IsHosted r.0
    deleted none k = subst (λ q. IsHosted q) (ap (λ q. q.0) (ok-injective k)) h
    deleted (some g) k = row_deleted c t s g db r k h

pub invalidate-IsHosted : (db : Db) → IsHosted db → IsHosted (invalidate_sessions db)
unfolding invalidate_sessions
invalidate-IsHosted db h =
    let k =
      updated-IsHostedBut [] is_active (set_destroyed db.now) db (λ g. unfold set_destroyed in refl)
        (λ g hit c. destroyed_covered db.participants db.now g) h in
    record { distinct = k.distinct; hosted = k.hosted }

-- Where the tables are the same, so is what holds of them.
pub same_IsHostedBut :
    (ss : List (ℕ × ℕ)) (db db' : Db)
    → db.games ≡ db'.games
    → db.participants ≡ db'.participants
    → IsHostedBut ss db
    → IsHostedBut ss db'
same_IsHostedBut ss db db' g p = Grows-IsHostedBut ss db db' (Grows-same g p)

pub reconcile_all-IsHosted :
    (ss : List (ℕ × ℕ)) (db : Db) → IsHostedBut ss db → IsHosted (reconcile_all ss db)
unfolding reconcile_all
reconcile_all-IsHosted [] db h = h
reconcile_all-IsHosted ((t, s) ∷ ss) db h =
    reconcile_all-IsHosted ss (reconcile_game_session t s db) (reconcile-IsHostedBut t s ss db h)

-- Every row that satisfies the condition is named in the selection.
pub selected :
    (p : GameRow → Bool) (gs : List GameRow)
    → All (λ x. p x ≡ true → listed (map (λ g. (g.type_id, g.id)) (select p gs)) x ≡ true) gs
unfolding select listed has_row
selected p [] = tt
selected p (g ∷ gs) = elim (Bool-cases (p g)) [
  | inl hit ↦
      let type : (g.type_id == g.type_id) ≡ true = ground arith in
      let id : (g.id == g.id) ≡ true = ground arith in
      (
        (λ k. rw hit (rw (type, id) refl)),
        All-weaken _ _ gs (λ x there k. rw hit (let held = there k in ground (arith, held)))
            (selected p gs),
      )
  | inr miss ↦ ((λ k. cc), All-weaken _ _ gs (λ x there k. rw miss (there k)) (selected p gs))
]

pub leave_games-IsHostedBut :
    (ss : List (ℕ × ℕ)) (u : ℕ) (ps : List (ℕ × ℕ)) (db : Db)
    → All (λ x. is_active x ≡ true → (u == x.creator_id) ≡ true → listed ss x ≡ true) db.games
    → IsHostedBut ss db
    → IsHostedBut ss (leave_games u ps db)
unfolding leave_games
leave_games-IsHostedBut ss u [] db own h = h
leave_games-IsHostedBut ss u (p ∷ ps) db own h = elim (Bool-cases (p.1 == u)) [
  | inl mine ↦
      let db' = delete_participant p.0 u db in
      let own_there =
        All-weaken _ _ db.games
          (λ x named_there active host. named_there active (ground (arith, host))) own in
      rw mine (
        leave_games-IsHostedBut ss u ps db'
          (subst
            (λ gs.
              All (λ x. is_active x ≡ true → (u == x.creator_id) ≡ true → listed ss x ≡ true) gs)
            (sym (delete_participant-games p.0 u db)) own)
          (deleted-IsHostedBut ss p.0 u db own_there h))
  | inr other ↦ rw other (leave_games-IsHostedBut ss u ps db own h)
]
