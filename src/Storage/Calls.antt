-- ===== src/Storage/Calls.antt =====
-- The calls of server/dedicated-server/src/storage/mod.rs that the handlers of game sessions make, each
-- with what it does to the hosts of the sessions.
use scbl.Prelude.{
  ℕ, ◌==◌, ◌^◌, ◌%◌, ◌≡◌, refl, sym, ap, subst, Bool, true, false, ◌&&◌, List, [], ◌∷◌, ◌++◌,
  Option, none, some, ok, All, All-append, Bool-cases, inl, inr, ok-injective, >>=-eq-ok, arith,
}
use scbl.Prelude.Maps.{mem, Distinct}
use scbl.Storage.{
  Db, GameRow, is_active, is_session, has_user, joined, insert_participant, delete_participant,
  set_creator,
}
use scbl.Storage.Rows.{
  select, has_row, first_row, update_rows, next_id, next_id_fresh, All-weaken, to_set,
}
use scbl.Storage.Attributes.{is_game_room_attributes}
use scbl.Storage.Games.{
  game_ids, create_game_session, join_game_session_unbounded, join_row, leave_game_session,
  migrate_game_session_host, update_game_session, set_attributes, remove_participants,
  delete_participants, invited_party, newest, is_lobby_invite, join_party, is_accepted_for, consume,
  follow_into,
}
use scbl.Storage.Hosted.{IsHosted, IsHostedBut, IsCovered, listed, covered_more}
use scbl.Storage.Reconcile.{reconcile-IsHostedBut}
use scbl.Storage.Grows.{
  Grows, Grows-IsHostedBut, Grows-trans, Grows-same, if-ok, insert_participant-Grows,
  follow_into-Grows, join_party-Grows,
}
use scbl.Storage.Kept.{
  updated-IsHostedBut, named, deleted-IsHostedBut, type_of_session, delete_participant-games,
}

Distinct-snoc :
    (gs : List GameRow) (g : GameRow)
    → mem g.id (game_ids gs) ≡ false
    → Distinct (game_ids gs)
    → Distinct (game_ids (gs ++ (g ∷ [])))
unfolding game_ids
Distinct-snoc [] g e d = (refl, tt)
Distinct-snoc (h ∷ gs) g e d =
    (mem-snoc h.id g gs (ground (arith, e)) d.0, Distinct-snoc gs g (ground (arith, e)) d.1)
  where
    mem-snoc :
        (k : ℕ) (g : GameRow) (gs : List GameRow)
        → (g.id == k) ≡ false
        → mem k (game_ids gs) ≡ false
        → mem k (game_ids (gs ++ (g ∷ []))) ≡ false
    mem-snoc k g [] e h = rw e refl
    mem-snoc k g (x ∷ gs) e h = let ih = mem-snoc k g gs e in ground (arith, h, ih)

-- A new session has its creator as its participant.
pub create-IsHosted :
    (u t : ℕ) (attributes : List ℕ) (db : Db) (r : Db × ℕ)
    → create_game_session u t attributes db ≡ ok r
    → IsHosted db
    → IsHosted r.0
unfolding create_game_session
create-IsHosted u t attributes db r e h =
    let id = next_id (game_ids db.games) in
    let row : GameRow = record {
      id = id;
      type_id = t;
      creator_id = u;
      attributes = attributes;
      destroyed_at = none;
    } in
    let db1 : Db = record db { games = db.games ++ (row ∷ []) } in
    if-ok (has_user db u) _ _ r
      (λ k.
        let (db2, e1, f1) = >>=-eq-ok (insert_participant id u db1) _ k in
        let (s, e2, f2) =
          >>=-eq-ok (follow_into (is_game_room_attributes attributes) u t (id % 2 ^ 32) db2) _ f1 in
        let (grown, there) = insert_participant-Grows id u db1 db2 e1 in
        let later =
          follow_into-Grows (is_game_room_attributes attributes) u t (id % 2 ^ 32) db2 s e2 in
        let old = covered_more [] db.participants db2.participants db.games grown.more h.hosted in
        let all =
          All-append (IsCovered [] db2.participants) db.games (row ∷ []) old
            ((λ active. rw there refl), tt) in
        let hosted : IsHosted db2 = record {
          distinct =
              subst (λ gs. Distinct (game_ids gs)) grown.games
                (Distinct-snoc db.games row (next_id_fresh (game_ids db.games)) h.distinct);
          hosted = subst (λ gs. All (IsCovered [] db2.participants) gs) grown.games all;
        } in
        subst (λ q. IsHosted q) (ap (λ q. q.0) (ok-injective f2))
          (Grows-IsHostedBut [] db2 s.0 later hosted))
      (λ k. cc) e

join_row-Grows :
    (u t s : ℕ) (g : Option GameRow) (db : Db) (r : Db × Bool)
    → join_row u t s g db ≡ ok r
    → Grows db r.0
unfolding join_row
join_row-Grows u t s none db r e =
    Grows-same (ap (λ q. q.0.games) (ok-injective e)) (ap (λ q. q.0.participants) (ok-injective e))
join_row-Grows u t s (some g) db r e =
    let (db1, e1, f1) = >>=-eq-ok (insert_participant s u db) _ e in
    let party = invited_party (newest (select (is_lobby_invite db.now u t s) db1.invites)) in
    let (db2, e2, f2) = >>=-eq-ok (join_party u party db1) _ f1 in
    let db3 : Db = record db2 {
      invites = update_rows (is_accepted_for db.now u t s) (consume db.now) db2.invites;
    } in
    let (a, e3, f3) =
      >>=-eq-ok (follow_into (is_game_room_attributes g.attributes) u t s db3) _ f2 in
    let consumed : Grows db2 db3 = Grows-same refl refl in
    let last : Grows a.0 r.0 =
      Grows-same (ap (λ q. q.0.games) (ok-injective f3))
        (ap (λ q. q.0.participants) (ok-injective f3)) in
    Grows-trans (insert_participant-Grows s u db db1 e1).0 (
      Grows-trans (join_party-Grows u party db1 db2 e2) (
        Grows-trans consumed (
          Grows-trans (follow_into-Grows (is_game_room_attributes g.attributes) u t s db3 a e3)
            last)))

pub join-IsHosted :
    (u t s : ℕ) (db : Db) (r : Db × Bool)
    → join_game_session_unbounded u t s db ≡ ok r
    → IsHosted db
    → IsHosted r.0
unfolding join_game_session_unbounded
join-IsHosted u t s db r e h =
    Grows-IsHostedBut [] db r.0 (join_row-Grows u t s (first_row (is_session t s) db.games) db r e)
      h

-- The session that a participant leaves, by its type.
own_session :
    (t s u : ℕ) (gs : List GameRow)
    → All (λ x. x.id ≡ s → x.type_id ≡ t) gs
    → All
        (λ x.
          is_active x ≡ true
          → ((s == x.id) && (u == x.creator_id)) ≡ true
          → listed ((t, s) ∷ []) x ≡ true)
        gs
unfolding listed has_row
own_session t s u gs h =
    All-weaken _ _ gs
      (λ x typed active host.
        let id : x.id ≡ s = ground (arith, host) in
        let type = typed id in
        let e1 : (x.type_id == t) ≡ true = ground (arith, type) in
        let e2 : (x.id == s) ≡ true = ground (arith, id) in rw (e1, e2) refl)
      h

pub leave-IsHosted : (u t s : ℕ) (db : Db) → IsHosted db → IsHosted (leave_game_session u t s db)
unfolding leave_game_session
leave-IsHosted u t s db h = elim (Bool-cases (has_row (is_session t s) db.games)) [
  | inl there ↦ rw there (
      reconcile-IsHostedBut t s [] (delete_participant s u db) (
        deleted-IsHostedBut ((t, s) ∷ []) s u db
          (own_session t s u db.games (type_of_session t s db.games h.distinct there))
          (named ((t, s) ∷ []) db h)))
  | inr away ↦ rw away (reconcile-IsHostedBut t s [] db (named ((t, s) ∷ []) db h))
]

deleted_all :
    (t s : ℕ) (us : List ℕ) (db : Db)
    → All (λ x. x.id ≡ s → x.type_id ≡ t) db.games
    → IsHostedBut ((t, s) ∷ []) db
    → IsHostedBut ((t, s) ∷ []) (delete_participants s us db)
unfolding delete_participants
deleted_all t s [] db typed h = h
deleted_all t s (u ∷ us) db typed h =
    deleted_all t s us (delete_participant s u db)
      (subst (λ gs. All (λ x. x.id ≡ s → x.type_id ≡ t) gs) (sym (delete_participant-games s u db))
        typed)
      (deleted-IsHostedBut ((t, s) ∷ []) s u db (own_session t s u db.games typed) h)

-- Participants are removed from an active session under its own type.
pub remove-IsHosted :
    (t s : ℕ) (us : List ℕ) (db : Db)
    → has_row (is_session t s) db.games ≡ true
    → IsHosted db
    → IsHosted (remove_participants t s us db)
unfolding remove_participants
remove-IsHosted t s us db there h =
    reconcile-IsHostedBut t s [] (delete_participants s (to_set us) db) (
      deleted_all t s (to_set us) db (type_of_session t s db.games h.distinct there)
        (named ((t, s) ∷ []) db h))

pub migrate-IsHosted :
    (u t s : ℕ) (db : Db) → IsHosted db → IsHosted (migrate_game_session_host u t s db).0
unfolding migrate_game_session_host set_creator
migrate-IsHosted u t s db h =
    elim (Bool-cases (has_row (is_session t s) db.games && joined db.participants s u)) [
      | inl can ↦
          let there : joined db.participants s u ≡ true = ground (arith, can) in
          rw can (
            updated-IsHostedBut [] (is_session t s) (set_creator u) db (λ g. refl)
              (λ g hit c active. let id : g.id ≡ s = ground (arith, hit) in rw id (rw there refl))
              h)
      | inr not_allowed ↦ rw not_allowed h
    ]

pub update-IsHosted :
    (t s : ℕ) (attributes : List ℕ) (db : Db)
    → IsHosted db
    → IsHosted (update_game_session t s attributes db)
unfolding update_game_session set_attributes listed
update-IsHosted t s attributes db h =
    updated-IsHostedBut [] (λ g. (g.id == s) && (g.type_id == t)) (set_attributes attributes) db
      (λ g. refl) (λ g hit c. c) h
