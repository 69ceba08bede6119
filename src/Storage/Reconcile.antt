-- ===== src/Storage/Reconcile.antt =====
-- `reconcile_game_session_async` of server/dedicated-server/src/storage/mod.rs: what it does for the
-- hosts of the sessions.
use scbl.Prelude.{
  ℕ, ◌==◌, ◌≡◌, refl, sym, subst, ◌∙◌, true, false, List, [], ◌∷◌, some, Bool-cases, Option-cases,
  inl, inr, arith,
}
use scbl.Prelude.Maps.{mem, Distinct}
use scbl.Storage.{
  Db, GameRow, is_session, joined, participant_ids, set_destroyed, set_creator, reconcile_with,
  reconcile_row, reconcile_game_session, is_null,
}
use scbl.Storage.Rows.{
  has_row, first_row, All-update_rows, All-zip, first_row-none, first_row-holds,
}
use scbl.Storage.Hosted.{
  IsHostedBut, IsCovered, listed, mem-participant_ids, Distinct-update_rows, the_first,
}

module _ (type_id session_id : ℕ) (ss : List (ℕ × ℕ)) where
  -- A row of another session is covered without the name of this one.
  other_covered :
      (ps : List (ℕ × ℕ)) (g : GameRow)
      → is_session type_id session_id g ≡ false
      → IsCovered ((type_id, session_id) ∷ ss) ps g
      → IsCovered ss ps g
  unfolding listed has_row
  other_covered ps g other c active = let held = c active in ground (arith, other, active, held)

  hosted_covered :
      (ps : List (ℕ × ℕ)) (g : GameRow)
      → (is_session type_id session_id g ≡ true → joined ps g.id g.creator_id ≡ true)
      → IsCovered ((type_id, session_id) ∷ ss) ps g
      → IsCovered ss ps g
  hosted_covered ps g here c = elim (Bool-cases (is_session type_id session_id g)) [
    | inl hit ↦ (λ active. rw (here hit) refl)
    | inr other ↦ other_covered ps g other c
  ]

  with-IsHostedBut :
      (g : GameRow) (ids : List ℕ) (db : Db)
      → first_row (is_session type_id session_id) db.games ≡ some g
      → ((u : ℕ) → mem u ids ≡ joined db.participants session_id u)
      → IsHostedBut ((type_id, session_id) ∷ ss) db
      → IsHostedBut ss (reconcile_with type_id session_id g.creator_id ids db)
  unfolding reconcile_with set_destroyed set_creator is_null
  with-IsHostedBut g [] db found same h = record {
    distinct =
        subst Distinct
          (sym (
            Distinct-update_rows (is_session type_id session_id) (set_destroyed db.now) db.games
              (λ x. refl)))
          h.distinct;
    hosted =
        All-update_rows (IsCovered ((type_id, session_id) ∷ ss) db.participants)
          (IsCovered ss db.participants) (is_session type_id session_id) (set_destroyed db.now)
          db.games (λ x hit c active. cc) (λ x miss c. other_covered db.participants x miss c)
          h.hosted;
  }
  with-IsHostedBut g (first ∷ ids) db found same h =
      elim (Bool-cases (mem g.creator_id (first ∷ ids))) [
        | inl there ↦
            let id : g.id ≡ session_id =
              let e = first_row-holds _ db.games g found in ground (arith, e) in
            let host : joined db.participants g.id g.creator_id ≡ true =
              rw id (sym (same g.creator_id) ∙ there) in
            rw there (record {
              distinct = h.distinct;
              hosted =
                  All-zip _ _ _ db.games (λ x here c. hosted_covered db.participants x here c)
                    (the_first (λ x. joined db.participants x.id x.creator_id ≡ true) type_id
                      session_id db.games g h.distinct found host)
                    h.hosted;
            })
        | inr away ↦
            let heir : joined db.participants session_id first ≡ true =
              sym (same first) ∙ (let e : (first == first) ≡ true = ground arith in rw e refl) in
            rw away (record {
              distinct =
                  subst Distinct
                    (sym (
                      Distinct-update_rows (is_session type_id session_id) (set_creator first)
                        db.games (λ x. refl)))
                    h.distinct;
              hosted =
                  All-update_rows (IsCovered ((type_id, session_id) ∷ ss) db.participants)
                    (IsCovered ss db.participants) (is_session type_id session_id)
                    (set_creator first) db.games
                    (λ x hit c active.
                      let id : x.id ≡ session_id = ground (arith, hit) in rw id (rw heir refl))
                    (λ x miss c. other_covered db.participants x miss c) h.hosted;
            })
      ]

  -- Reconciling a session makes it one of those that have their host.
  pub reconcile-IsHostedBut :
      (db : Db)
      → IsHostedBut ((type_id, session_id) ∷ ss) db
      → IsHostedBut ss (reconcile_game_session type_id session_id db)
  unfolding reconcile_game_session reconcile_row
  reconcile-IsHostedBut db h =
      elim (Option-cases (first_row (is_session type_id session_id) db.games)) [
        | inl missing ↦ rw missing (record {
          distinct = h.distinct;
          hosted =
              All-zip _ _ _ db.games (λ x other c. other_covered db.participants x other c)
                (first_row-none _ db.games missing) h.hosted;
        })
        | inr (g, found) ↦ rw found (
            with-IsHostedBut g (participant_ids db.participants session_id) db found
              (mem-participant_ids db.participants session_id) h)
      ]
