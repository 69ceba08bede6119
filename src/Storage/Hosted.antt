-- ===== src/Storage/Hosted.antt =====
-- The invariant of the game sessions, that every active one has its host among its participants, and
-- what the shared statements of server/dedicated-server/src/storage/mod.rs do to it.
use scbl.Prelude.{
  ℕ, ◌==◌, ◌≡◌, refl, sym, subst, ◌∙◌, Bool, true, false, not, ◌&&◌, ◌||◌, List, [], ◌∷◌, ◌++◌, map,
  some, All, Bool-cases, inl, inr, arith,
}
use scbl.Prelude.Maps.{mem, Distinct}
use scbl.Storage.{Db, GameRow, is_active, is_session, joined, participant_ids}
use scbl.Storage.Rows.{
  select, delete_rows, has_row, first_row, update_rows, All-weaken, mem-sort_ids,
}
use scbl.Storage.Games.{game_ids}

-- A session that is named in the list, with its type.
unfoldable pub listed : List (ℕ × ℕ) → GameRow → Bool
listed ss g = has_row (λ s. (g.type_id == s.0) && (g.id == s.1)) ss

-- A row that is not active, is named in the list, or has its host among the participants.
abbrev pub IsCovered : List (ℕ × ℕ) → List (ℕ × ℕ) → GameRow → Type 0
IsCovered ss participants g =
    is_active g ≡ true → (joined participants g.id g.creator_id || listed ss g) ≡ true

-- The ids of the sessions are distinct, and all but the ones in the list have their host.
pub record IsHostedBut (ss : List (ℕ × ℕ)) (db : Db) : Type 0 where
  pub distinct : Distinct (game_ids db.games)
  pub hosted : All (IsCovered ss db.participants) db.games

abbrev pub IsHosted : Db → Type 0
IsHosted db = IsHostedBut [] db

pub joined-append :
    (ps : List (ℕ × ℕ)) (g u a b : ℕ)
    → joined (ps ++ ((g, u) ∷ [])) a b ≡ (joined ps a b || ((g == a) && (u == b)))
unfolding joined has_row
joined-append [] g u a b = ground arith
joined-append (p ∷ ps) g u a b = ground (arith, joined-append ps g u a b)

pub joined-delete_rows :
    (ps : List (ℕ × ℕ)) (g u a b : ℕ)
    → joined (delete_rows (λ p. (p.0 == g) && (p.1 == u)) ps) a b
      ≡ (joined ps a b && not ((g == a) && (u == b)))
unfolding joined has_row delete_rows
joined-delete_rows [] g u a b = refl
joined-delete_rows (p ∷ ps) g u a b = ground (arith, joined-delete_rows ps g u a b)

mem-unsorted :
    (ps : List (ℕ × ℕ)) (g u : ℕ)
    → mem u (map (λ p. p.1) (select (λ p. p.0 == g) ps)) ≡ joined ps g u
unfolding joined has_row select
mem-unsorted [] g u = refl
mem-unsorted (p ∷ ps) g u = elim (Bool-cases (p.0 == g)) [
  | inl hit ↦ rw (hit, mem-unsorted ps g u) refl
  | inr miss ↦ rw (miss, mem-unsorted ps g u) refl
]

-- A participant in the rows is in the sorted ids, and so is nobody else.
pub mem-participant_ids :
    (ps : List (ℕ × ℕ)) (g u : ℕ) → mem u (participant_ids ps g) ≡ joined ps g u
unfolding participant_ids
mem-participant_ids ps g u =
    mem-sort_ids u (map (λ p. p.1) (select (λ p. p.0 == g) ps)) ∙ mem-unsorted ps g u

-- Rows are covered where there are more participants.
pub covered_more :
    (ss ps qs : List (ℕ × ℕ)) (gs : List GameRow)
    → ((a b : ℕ) → joined ps a b ≡ true → joined qs a b ≡ true)
    → All (IsCovered ss ps) gs
    → All (IsCovered ss qs) gs
covered_more ss ps qs gs more h =
    All-weaken (IsCovered ss ps) (IsCovered ss qs) gs
      (λ g c active. elim (Bool-cases (joined ps g.id g.creator_id)) [
        | inl there ↦ rw (more g.id g.creator_id there) refl
        | inr away ↦ elim (Bool-cases (joined qs g.id g.creator_id)) [
          | inl now_there ↦ rw now_there refl
          | inr still_away ↦ rw still_away (rw away at (c active))
        ]
      ])
      h

-- The id and the type of a row are not changed by an update.
pub Distinct-update_rows :
    (p : GameRow → Bool) (f : GameRow → GameRow) (gs : List GameRow)
    → ((g : GameRow) → (f g).id ≡ g.id)
    → game_ids (update_rows p f gs) ≡ game_ids gs
unfolding update_rows game_ids
Distinct-update_rows p f [] same = refl
Distinct-update_rows p f (g ∷ gs) same = elim (Bool-cases (p g)) [
  | inl hit ↦ rw (hit, same g, Distinct-update_rows p f gs same) refl
  | inr miss ↦ rw (miss, Distinct-update_rows p f gs same) refl
]

-- No row of an id that is not there is a session of that id.
not_there :
    (type_id session_id : ℕ) (gs : List GameRow)
    → mem session_id (game_ids gs) ≡ false
    → All (λ g. is_session type_id session_id g ≡ false) gs
unfolding game_ids
not_there type_id session_id [] e = tt
not_there type_id session_id (g ∷ gs) e = elim (Bool-cases (g.id == session_id)) [
  | inl hit ↦ cc (rw hit at e)
  | inr miss ↦ (rw miss refl, not_there type_id session_id gs (rw miss at e))
]

-- With distinct ids, what holds of the first session of an id holds of all.
pub the_first :
    (Q : GameRow → Type 0) (type_id session_id : ℕ) (gs : List GameRow) (g : GameRow)
    → Distinct (game_ids gs)
    → first_row (is_session type_id session_id) gs ≡ some g
    → Q g
    → All (λ h. is_session type_id session_id h ≡ true → Q h) gs
unfolding game_ids first_row
the_first Q type_id session_id [] g d e q = tt
the_first Q type_id session_id (h ∷ gs) g d e q =
    elim (Bool-cases (is_session type_id session_id h)) [
      | inl hit ↦
          let same : h ≡ g = cc (rw hit at e) in
          let id : h.id ≡ session_id = ground (arith, hit) in
          (
            (λ k. subst Q (sym same) q),
            All-weaken _ _ gs (λ x none_there k. cc)
                (not_there type_id session_id gs (rw id at (d.0))),
          )
      | inr miss ↦ ((λ k. cc), the_first Q type_id session_id gs g d.1 (rw miss at e) q)
    ]
