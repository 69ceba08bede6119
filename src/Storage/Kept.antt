-- ===== src/Storage/Kept.antt =====
-- The calls of server/dedicated-server/src/storage/mod.rs that change the game sessions, each with what
-- it does to the invariant of the hosts.
use scbl.Prelude.{
  ℕ, ◌==◌, ◌≡◌, refl, sym, subst, Bool, true, false, not, ◌&&◌, ◌||◌, List, [], ◌∷◌, All,
  Bool-cases, inl, inr, arith,
}
use scbl.Prelude.Maps.{mem, Distinct}
use scbl.Storage.{
  without_participant, Db, GameRow, is_active, is_session, joined, delete_participant,
  without_participant, leave_party, leaves_lobby, delete_parties,
}
use scbl.Storage.Rows.{has_row, update_rows, All-update_rows, All-weaken, All-zip}
use scbl.Storage.Games.{game_ids}
use scbl.Storage.Hosted.{
  IsHosted, IsHostedBut, IsCovered, listed, joined-delete_rows, Distinct-update_rows,
}

-- An update of rows, where the ids stay and each row that changes is covered.
pub updated-IsHostedBut :
    (ss : List (ℕ × ℕ)) (p : GameRow → Bool) (f : GameRow → GameRow) (db : Db)
    → ((g : GameRow) → (f g).id ≡ g.id)
    → ((g : GameRow)
        → p g ≡ true
        → IsCovered ss db.participants g
        → IsCovered ss db.participants (f g))
    → IsHostedBut ss db
    → IsHostedBut ss (record db { games = update_rows p f db.games })
updated-IsHostedBut ss p f db same hit h = record {
  distinct = subst Distinct (sym (Distinct-update_rows p f db.games same)) h.distinct;
  hosted =
      All-update_rows (IsCovered ss db.participants) (IsCovered ss db.participants) p f db.games hit
        (λ x miss c. c) h.hosted;
}

-- A session that is named need not be covered.
pub named : (ss : List (ℕ × ℕ)) (db : Db) → IsHosted db → IsHostedBut ss db
unfolding listed has_row
named ss db h = record {
  distinct = h.distinct;
  hosted =
      All-weaken (IsCovered [] db.participants) (IsCovered ss db.participants) db.games
        (λ g c active. let held = c active in ground (arith, held)) h.hosted;
}

pub delete_participant-games : (g u : ℕ) (db : Db) → (delete_participant g u db).games ≡ db.games
unfolding delete_participant without_participant leave_party delete_parties
delete_participant-games g u db = elim (Bool-cases (joined db.participants g u)) [
  | inl there ↦ elim (Bool-cases (leaves_lobby (without_participant g u db) g u)) [
    | inl leaves ↦ rw (there, leaves) refl
    | inr stays ↦ rw (there, stays) refl
  ]
  | inr away ↦ rw away refl
]

pub delete_participant-joined :
    (g u : ℕ) (db : Db) (a b : ℕ)
    → joined (delete_participant g u db).participants a b
      ≡ (joined db.participants a b && not ((g == a) && (u == b)))
unfolding delete_participant without_participant leave_party delete_parties
delete_participant-joined g u db a b = elim (Bool-cases (joined db.participants g u)) [
  | inl there ↦ elim (Bool-cases (leaves_lobby (without_participant g u db) g u)) [
    | inl leaves ↦ rw (there, leaves) (joined-delete_rows db.participants g u a b)
    | inr stays ↦ rw (there, stays) (joined-delete_rows db.participants g u a b)
  ]
  | inr away ↦ elim (Bool-cases ((g == a) && (u == b))) [
    | inl same ↦
        let one : g ≡ a = ground (arith, same) in
        let other : u ≡ b = ground (arith, same) in
        let none_there : joined db.participants a b ≡ false = rw⁻¹ (one, other) away in
        rw (away, none_there) refl
    | inr apart ↦ rw (away, apart) (ground arith)
  ]
]

or_true : (b : Bool) → (b || true) ≡ true
or_true true = refl
or_true false = refl

-- A participant leaves: a session of which it was the host must be in the list.
pub deleted-IsHostedBut :
    (ss : List (ℕ × ℕ)) (g u : ℕ) (db : Db)
    → All
        (λ x. is_active x ≡ true → ((g == x.id) && (u == x.creator_id)) ≡ true → listed ss x ≡ true)
        db.games
    → IsHostedBut ss db
    → IsHostedBut ss (delete_participant g u db)
deleted-IsHostedBut ss g u db own h =
    let same = delete_participant-games g u db in
    let left =
      All-zip _ (IsCovered ss db.participants)
        (IsCovered ss (delete_participant g u db).participants) db.games
        (λ x hosts c active.
          rw (delete_participant-joined g u db x.id x.creator_id)
            (elim (Bool-cases ((g == x.id) && (u == x.creator_id))) [
              | inl host ↦ rw (hosts active host) (or_true _)
              | inr guest ↦ rw guest (elim (Bool-cases (joined db.participants x.id x.creator_id)) [
                | inl e ↦ rw e refl
                | inr e ↦ rw e (rw e at (c active))
              ])
            ]))
        own h.hosted in
    record {
      distinct = subst (λ gs. Distinct (game_ids gs)) (sym same) h.distinct;
      hosted =
          subst (λ gs. All (IsCovered ss (delete_participant g u db).participants) gs) (sym same)
            left;
    }

others :
    (t s : ℕ) (gs : List GameRow)
    → mem s (game_ids gs) ≡ false
    → All (λ x. x.id ≡ s → x.type_id ≡ t) gs × (has_row (is_session t s) gs ≡ false)
unfolding game_ids has_row
others t s [] e = (tt, refl)
others t s (g ∷ gs) e = elim (Bool-cases (g.id == s)) [
  | inl hit ↦ cc (rw hit at e)
  | inr miss ↦
      let (rest, none_there) = others t s gs (rw miss at e) in
      (((λ k. absurd (ground (arith, miss, k))), rest), rw (miss, none_there) refl)
]

-- With distinct ids, a session that is there has the type that it is found with.
pub type_of_session :
    (t s : ℕ) (gs : List GameRow)
    → Distinct (game_ids gs)
    → has_row (is_session t s) gs ≡ true
    → All (λ x. x.id ≡ s → x.type_id ≡ t) gs
unfolding game_ids has_row
type_of_session t s [] d e = tt
type_of_session t s (g ∷ gs) d e = elim (Bool-cases (is_session t s g)) [
  | inl hit ↦
      let id : g.id ≡ s = ground (arith, hit) in
      let type : g.type_id ≡ t = ground (arith, hit) in
      ((λ k. type), (others t s gs (rw id at (d.0))).0)
  | inr miss ↦
      let later = rw miss at e in
      (
        (λ k. let away = (others t s gs (rw k at (d.0))).1 in absurd (cc)),
        type_of_session t s gs d.1 later,
      )
]
