-- ===== src/Storage/Effects.antt =====
-- server/dedicated-server/src/storage/mod.rs: who takes part after a participant left, how long a search
-- for an invitation is remembered, and who is logged in.
use scbl.Prelude.{
  ℕ, ◌+◌, ◌-◌, ◌==◌, leb, ◌≡◌, ◌⊎◌, refl, ap, ◌∙◌, Bool, true, false, not, ◌&&◌, List, [], ◌∷◌,
  Option, none, some, ok, Bool-cases, Option-cases, inl, inr, ok-injective, arith,
}
use scbl.Prelude.Maps.{mem}
use scbl.Storage.{
  Db, UserRow, is_session, joined, delete_participant, reconcile_with, reconcile_row,
  reconcile_game_session, participant_ids,
}
use scbl.Storage.Rows.{select, has_row, first_row, delete_rows}
use scbl.Storage.Attributes.{equal_text}
use scbl.Storage.Games.{leave_game_session}
use scbl.Storage.Users.{
  search_ttl, is_search, prune_manual_invitation_searches, note_manual_invitation_search,
  clear_manual_invitation_search, manual_invitation_search_is_active, login_user, login_row,
  login_with_row, checked, check_hash,
}
use scbl.Storage.Kept.{delete_participant-joined}

with_participants :
    (t s c : ℕ) (ids : List ℕ) (db : Db)
    → (reconcile_with t s c ids db).participants ≡ db.participants
unfolding reconcile_with
with_participants t s c [] db = refl
with_participants t s c (first ∷ ids) db = elim (Bool-cases (mem c (first ∷ ids))) [
  | inl there ↦ rw there refl
  | inr away ↦ rw away refl
]

reconcile-participants :
    (t s : ℕ) (db : Db) → (reconcile_game_session t s db).participants ≡ db.participants
unfolding reconcile_game_session reconcile_row
reconcile-participants t s db = elim (Option-cases (first_row (is_session t s) db.games)) [
  | inl missing ↦ rw missing refl
  | inr (g, found) ↦
      rw found (with_participants t s g.creator_id (participant_ids db.participants s) db)
]

-- Leaving an active session takes exactly the user who leaves out of exactly that session, and leaving
-- one that is not active takes nobody out of any.
pub leave_game_session-joined :
    (u t s : ℕ) (db : Db) (a b : ℕ)
    → joined (leave_game_session u t s db).participants a b ≡ (
        joined db.participants a b
        && not (has_row (is_session t s) db.games && ((s == a) && (u == b))))
unfolding leave_game_session
leave_game_session-joined u t s db a b = elim (Bool-cases (has_row (is_session t s) db.games)) [
  | inl active ↦
      let same = reconcile-participants t s (delete_participant s u db) in
      rw (active, same) (delete_participant-joined s u db a b)
  | inr gone ↦
      rw (gone, reconcile-participants t s db)
        (elim (Bool-cases (joined db.participants a b)) [ inl e ↦ rw e refl | inr e ↦ rw e refl ])
]

cleared :
    (receiver_id session_type instant : ℕ) (searches : List ((ℕ × ℕ) × ℕ))
    → has_row (is_search receiver_id session_type) (
        prune_manual_invitation_searches instant
          (delete_rows (is_search receiver_id session_type) searches))
      ≡ false
unfolding prune_manual_invitation_searches select delete_rows has_row
cleared receiver_id session_type instant [] = refl
cleared receiver_id session_type instant (x ∷ xs) =
    let ih = cleared receiver_id session_type instant xs in
    elim (Bool-cases (is_search receiver_id session_type x)) [
      | inl hit ↦ rw hit ih
      | inr miss ↦ elim (Bool-cases (leb (instant - x.1) search_ttl)) [
        | inl fresh ↦ rw (miss, fresh) (rw (miss, ih) refl)
        | inr stale ↦ rw (miss, stale) ih
      ]
    ]

abbrev pub later_by : ℕ → Db → Db
later_by d db = record db { instant = db.instant + d }

-- A search for an invitation that is noted is active for fifteen seconds from then on, and one that is
-- cleared is not active.
pub search_is_active-noted :
    (receiver_id session_type d : ℕ) (db : Db)
    → ((manual_invitation_search_is_active receiver_id session_type
          (later_by d (note_manual_invitation_search receiver_id session_type db))).1
        ≡ leb d search_ttl)
      × ((manual_invitation_search_is_active receiver_id session_type
            (later_by d (clear_manual_invitation_search receiver_id session_type db))).1
          ≡ false)
unfolding manual_invitation_search_is_active note_manual_invitation_search
    clear_manual_invitation_search prune_manual_invitation_searches select has_row
search_is_active-noted receiver_id session_type d db =
    let n = db.instant + d in
    let old =
      cleared receiver_id session_type n
        (prune_manual_invitation_searches db.instant db.manual_invitation_searches) in
    let span : n - db.instant ≡ d = omega arith in
    let e1 : (receiver_id == receiver_id) ≡ true = ground arith in
    let e2 : (session_type == session_type) ≡ true = ground arith in
    (
      elim (Bool-cases (leb d search_ttl)) [
        | inl fresh ↦ rw (span, fresh) (rw (e1, e2) refl)
        | inr stale ↦ rw (span, stale) old
      ],
      cleared receiver_id session_type n db.manual_invitation_searches,
    )

checked-right :
    (u : UserRow) (right : Bool) (db : Db) (r : Db × Option ℕ) (id : ℕ)
    → checked u right db ≡ ok r
    → r.1 ≡ some id
    → (id ≡ u.id) × (right ≡ true)
unfolding checked
checked-right u true db r id e found =
    let same : some u.id ≡ r.1 = ap (λ q. q.1) (ok-injective e) in (cc, refl)
checked-right u false db r id e found = let no : none ≡ r.1 = ap (λ q. q.1) (ok-injective e) in cc

row_right :
    (verify : List ℕ → List ℕ → Option Bool) (u : UserRow) (password : List ℕ)
    (stored hash : Option (List ℕ)) (db : Db) (r : Db × Option ℕ) (id : ℕ)
    → login_with_row verify u password stored hash db ≡ ok r
    → r.1 ≡ some id
    → (id ≡ u.id)
      × (((text : List ℕ) × (stored ≡ some text) × (equal_text text password ≡ true))
          ⊎ ((text : List ℕ) × (hash ≡ some text) × (verify text password ≡ some true)))
unfolding login_with_row check_hash
row_right verify u password none none db r id e found = cc
row_right verify u password (some text) (some other) db r id e found = cc
row_right verify u password (some text) none db r id e found =
    let (same, right) = checked-right u (equal_text text password) db r id e found in
    (same, inl (text, refl, right))
row_right verify u password none (some text) db r id e found =
    elim (Option-cases (verify text password)) [
      | inl bad ↦ cc (rw bad at e)
      | inr (answer, there) ↦
          let (same, right) = checked-right u answer db r id (rw there at e) found in
          (same, inr (text, refl, there ∙ ap some right))
    ]

-- The user who is logged in has the name and the password that were given: the one that is stored, or
-- one that the stored hash is verified with.
pub login_user-right :
    (verify : List ℕ → List ℕ → Option Bool) (username password : List ℕ) (db : Db)
    (r : Db × Option ℕ) (id : ℕ)
    → login_user verify username password db ≡ ok r
    → r.1 ≡ some id
    → (u : UserRow) × (first_row (λ v. equal_text v.username username) db.users ≡ some u)
      × (id ≡ u.id)
      × (((stored : List ℕ) × (u.password ≡ some stored) × (equal_text stored password ≡ true))
          ⊎ ((hash : List ℕ) × (u.password_hash ≡ some hash) × (verify hash password ≡ some true)))
unfolding login_user login_row
login_user-right verify username password db r id e found =
    elim (Option-cases (first_row (λ v. equal_text v.username username) db.users)) [
      | inl unknown ↦ let no : none ≡ r.1 = ap (λ q. q.1) (ok-injective (rw unknown at e)) in cc
      | inr (u, known) ↦
          let (same, right) =
            row_right verify u password u.password u.password_hash db r id (rw known at e) found in
          (u, known, same, right)
    ]
