-- ===== src/Storage/Taken.antt =====
-- How server/dedicated-server/src/storage/mod.rs repeats the delivery of an invitation.
use scbl.Prelude.{
  ℕ, ◌+◌, ◌<◌, ◌≡◌, ◌&&◌, ◌==◌, refl, sym, ap, Bool, true, false, List, [], ◌∷◌, Option, none, some,
  Option-cases, All, Bool-cases, inl, inr, arith,
}
use scbl.Storage.{Db, InviteRow}
use scbl.Storage.Rows.{select, delete_rows, update_rows, All-update_rows}
use scbl.Storage.Games.{newest, consume}
use scbl.Storage.Invites.{is_invalid, cleanup_invalid_invites}
use scbl.Storage.Delivery.{
  Invite, waited, is_due, deliver, invite_of, deliver_row, is_redundant, suppress_redundant,
  take_invite,
}
use scbl.Storage.Invited.{newest-All, select-All}

-- `d` seconds later.
abbrev pub seconds_later : ℕ → Db → Db
seconds_later d db = record db { now = db.now + d }

-- The row is another one, or has not waited for three seconds at `now`.
abbrev Waits : ℕ → ℕ → InviteRow → Type 0
Waits now id i = ((i.rowid == id) && waited now 3 i.delivered_at) ≡ false

All-delete_rows :
    (P : InviteRow → Type 0) (p : InviteRow → Bool) (is : List InviteRow)
    → All P is
    → All P (delete_rows p is)
unfolding delete_rows
All-delete_rows P p [] h = tt
All-delete_rows P p (i ∷ is) h = elim (Bool-cases (p i)) [
  | inl hit ↦ rw hit (All-delete_rows P p is h.1)
  | inr miss ↦ rw miss (h.0, All-delete_rows P p is h.1)
]

-- What is delivered at `now` waits until three seconds later.
delivered-Waits :
    (now d id : ℕ) (is : List InviteRow)
    → d < 3
    → All (Waits (now + d) id) (update_rows (λ j. j.rowid == id) (deliver now) is)
unfolding update_rows deliver waited
delivered-Waits now d id [] h = tt
delivered-Waits now d id (i ∷ is) h = elim (Bool-cases (i.rowid == id)) [
  | inl hit ↦ rw hit (ground arith, delivered-Waits now d id is h)
  | inr miss ↦ rw miss (ground (arith, miss), delivered-Waits now d id is h)
]

deliver_row-Waits :
    (d : ℕ) (i : Option InviteRow) (db : Db) (v : Invite)
    → d < 3
    → (deliver_row i db).1 ≡ some v
    → All (Waits (db.now + d) v.id) (deliver_row i db).0.invites
      × (db.now ≡ (deliver_row i db).0.now)
unfolding deliver_row invite_of deliver
deliver_row-Waits d none db v h e = cc
deliver_row-Waits d (some i) db v h e =
    let same : invite_of (deliver db.now i) ≡ v = cc in
    let id : i.rowid ≡ v.id = ap (λ (q : Invite). q.id) same in
    rw (sym id) (delivered-Waits db.now d i.rowid db.invites h, refl)

-- Nothing that waits is delivered.
waiting :
    (u id : ℕ) (db : Db) (w : Invite)
    → All (Waits db.now id) db.invites
    → (take_invite u db).1 ≡ some w
    → ¬ (w.id ≡ id)
unfolding take_invite suppress_redundant cleanup_invalid_invites consume deliver_row is_due
    invite_of deliver
waiting u id db w h e same =
    let clean = cleanup_invalid_invites db in
    let rest = update_rows (is_redundant clean u) (consume db.now) clean.invites in
    let kept =
      All-update_rows (Waits db.now id) (Waits db.now id) (is_redundant clean u) (consume db.now)
        clean.invites (λ i hit k. k) (λ i miss k. k)
        (All-delete_rows (Waits db.now id) (is_invalid db) db.invites h) in
    let due = is_due db.now u in
    elim (Option-cases (newest (select due rest))) [
      | inl nothing ↦ cc (rw nothing at e)
      | inr (i, there) ↦
          let both =
            newest-All (λ j. Waits db.now id j × (due j ≡ true)) (select due rest) i there
              (select-All (Waits db.now id) due rest kept) in
          let waits = both.0 in
          let ripe = both.1 in
          let e1 = rw there at e in
          let same_row : invite_of (deliver db.now i) ≡ w = cc in
          let id' : i.rowid ≡ w.id = ap (λ (q : Invite). q.id) same_row in
          ground (arith, waits, ripe, id', same)
    ]

-- An invitation that was delivered is not delivered again, whoever asks, until three seconds later.
pub take_invite-waits :
    (u u' d : ℕ) (db : Db) (v w : Invite)
    → (take_invite u db).1 ≡ some v
    → d < 3
    → (take_invite u' (seconds_later d (take_invite u db).0)).1 ≡ some w
    → ¬ (w.id ≡ v.id)
unfolding take_invite
take_invite-waits u u' d db v w e h e' =
    let db1 = suppress_redundant u (cleanup_invalid_invites db) in
    let i = newest (select (is_due db1.now u) db1.invites) in
    let (waits, time) = deliver_row-Waits d i db1 v h e in
    waiting u' v.id (seconds_later d (deliver_row i db1).0) w (rw (sym time) waits) e'
