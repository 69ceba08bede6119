-- ===== src/Storage/Joined.antt =====
-- Joining a game session of server/dedicated-server/src/storage/mod.rs by an invitation.
use scbl.Prelude.{
  ℕ, ◌<◌, ◌≡◌, sym, ap, subst, ◌∙◌, Bool, true, false, List, [], ◌∷◌, Option, none, some, ok, All,
  Bool-cases, inl, inr, ok-injective, >>=-eq-ok, arith,
}
use scbl.GameSession.{InvitedGameSession}
use scbl.Storage.{Db, GameRow, InviteRow, is_null, is_session, insert_participant}
use scbl.Storage.Rows.{select, first_row, update_rows}
use scbl.Storage.Attributes.{is_game_room_attributes}
use scbl.Storage.Games.{
  newest, consume, is_accepted_for, follow_into, join_party, join_row, join_game_session_unbounded,
  invited_party, is_lobby_invite,
}
use scbl.Storage.Accepted.{find_accepted_invited_session}
use scbl.Storage.Invited.{find_accepted_invited_session-IsInvited}
use scbl.Storage.Offers.{follow_into-Offers, insert_participant-now, join_party-now}

-- No accepted and live invitation of the user to the session.
abbrev NoneLeft : ℕ → ℕ → ℕ → ℕ → Db → Type 0
NoneLeft now u t s db = All (λ i. is_accepted_for now u t s i ≡ false) db.invites

consumed :
    (now u t s : ℕ) (is : List InviteRow)
    → All
        (λ i. is_accepted_for now u t s i ≡ false)
        (update_rows (is_accepted_for now u t s) (consume now) is)
unfolding update_rows consume is_accepted_for is_null
consumed now u t s [] = tt
consumed now u t s (i ∷ is) = elim (Bool-cases (is_accepted_for now u t s i)) [
  | inl hit ↦ rw hit (ground arith, consumed now u t s is)
  | inr miss ↦ rw miss (miss, consumed now u t s is)
]

join_row-NoneLeft :
    (u t s : ℕ) (g : GameRow) (db : Db) (r : Db × Bool)
    → join_row u t s (some g) db ≡ ok r
    → NoneLeft db.now u t s r.0 × (db.now ≡ r.0.now)
unfolding join_row is_accepted_for is_null
join_row-NoneLeft u t s g db r e =
    let (db1, e1, f1) = >>=-eq-ok (insert_participant s u db) _ e in
    let party = invited_party (newest (select (is_lobby_invite db.now u t s) db1.invites)) in
    let (db2, e2, f2) = >>=-eq-ok (join_party u party db1) _ f1 in
    let db3 : Db = record db2 {
      invites = update_rows (is_accepted_for db.now u t s) (consume db.now) db2.invites;
    } in
    let (a, e3, f3) =
      >>=-eq-ok (follow_into (is_game_room_attributes g.attributes) u t s db3) _ f2 in
    let offers = follow_into-Offers (is_game_room_attributes g.attributes) u t s db3 a e3 in
    let after =
      offers.keep (λ i. is_accepted_for db.now u t s i ≡ false)
        (λ i fresh.
          let unaccepted : is_null i.accepted_at ≡ true = ap is_null fresh in
          ground (arith, unaccepted))
        (consumed db.now u t s db2.invites) in
    let same = ap (λ q. q.0) (ok-injective f3) in
    (
      subst (λ (q : Db). NoneLeft db.now u t s q) same after,
      insert_participant-now s u db db1 e1
          ∙ join_party-now u party db1 db2 e2
          ∙ offers.now
          ∙ ap (λ (q : Db). q.now) same,
    )

row_used :
    (u t s : ℕ) (manual_only : Bool) (g : Option GameRow) (db : Db) (r : Db × Bool)
    (found : InvitedGameSession)
    → join_row u t s g db ≡ ok r
    → r.1 ≡ true
    → find_accepted_invited_session u t manual_only r.0 ≡ some found
    → ¬ (found.session.session_id ≡ s)
unfolding join_row is_accepted_for is_null
row_used u t s manual_only none db r found e success there same =
    let no : false ≡ r.1 = ap (λ q. q.1) (ok-injective e) in cc
row_used u t s manual_only (some g) db r found e success there same =
    let (left, time) = join_row-NoneLeft u t s g db r e in
    let i = find_accepted_invited_session-IsInvited u t manual_only r.0 found there in
    let gone = i.in_table (λ j. is_accepted_for db.now u t s j ≡ false) left in
    let exact : i.invite.session_id ≡ s = sym i.target.id ∙ sym i.session_id ∙ same in
    let unused : is_null i.invite.consumed_at ≡ true = ap is_null i.unused in
    let accepted : is_null i.invite.accepted_at ≡ false = ap is_null i.accepted in
    let unexpired : db.now < i.invite.expires_at =
      subst (λ n. n < i.invite.expires_at) (sym time) i.unexpired in
    let received = i.received in
    let typed = i.typed in ground (arith, gone, exact, unused, unexpired, received, typed, accepted)

-- Who joins a session by an invitation has used it up: no search for accepted invitations leads to that
-- session any more, at the same time, until there is another one.
pub join-uses_up :
    (u t s : ℕ) (manual_only : Bool) (db : Db) (r : Db × Bool) (found : InvitedGameSession)
    → join_game_session_unbounded u t s db ≡ ok r
    → r.1 ≡ true
    → find_accepted_invited_session u t manual_only r.0 ≡ some found
    → ¬ (found.session.session_id ≡ s)
unfolding join_game_session_unbounded
join-uses_up u t s manual_only db r found e success there same =
    row_used u t s manual_only (first_row (is_session t s) db.games) db r found e success there same
