-- ===== src/Storage/Invited.antt =====
-- What server/dedicated-server/src/storage/mod.rs finds for an accepted invitation.
use scbl.Prelude.{
  ℕ, ◌==◌, ◌<◌, ◌⊎◌, ◌||◌, ◌≡◌, refl, sym, ap, ap₂, subst, Bool, true, false, ◌&&◌, List, [], ◌∷◌,
  Option, none, some, All, Bool-cases, Option-cases, inl, inr, arith,
}
use scbl.GameSession.{InvitedGameSession}
use scbl.Storage.{Db, GameRow, InviteRow, is_null, joined, has_url}
use scbl.Storage.Rows.{select, has_row, first_row, first_row-holds}
use scbl.Storage.Parties.{is_live}
use scbl.Storage.Games.{newest, newer, is_newer}
use scbl.Storage.Invites.{is_manual, is_target}
use scbl.Storage.Accepted.{
  is_accepted, invited_session, target_session, session_of_invite, find_accepted_invited_session,
}

-- A row is one of a table.
abbrev pub OneOf : {A : Type 0} → A → List A → Type 0
OneOf x [] = ⊥
OneOf x (y ∷ ys) = (x ≡ y) ⊎ OneOf x ys

-- What an invitation leads to: the game with its id and its type, which was not destroyed and whose
-- host is among its participants and has a station URL. The host is who sent the invitation, which is of
-- the kind 1, 2 or 4, or the kind is 3, a party that follows, and who sent it is among the participants.
pub record IsTarget (db : Db) (i : InviteRow) (g : GameRow) : Type 0 where
  pub among : OneOf g db.games
  pub id : g.id ≡ i.session_id
  pub type : g.type_id ≡ i.session_type
  pub active : g.destroyed_at ≡ none
  pub hosted : OneOf (g.id, g.creator_id) db.participants
  pub url : List ℕ
  pub reachable : OneOf (g.creator_id, url) db.station_urls
  pub from_sender :
      (((i.kind ≡ 1) ⊎ (i.kind ≡ 2) ⊎ (i.kind ≡ 4)) × (g.creator_id ≡ i.sender))
      ⊎ ((i.kind ≡ 3) × OneOf (g.id, i.sender) db.participants)

-- The session is that of an invitation in the table, which its receiver has accepted, which is not
-- used up and has not expired.
pub record IsInvited (db : Db) (receiver session_type : ℕ) (s : InvitedGameSession) : Type 1 where
  pub invite : InviteRow
  pub game : GameRow
  pub in_table : (P : InviteRow → Type 0) → All P db.invites → P invite
  pub received : invite.receiver ≡ receiver
  pub typed : invite.session_type ≡ session_type
  pub accepted_when : ℕ
  pub accepted : invite.accepted_at ≡ some accepted_when
  pub unused : invite.consumed_at ≡ none
  pub unexpired : db.now < invite.expires_at
  pub target : IsTarget db invite game
  pub session_id : s.session.session_id ≡ game.id
  pub session_of :
      (s.session.session_type ≡ game.type_id) × (s.session.creator_id ≡ game.creator_id)
  pub invite_of : (s.invite_id ≡ invite.rowid) × (s.sender_id ≡ invite.sender)

module _ {A : Type 0} where
  has_row-OneOf :
      (p : A → Bool) (xs : List A) → has_row p xs ≡ true → (x : A) × OneOf x xs × (p x ≡ true)
  unfolding has_row
  has_row-OneOf p [] e = cc
  has_row-OneOf p (x ∷ xs) e = elim (Bool-cases (p x)) [
    | inl hit ↦ (x, inl refl, hit)
    | inr miss ↦ let (y, there, holds) = has_row-OneOf p xs (rw miss at e) in (y, inr there, holds)
  ]

  first_row-OneOf : (p : A → Bool) (xs : List A) (x : A) → first_row p xs ≡ some x → OneOf x xs
  unfolding first_row
  first_row-OneOf p [] x e = cc
  first_row-OneOf p (y ∷ xs) x e = elim (Bool-cases (p y)) [
    | inl hit ↦ inl (cc (rw hit at e))
    | inr miss ↦ inr (first_row-OneOf p xs x (rw miss at e))
  ]

joined-OneOf :
    (participants : List (ℕ × ℕ)) (game_id user_id : ℕ)
    → joined participants game_id user_id ≡ true
    → OneOf (game_id, user_id) participants
unfolding joined
joined-OneOf participants game_id user_id e =
    let (p, there, holds) = has_row-OneOf (λ q. (q.0 == game_id) && (q.1 == user_id)) _ e in
    let game : p.0 ≡ game_id = ground (arith, holds) in
    let user : p.1 ≡ user_id = ground (arith, holds) in
    subst (λ (q : ℕ × ℕ). OneOf q participants) (ap₂ (λ g u. (g, u)) game user) there

has_url-OneOf :
    (db : Db) (user_id : ℕ)
    → has_url db user_id ≡ true
    → (url : List ℕ) × OneOf (user_id, url) db.station_urls
unfolding has_url
has_url-OneOf db user_id e =
    let (u, there, holds) = has_row-OneOf (λ v. v.0 == user_id) db.station_urls e in
    let user : u.0 ≡ user_id = ground (arith, holds) in
    (u.1, subst (λ (k : ℕ). OneOf (k, u.1) db.station_urls) user there)

null_none : (t : Option ℕ) → is_null t ≡ true → t ≡ none
unfolding is_null
null_none none e = refl
null_none (some t) e = cc

null_some : (t : Option ℕ) → is_null t ≡ false → (n : ℕ) × (t ≡ some n)
unfolding is_null
null_some none e = cc
null_some (some t) e = (t, refl)

sender_found :
    (db : Db) (i : InviteRow) (g : GameRow)
    → ((is_manual i.kind && (g.creator_id == i.sender))
        || ((i.kind == 3) && joined db.participants g.id i.sender))
      ≡ true
    → (((i.kind ≡ 1) ⊎ (i.kind ≡ 2) ⊎ (i.kind ≡ 4)) × (g.creator_id ≡ i.sender))
      ⊎ ((i.kind ≡ 3) × OneOf (g.id, i.sender) db.participants)
unfolding is_manual
sender_found db i g e = elim (Bool-cases (is_manual i.kind && (g.creator_id == i.sender))) [
  | inl own ↦ inl (
    elim (Bool-cases (i.kind == 1)) [
      | inl one ↦ inl (ground (arith, one))
      | inr not_one ↦ inr (elim (Bool-cases (i.kind == 2)) [
        | inl two ↦ inl (ground (arith, two))
        | inr not_two ↦ inr (ground (arith, own, not_one, not_two))
      ])
    ],
    ground (arith, own),
  )
  | inr other ↦
      let follows : (i.kind == 3) ≡ true = ground (arith, e, other) in
      let there : joined db.participants g.id i.sender ≡ true = ground (arith, e, other) in
      inr (ground (arith, follows), joined-OneOf db.participants g.id i.sender there)
]

is_target-IsTarget :
    (db : Db) (i : InviteRow) (g : GameRow)
    → OneOf g db.games
    → is_target db i g ≡ true
    → IsTarget db i g
unfolding is_target
is_target-IsTarget db i g there e =
    let host : joined db.participants g.id g.creator_id ≡ true = ground (arith, e) in
    let reach : has_url db g.creator_id ≡ true = ground (arith, e) in
    let (link, held) = has_url-OneOf db g.creator_id reach in
    record {
      among = there;
      id = ground (arith, e);
      type = ground (arith, e);
      active = null_none g.destroyed_at (ground (arith, e));
      hosted = joined-OneOf db.participants g.id g.creator_id host;
      url = link;
      reachable = held;
      from_sender = sender_found db i g (ground (arith, e));
    }

pub newest-All :
    (P : InviteRow → Type 0) (is : List InviteRow) (i : InviteRow)
    → newest is ≡ some i
    → All P is
    → P i
unfolding newest newer
newest-All P [] i e h = cc
newest-All P (j ∷ is) i e h = elim (Option-cases (newest is)) [
  | inl empty ↦ let same : j ≡ i = cc (rw empty at e) in subst P same h.0
  | inr (k, there) ↦
      let e1 = rw there at e in
      elim (Bool-cases (is_newer j k)) [
        | inl first ↦ let same : j ≡ i = cc (rw first at e1) in subst P same h.0
        | inr later ↦
            let same : k ≡ i = cc (rw later at e1) in subst P same (newest-All P is k there h.1)
      ]
]

-- A row of the selection is a row of the table, and satisfies the condition.
pub select-All :
    (P : InviteRow → Type 0) (p : InviteRow → Bool) (is : List InviteRow)
    → All P is
    → All (λ i. P i × (p i ≡ true)) (select p is)
unfolding select
select-All P p [] h = tt
select-All P p (i ∷ is) h = elim (Bool-cases (p i)) [
  | inl hit ↦ rw hit ((h.0, hit), select-All P p is h.1)
  | inr miss ↦ rw miss (select-All P p is h.1)
]

All-true : {A : Type 0} (xs : List A) → All (λ x. Unit {0}) xs
All-true [] = tt
All-true (x ∷ xs) = (tt, All-true xs)

-- What is found for an accepted invitation is the session of one in the table that the receiver
-- accepted, not used up, not expired and of that type, and of a game that was not destroyed, whose host
-- is in it and has a station URL; the host is who sent the invitation, unless its kind is that of a
-- party that follows, where the sender is in the session.
pub find_accepted_invited_session-IsInvited :
    (receiver session_type : ℕ) (manual_only : Bool) (db : Db) (s : InvitedGameSession)
    → find_accepted_invited_session receiver session_type manual_only db ≡ some s
    → IsInvited db receiver session_type s
unfolding find_accepted_invited_session session_of_invite target_session is_accepted invited_session
    is_live
find_accepted_invited_session-IsInvited receiver session_type manual_only db s e =
    let p = is_accepted db receiver session_type manual_only in
    elim (Option-cases (newest (select p db.invites))) [
      | inl nothing ↦ cc (rw nothing at e)
      | inr (i, there) ↦
          let e1 = rw there at e in
          let ok_row =
            newest-All (λ j. Unit {0} × (p j ≡ true)) (select p db.invites) i there
              (select-All (λ j. Unit {0}) p db.invites (All-true db.invites)) in
          let holds = ok_row.1 in
          let (when, was_accepted) = null_some i.accepted_at (ground (arith, holds)) in
          elim (Option-cases (first_row (is_target db i) db.games)) [
            | inl no_game ↦ cc (rw no_game at e1)
            | inr (g, found) ↦
                let same : invited_session db i g ≡ s = cc (rw found at e1) in
                record {
                  invite = i;
                  game = g;
                  in_table = λ P h.
                      (newest-All (λ j. P j × (p j ≡ true)) (select p db.invites) i there
                        (select-All P p db.invites h)).0;
                  received = ground (arith, holds);
                  typed = ground (arith, holds);
                  accepted_when = when;
                  accepted = was_accepted;
                  unused = null_none i.consumed_at (ground (arith, holds));
                  unexpired = ground (arith, holds);
                  target =
                      is_target-IsTarget db i g (first_row-OneOf (is_target db i) db.games g found)
                        (first_row-holds (is_target db i) db.games g found);
                  session_id = ap (λ (q : InvitedGameSession). q.session.session_id) (sym same);
                  session_of = (
                    ap (λ (q : InvitedGameSession). q.session.session_type) (sym same),
                    ap (λ (q : InvitedGameSession). q.session.creator_id) (sym same),
                  );
                  invite_of = (
                    ap (λ (q : InvitedGameSession). q.invite_id) (sym same),
                    ap (λ (q : InvitedGameSession). q.sender_id) (sym same),
                  );
                }
          ]
    ]
