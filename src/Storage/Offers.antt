-- ===== src/Storage/Offers.antt =====
-- The invitations that joining a session of server/dedicated-server/src/storage/mod.rs makes.
use scbl.Prelude.{
  ℕ, ◌==◌, ◌≡◌, refl, ap, subst, ◌∙◌, Bool, not, ◌&&◌, List, [], ◌∷◌, Option, none, some, ok, All,
  All-append, Bool-cases, inl, inr, ok-injective, >>=-eq-ok,
}
use scbl.Storage.{
  Db, Tx, InviteRow, PartyRow, joined, has_user, insert_participant, delete_parties, has_game,
}
use scbl.Storage.Rows.{delete_rows, has_row}
use scbl.Storage.Parties.{
  Offer, insert_invite, make_invite, queue_one, queue_all, queue_for, queue_party_follow_invites,
  followers, party_of, without_other_follows, follow_offer, is_follow, is_other_follow, set_member,
}
use scbl.Storage.Games.{follow_into, join_party}
use scbl.Storage.Grows.{if-ok}

-- The time stands still, and what holds of all invitations and of every new one that is not accepted
-- still holds of all.
pub record Offers (db db' : Db) : Type 1 where
  pub now : db.now ≡ db'.now
  pub keep :
      (P : InviteRow → Type 0)
      → ((i : InviteRow) → i.accepted_at ≡ none → P i)
      → All P db.invites
      → All P db'.invites

Offers-trans : {a b c : Db} → Offers a b → Offers b c → Offers a c
Offers-trans o q = record { now = o.now ∙ q.now; keep = λ P k h. q.keep P k (o.keep P k h) }

Offers-same : {db db' : Db} → db.now ≡ db'.now → db.invites ≡ db'.invites → Offers db db'
Offers-same n e = record { now = n; keep = λ P k h. subst (λ is. All P is) e h }

same-Offers :
    {A : Type 0} (db : Db) (a : A) (r : Db × A) → ◌≡◌ {A = Tx A} (ok (db, a)) (ok r) → Offers db r.0
same-Offers db a r e =
    Offers-same (ap (λ q. q.0.now) (ok-injective e)) (ap (λ q. q.0.invites) (ok-injective e))

delete_rows-All :
    {A : Type 0} (P : A → Type 0) (p : A → Bool) (xs : List A) → All P xs → All P (delete_rows p xs)
unfolding delete_rows
delete_rows-All P p [] h = tt
delete_rows-All P p (x ∷ xs) h = elim (Bool-cases (p x)) [
  | inl hit ↦ rw hit (delete_rows-All P p xs h.1)
  | inr miss ↦ rw miss (h.0, delete_rows-All P p xs h.1)
]

insert_invite-Offers :
    (o : Offer) (db : Db) (r : Db × ℕ) → insert_invite o db ≡ ok r → Offers db r.0
unfolding insert_invite
insert_invite-Offers o db r e =
    if-ok (has_user db o.sender && has_user db o.receiver) _ _ r
      (λ k. record {
        now = ap (λ q. q.0.now) (ok-injective k);
        keep = λ P fresh h.
            subst (λ is. All P is) (ap (λ q. q.0.invites) (ok-injective k))
              (All-append P db.invites _ h (fresh _ refl, tt));
      })
      (λ k. cc) e

make_invite-Offers : (o : Offer) (db : Db) (r : Db × ℕ) → make_invite o db ≡ ok r → Offers db r.0
unfolding make_invite
make_invite-Offers o db r e =
    let (m, e1, f1) = >>=-eq-ok (insert_invite o db) _ e in
    Offers-trans (insert_invite-Offers o db m e1) (same-Offers m.0 1 r f1)

without-Offers : (p t s u : ℕ) (db : Db) → Offers db (without_other_follows p t s u db)
unfolding without_other_follows
without-Offers p t s u db = record {
  now = refl;
  keep = λ P k h. delete_rows-All P (is_other_follow db.now p t s u) db.invites h;
}

queue_one-Offers :
    (l p t s u : ℕ) (db : Db) (r : Db × ℕ) → queue_one l p t s u db ≡ ok r → Offers db r.0
unfolding queue_one
queue_one-Offers l p t s u db r e =
    let db' = without_other_follows p t s u db in
    Offers-trans (without-Offers p t s u db) (
      if-ok (has_row (is_follow db.now p t s u) db'.invites) (ok (db', 0))
        (make_invite (follow_offer l p t s u) db') r (same-Offers db' 0 r)
        (make_invite-Offers (follow_offer l p t s u) db' r) e)

queue_all-Offers :
    (l p t s : ℕ) (us : List ℕ) (db : Db) (r : Db × ℕ)
    → queue_all l p t s us db ≡ ok r
    → Offers db r.0
unfolding queue_all
queue_all-Offers l p t s [] db r e = same-Offers db 0 r e
queue_all-Offers l p t s (u ∷ us) db r e =
    let (a, e1, f1) = >>=-eq-ok (queue_one l p t s u db) _ e in
    let (b, e2, f2) = >>=-eq-ok (queue_all l p t s us a.0) _ f1 in
    Offers-trans (queue_one-Offers l p t s u db a e1)
      (Offers-trans (queue_all-Offers l p t s us a.0 b e2) (same-Offers b.0 _ r f2))

queue_for-Offers :
    (l t s : ℕ) (party : Option PartyRow) (db : Db) (r : Db × ℕ)
    → queue_for l t s party db ≡ ok r
    → Offers db r.0
unfolding queue_for
queue_for-Offers l t s none db r e = same-Offers db 0 r e
queue_for-Offers l t s (some party) db r e =
    if-ok (joined db.participants s l) _ _ r
      (queue_all-Offers l party.id t s (followers db party.id l) db r) (same-Offers db 0 r) e

pub follow_into-Offers :
    (b : Bool) (u t s : ℕ) (db : Db) (r : Db × ℕ) → follow_into b u t s db ≡ ok r → Offers db r.0
unfolding follow_into queue_party_follow_invites
follow_into-Offers b u t s db r e =
    if-ok b _ _ r (queue_for-Offers u t s (party_of db u) db r) (same-Offers db 0 r) e

pub insert_participant-now :
    (g u : ℕ) (db db' : Db) → insert_participant g u db ≡ ok db' → db.now ≡ db'.now
unfolding insert_participant
insert_participant-now g u db db' e =
    if-ok (joined db.participants g u) (ok db) _ db' (λ k. ap (λ (q : Db). q.now) (ok-injective k))
      (λ k.
        if-ok (has_game db g && has_user db u) _ _ db'
          (λ k1. ap (λ (q : Db). q.now) (ok-injective k1)) (λ k1. cc) k)
      e

pub join_party-now :
    (u : ℕ) (p : Option ℕ) (db db' : Db) → join_party u p db ≡ ok db' → db.now ≡ db'.now
unfolding join_party set_member delete_parties
join_party-now u none db db' e = ap (λ (q : Db). q.now) (ok-injective e)
join_party-now u (some p) db db' e =
    let db1 = delete_parties (λ party. (party.leader_id == u) && not (party.id == p)) db in
    if-ok (has_user db1 u && has_row (λ party. party.id == p) db1.parties) _ _ db'
      (λ k. ap (λ (q : Db). q.now) (ok-injective k)) (λ k. cc) e
