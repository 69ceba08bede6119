-- ===== src/Storage/Grows.antt =====
-- The calls of server/dedicated-server/src/storage/mod.rs that leave the game sessions and only add
-- participants.
use scbl.Prelude.{
  ℕ, ◌==◌, ◌≡◌, refl, ap, subst, ◌∙◌, Bool, true, false, ◌&&◌, List, [], ◌∷◌, Option, none, some,
  Outcome, ok, All, Bool-cases, inl, inr, if◌then◌else◌, ok-injective, >>=-eq-ok, arith,
}
use scbl.Storage.{
  Db, Tx, GameRow, PartyRow, DbError, joined, insert_participant, insert_participants, has_game,
  has_user, delete_parties,
}
use scbl.Storage.Rows.{has_row, select}
use scbl.Storage.Parties.{
  set_member, found_party, ensure_party_for_leader, party_of, Offer, insert_invite, make_invite,
  without_other_follows, is_follow, follow_offer, queue_one, queue_all, queue_for,
  queue_party_follow_invites, followers,
}
use scbl.Storage.Games.{
  follow_into, join_party, add_private, add_one_private, is_deferred, last_row, is_private_invite,
}
use scbl.Storage.Lobby.{restore_one, close_restores, restore_offer, restore_all, restore_to}
use scbl.Storage.Hosted.{IsHostedBut, IsCovered, covered_more, joined-append}

-- The same sessions, and every participant that there was.
pub record Grows (db db' : Db) : Type 0 where
  pub games : db.games ≡ db'.games
  pub more : (a b : ℕ) → joined db.participants a b ≡ true → joined db'.participants a b ≡ true

pub Grows-IsHostedBut :
    (ss : List (ℕ × ℕ)) (db db' : Db) → Grows db db' → IsHostedBut ss db → IsHostedBut ss db'
Grows-IsHostedBut ss db db' g h =
    let all = covered_more ss db.participants db'.participants db.games g.more h.hosted in
    record {
      distinct = rw⁻¹ (g.games) h.distinct;
      hosted = subst (λ gs. All (IsCovered ss db'.participants) gs) g.games all;
    }

pub Grows-trans : {a b c : Db} → Grows a b → Grows b c → Grows a c
Grows-trans g h = record { games = g.games ∙ h.games; more = λ x y e. h.more x y (g.more x y e) }

-- Where neither table changes.
pub Grows-same :
    {db db' : Db} → db.games ≡ db'.games → db.participants ≡ db'.participants → Grows db db'
Grows-same g p = record { games = g; more = λ a b e. subst (λ ps. joined ps a b ≡ true) p e }

-- A test of which each branch that succeeds has the property.
pub if-ok {ℓ} :
    {A : Type 0} {C : Type ℓ} (b : Bool) (o p : Outcome DbError A) (a : A)
    → (o ≡ ok a → C)
    → (p ≡ ok a → C)
    → (if b then o else p) ≡ ok a
    → C
if-ok true o p a f g e = f e
if-ok false o p a f g e = g e

same_ok :
    {A : Type 0} (db : Db) (a : A) (r : Db × A) → ◌≡◌ {A = Tx A} (ok (db, a)) (ok r) → Grows db r.0
same_ok db a r e =
    Grows-same (ap (λ q. q.0.games) (ok-injective e)) (ap (λ q. q.0.participants) (ok-injective e))

pub insert_participant-Grows :
    (g u : ℕ) (db db' : Db)
    → insert_participant g u db ≡ ok db'
    → Grows db db' × (joined db'.participants g u ≡ true)
unfolding insert_participant
insert_participant-Grows g u db db' e = elim (Bool-cases (joined db.participants g u)) [
  | inl there ↦
      let same : db ≡ db' = ok-injective (rw there at e) in
      (
        Grows-same (ap (λ (q : Db). q.games) same) (ap (λ (q : Db). q.participants) same),
        rw⁻¹ same there,
      )
  | inr away ↦
      if-ok (has_game db g && has_user db u) _ _ db'
        (λ e1.
          let games = ap (λ (q : Db). q.games) (ok-injective e1) in
          let rows = ap (λ (q : Db). q.participants) (ok-injective e1) in
          (
            record {
              games = games;
              more = λ a b h.
                  subst (λ ps. joined ps a b ≡ true) rows
                    (joined-append db.participants g u a b ∙ rw h refl);
            },
            subst (λ ps. joined ps g u ≡ true) rows
                (joined-append db.participants g u g u ∙ rw away (ground arith)),
          ))
        (λ e1. cc) (rw away at e)
]

pub insert_participants-Grows :
    (g : ℕ) (us : List ℕ) (db db' : Db) → insert_participants g us db ≡ ok db' → Grows db db'
unfolding insert_participants
insert_participants-Grows g [] db db' e =
    Grows-same (ap (λ (q : Db). q.games) (ok-injective e))
      (ap (λ (q : Db). q.participants) (ok-injective e))
insert_participants-Grows g (u ∷ us) db db' e =
    let (db1, e1, f1) = >>=-eq-ok (insert_participant g u db) _ e in
    Grows-trans (insert_participant-Grows g u db db1 e1).0
      (insert_participants-Grows g us db1 db' f1)

db_same : (db db' : Db) → ◌≡◌ {A = Outcome DbError Db} (ok db) (ok db') → Grows db db'
db_same db db' e =
    Grows-same (ap (λ (q : Db). q.games) (ok-injective e))
      (ap (λ (q : Db). q.participants) (ok-injective e))

add_one-Grows :
    (caller creator t s u : ℕ) (db db' : Db)
    → add_one_private caller creator t s u db ≡ ok db'
    → Grows db db'
unfolding add_one_private
add_one-Grows caller creator t s u db db' e =
    if-ok
      (is_deferred caller creator (joined db.participants s u)
        (last_row (select (is_private_invite db.now u t s) db.invites)))
      (ok db) (insert_participant s u db) db' (db_same db db')
      (λ k. (insert_participant-Grows s u db db' k).0) e

pub add_private-Grows :
    (caller creator t s : ℕ) (us : List ℕ) (db db' : Db)
    → add_private caller creator t s us db ≡ ok db'
    → Grows db db'
unfolding add_private
add_private-Grows caller creator t s [] db db' e = db_same db db' e
add_private-Grows caller creator t s (u ∷ us) db db' e =
    let (db1, e1, f1) = >>=-eq-ok (add_one_private caller creator t s u db) _ e in
    Grows-trans (add_one-Grows caller creator t s u db db1 e1)
      (add_private-Grows caller creator t s us db1 db' f1)

insert_invite-Grows : (o : Offer) (db : Db) (r : Db × ℕ) → insert_invite o db ≡ ok r → Grows db r.0
unfolding insert_invite
insert_invite-Grows o db r e =
    if-ok (has_user db o.sender && has_user db o.receiver) _ _ r
      (λ k.
        Grows-same (ap (λ q. q.0.games) (ok-injective k))
          (ap (λ q. q.0.participants) (ok-injective k)))
      (λ k. cc) e

make_invite-Grows : (o : Offer) (db : Db) (r : Db × ℕ) → make_invite o db ≡ ok r → Grows db r.0
unfolding make_invite
make_invite-Grows o db r e =
    let (m, e1, f1) = >>=-eq-ok (insert_invite o db) _ e in
    Grows-trans (insert_invite-Grows o db m e1) (same_ok m.0 1 r f1)

queue_one-Grows :
    (l p t s u : ℕ) (db : Db) (r : Db × ℕ) → queue_one l p t s u db ≡ ok r → Grows db r.0
unfolding queue_one without_other_follows
queue_one-Grows l p t s u db r e =
    let db' = without_other_follows p t s u db in
    let after =
      if-ok (has_row (is_follow db.now p t s u) db'.invites) (ok (db', 0))
        (make_invite (follow_offer l p t s u) db') r (same_ok db' 0 r)
        (make_invite-Grows (follow_offer l p t s u) db' r) e in
    record { games = after.games; more = after.more }

queue_all-Grows :
    (l p t s : ℕ) (us : List ℕ) (db : Db) (r : Db × ℕ)
    → queue_all l p t s us db ≡ ok r
    → Grows db r.0
unfolding queue_all
queue_all-Grows l p t s [] db r e = same_ok db 0 r e
queue_all-Grows l p t s (u ∷ us) db r e =
    let (a, e1, f1) = >>=-eq-ok (queue_one l p t s u db) _ e in
    let (b, e2, f2) = >>=-eq-ok (queue_all l p t s us a.0) _ f1 in
    Grows-trans (queue_one-Grows l p t s u db a e1)
      (Grows-trans (queue_all-Grows l p t s us a.0 b e2) (same_ok b.0 _ r f2))

queue_for-Grows :
    (l t s : ℕ) (party : Option PartyRow) (db : Db) (r : Db × ℕ)
    → queue_for l t s party db ≡ ok r
    → Grows db r.0
unfolding queue_for
queue_for-Grows l t s none db r e = same_ok db 0 r e
queue_for-Grows l t s (some party) db r e =
    if-ok (joined db.participants s l) _ _ r
      (queue_all-Grows l party.id t s (followers db party.id l) db r) (same_ok db 0 r) e

pub follow_into-Grows :
    (b : Bool) (u t s : ℕ) (db : Db) (r : Db × ℕ) → follow_into b u t s db ≡ ok r → Grows db r.0
unfolding follow_into queue_party_follow_invites
follow_into-Grows b u t s db r e =
    if-ok b _ _ r (queue_for-Grows u t s (party_of db u) db r) (same_ok db 0 r) e

set_member-Grows : (u p : ℕ) (db db' : Db) → set_member u p db ≡ ok db' → Grows db db'
unfolding set_member
set_member-Grows u p db db' e =
    if-ok (has_user db u && has_row (λ party. party.id == p) db.parties) _ _ db'
      (λ k.
        Grows-same (ap (λ (q : Db). q.games) (ok-injective k))
          (ap (λ (q : Db). q.participants) (ok-injective k)))
      (λ k. cc) e

pub join_party-Grows :
    (u : ℕ) (p : Option ℕ) (db db' : Db) → join_party u p db ≡ ok db' → Grows db db'
unfolding join_party delete_parties
join_party-Grows u none db db' e =
    Grows-same (ap (λ (q : Db). q.games) (ok-injective e))
      (ap (λ (q : Db). q.participants) (ok-injective e))
join_party-Grows u (some p) db db' e =
    let g = set_member-Grows u p _ db' e in record { games = g.games; more = g.more }

found_party-Grows :
    (l : ℕ) (p : Option PartyRow) (db : Db) (r : Db × ℕ) → found_party l p db ≡ ok r → Grows db r.0
unfolding found_party
found_party-Grows l (some p) db r e = same_ok db p.id r e
found_party-Grows l none db r e =
    if-ok (has_user db l) _ _ r
      (λ k.
        Grows-same (ap (λ q. q.0.games) (ok-injective k))
          (ap (λ q. q.0.participants) (ok-injective k)))
      (λ k. cc) e

pub ensure-Grows :
    (l : ℕ) (db : Db) (r : Db × ℕ) → ensure_party_for_leader l db ≡ ok r → Grows db r.0
unfolding ensure_party_for_leader
ensure-Grows l db r e =
    let (a, e1, f1) = >>=-eq-ok (found_party l (party_of db l) db) _ e in
    let (b, e2, f2) = >>=-eq-ok (set_member l a.1 a.0) _ f1 in
    Grows-trans (found_party-Grows l (party_of db l) db a e1)
      (Grows-trans (set_member-Grows l a.1 a.0 b e2) (same_ok b a.1 r f2))

restore_one-Grows :
    (c t l p u : ℕ) (db : Db) (r : Db × ℕ) → restore_one c t l p u db ≡ ok r → Grows db r.0
unfolding restore_one close_restores
restore_one-Grows c t l p u db r e =
    if-ok (joined db.participants l u) _
      (make_invite (restore_offer c t l p u) (close_restores u db)) r (same_ok db 0 r)
      (λ k.
        let after = make_invite-Grows (restore_offer c t l p u) (close_restores u db) r k in
        record { games = after.games; more = after.more })
      e

restore_all-Grows :
    (c t l p : ℕ) (us : List ℕ) (db : Db) (r : Db × ℕ)
    → restore_all c t l p us db ≡ ok r
    → Grows db r.0
unfolding restore_all
restore_all-Grows c t l p [] db r e = same_ok db 0 r e
restore_all-Grows c t l p (u ∷ us) db r e =
    let (a, e1, f1) = >>=-eq-ok (restore_one c t l p u db) _ e in
    let (b, e2, f2) = >>=-eq-ok (restore_all c t l p us a.0) _ f1 in
    Grows-trans (restore_one-Grows c t l p u db a e1)
      (Grows-trans (restore_all-Grows c t l p us a.0 b e2) (same_ok b.0 _ r f2))

pub restore_to-Grows :
    (c t : ℕ) (us : List ℕ) (n : ℕ) (lobby : Option GameRow) (db : Db) (r : Db × (ℕ × ℕ))
    → restore_to c t us n lobby db ≡ ok r
    → Grows db r.0
unfolding restore_to
restore_to-Grows c t us n none db r e = same_ok db (n, 0) r e
restore_to-Grows c t us n (some lobby) db r e =
    let (a, e1, f1) = >>=-eq-ok (ensure_party_for_leader c db) _ e in
    let (b, e2, f2) = >>=-eq-ok (restore_all c t lobby.id a.1 us a.0) _ f1 in
    Grows-trans (ensure-Grows c db a e1)
      (Grows-trans (restore_all-Grows c t lobby.id a.1 us a.0 b e2) (same_ok b.0 _ r f2))
