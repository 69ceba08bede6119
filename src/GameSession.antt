-- ===== src/GameSession.antt =====
-- server/dedicated-server/src/game_session.rs: the handlers of game sessions. The storage, a database
-- behind server/dedicated-server/src/storage/mod.rs, is an interface over a state `S`; `none` is a
-- failed query, which is logged and answered by an internal error.
pub mod Search
pub mod Participants
pub mod Asked
pub mod Found
mod Tests
use scbl.Prelude.{
  ℕ, ◌==◌, Bool, true, false, ◌||◌, List, [], ◌∷◌, Option, none, some, Outcome, ok, err, panic,
  ok_or, if◌then◌else◌,
}
use scbl.Client.{ClientInfo}
use scbl.Rmc.{Error, internal_error, access_denied}
use scbl.Types.Property.{Property, session_attributes}

pub record Participant : Type 0 where
  pub user_id : ℕ
  pub name : List ℕ
  pub station_urls : List (List ℕ)

pub record GameSession : Type 0 where
  pub session_type : ℕ
  pub session_id : ℕ
  pub creator_id : ℕ
  pub attributes : List ℕ
  pub participants : List Participant

pub record InvitedGameSession : Type 0 where
  pub invite_id : ℕ
  pub kind : ℕ
  pub sender_id : ℕ
  pub session : GameSession

-- The calls that the handlers make.
pub record Storage (S : Type 0) : Type 0 where
  pub create_game_session : S → ℕ → ℕ → List ℕ → S × Option ℕ
  pub update_game_session : S → ℕ → ℕ → List ℕ → S × Option (Unit {0})
  pub delete_game_session : S → ℕ → ℕ → ℕ → S × Option (ℕ × ℕ)
  pub migrate_game_session_host : S → ℕ → ℕ → ℕ → S × Option Bool
  pub leave_game_session : S → ℕ → ℕ → ℕ → S × Option (Unit {0})
  pub add_participants : S → ℕ → ℕ → ℕ → List ℕ → List ℕ → S × Option (Unit {0})
  pub remove_participants : S → ℕ → ℕ → List ℕ → S × Option (Unit {0})
  pub join_game_session_unbounded : S → ℕ → ℕ → ℕ → S × Option Bool
  pub game_session_is_active : S → ℕ → ℕ → Option Bool
  pub restore_abandoned_game_session_for_split : S → ℕ → ℕ → ℕ → S × Option Bool
  pub find_accepted_manual_invited_session : S → ℕ → ℕ → S × Option (Option InvitedGameSession)
  pub find_accepted_invited_session : S → ℕ → ℕ → S × Option (Option InvitedGameSession)
  pub note_manual_invitation_search : S → ℕ → ℕ → S
  pub clear_manual_invitation_search : S → ℕ → ℕ → S
  pub search_sessions : S → ℕ → Option ℕ → Option (List GameSession)
  pub search_sessions_with_participants : S → ℕ → List ℕ → Option (List GameSession)

-- The state behind a call, and its answer.
abbrev pub Handled : Type 0 → Type 0 → Type 0
Handled S A = S × Outcome Error A

unfoldable pub login_required : ClientInfo → Outcome Error ℕ
login_required ci = ok_or ci.user_id access_denied

-- A handler begins with `login_required(&*ci)?`.
unfoldable pub with_user : {S A : Type 0} → Outcome Error ℕ → S → (ℕ → Handled S A) → Handled S A
with_user (ok user_id) s body = body user_id
with_user (err e) s body = (s, err e)
with_user panic s body = (s, panic)

-- `rmc_err!(…)?`, with what follows it.
unfoldable pub queried : {S A B : Type 0} → S × Option A → (S → A → Handled S B) → Handled S B
queried (s, none) next = (s, err internal_error)
queried (s, some a) next = next s a

unfoldable pub split_session_result_allowed : Bool → Bool → Bool
split_session_result_allowed migrated restored = migrated || restored

-- The end of `split_session`.
unfoldable pub split_result : {S : Type 0} → S → ℕ → ℕ → Bool → Bool → Handled S (ℕ × ℕ)
unfolding split_session_result_allowed
split_result s' type_id session_id migrated restored = (
  s',
  if split_session_result_allowed migrated restored
      then ok (type_id, session_id)
      else err access_denied,
)

module _ {S : Type 0} (st : Storage S) (s : S) (ci : ClientInfo) where
  -- The answer is the id of the session.
  unfoldable pub create_session : List Property → ℕ → Handled S ℕ
  unfolding with_user queried login_required session_attributes
  create_session attributes session_type = with_user (login_required ci) s (λ user_id.
      queried (st.create_game_session s user_id session_type (session_attributes attributes))
        (λ s' session_id. (s', ok session_id)))

  unfoldable pub update_session : List Property → ℕ → ℕ → Handled S (Unit {0})
  unfolding with_user queried login_required session_attributes
  update_session attributes type_id session_id = with_user (login_required ci) s (λ user_id.
      queried (st.update_game_session s type_id session_id (session_attributes attributes))
        (λ s' u. (s', ok tt)))

  -- An unexpected number of deleted sessions is only logged.
  unfoldable pub delete_session : ℕ → ℕ → Handled S (Unit {0})
  unfolding with_user queried login_required
  delete_session type_id session_id = with_user (login_required ci) s (λ user_id.
      queried (st.delete_game_session s user_id type_id session_id) (λ s' counts. (s', ok tt)))

  unfoldable pub migrate_session : ℕ → ℕ → Handled S (ℕ × ℕ)
  unfolding with_user queried login_required
  migrate_session type_id session_id = with_user (login_required ci) s (λ user_id.
      queried (st.migrate_game_session_host s user_id type_id session_id)
        (λ s' migrated. (s', if migrated then ok (type_id, session_id) else err access_denied)))

  unfoldable pub migrate_session_host : ℕ → ℕ → Handled S (Unit {0})
  unfolding with_user queried login_required
  migrate_session_host type_id session_id = with_user (login_required ci) s (λ user_id.
      queried (st.migrate_game_session_host s user_id type_id session_id)
        (λ s' migrated. (s', if migrated then ok tt else err access_denied)))

  unfoldable pub leave_session : ℕ → ℕ → Handled S (Unit {0})
  unfolding with_user queried login_required
  leave_session type_id session_id = with_user (login_required ci) s (λ user_id.
      queried (st.leave_game_session s user_id type_id session_id) (λ s' u. (s', ok tt)))

  unfoldable pub abandon_session : ℕ → ℕ → Handled S (Unit {0})
  unfolding with_user queried login_required
  abandon_session type_id session_id = with_user (login_required ci) s (λ user_id.
      queried (st.leave_game_session s user_id type_id session_id) (λ s' u. (s', ok tt)))

  unfoldable pub add_participants : ℕ → ℕ → List ℕ → List ℕ → Handled S (Unit {0})
  unfolding with_user queried login_required
  add_participants type_id session_id private_ids public_ids =
      with_user (login_required ci) s (λ caller_id.
        queried (st.add_participants s caller_id type_id session_id private_ids public_ids)
          (λ s' u. (s', ok tt)))

  unfoldable pub remove_participants : ℕ → ℕ → List ℕ → Handled S (Unit {0})
  unfolding with_user queried login_required
  remove_participants type_id session_id ids =
      with_user (login_required ci) s
        (λ user_id. queried (st.remove_participants s type_id session_id ids) (λ s' u. (s', ok tt)))

  unfoldable pub join_session : ℕ → ℕ → Handled S (Unit {0})
  unfolding with_user queried login_required
  join_session type_id session_id = with_user (login_required ci) s (λ user_id.
      queried (st.join_game_session_unbounded s user_id type_id session_id) (λ s' joined.
        if joined
        then (st.clear_manual_invitation_search s' user_id type_id, ok tt)
        else (s', err access_denied)))

  -- A session without a new host is restored where it is not active any more.
  unfoldable pub split_session : ℕ → ℕ → Handled S (ℕ × ℕ)
  unfolding with_user queried login_required split_result
  split_session type_id session_id = with_user (login_required ci) s (λ user_id.
      queried (st.migrate_game_session_host s user_id type_id session_id) (λ s' migrated.
        if migrated
        then split_result s' type_id session_id true false
        else queried (s', st.game_session_is_active s' type_id session_id)
            (λ s'' active.
              if active
              then split_result s'' type_id session_id false false
              else queried
                  (st.restore_abandoned_game_session_for_split s'' user_id type_id session_id)
                  (λ s3 restored. split_result s3 type_id session_id false restored))))

  unfoldable pub report_unsuccessful_join_sessions : Handled S (Unit {0})
  unfolding with_user login_required
  report_unsuccessful_join_sessions = with_user (login_required ci) s (λ user_id. (s, ok tt))
