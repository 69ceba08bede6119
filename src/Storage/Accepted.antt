-- ===== src/Storage/Accepted.antt =====
-- server/dedicated-server/src/storage/mod.rs: the session that an accepted invitation leads to.
use scbl.Prelude.{
  ℕ, ◌==◌, ltb, Bool, true, false, not, ◌&&◌, ◌||◌, List, [], ◌∷◌, map, Option, none, some,
  if◌then◌else◌,
}
use scbl.GameSession.{Participant, InvitedGameSession}
use scbl.Storage.{Db, GameRow, InviteRow, UserRow, is_null, participant_ids}
use scbl.Storage.Rows.{select, first_row}
use scbl.Storage.Attributes.{project_private_invite_session_class_only}
use scbl.Storage.Parties.{is_live}
use scbl.Storage.Games.{newest}
use scbl.Storage.Invites.{is_manual, is_target, has_target}

-- ORDER BY of texts, by their bytes.
unfoldable pub leb_text : List ℕ → List ℕ → Bool
leb_text [] t = true
leb_text (c ∷ s) [] = false
leb_text (c ∷ s) (d ∷ t) = ltb c d || ((c == d) && leb_text s t)

unfoldable pub insert_text : List ℕ → List (List ℕ) → List (List ℕ)
unfolding leb_text
insert_text t [] = t ∷ []
insert_text t (u ∷ us) =
    let rest = insert_text t us in if leb_text t u then t ∷ (u ∷ us) else u ∷ rest

unfoldable pub sort_texts : List (List ℕ) → List (List ℕ)
unfolding insert_text
sort_texts [] = []
sort_texts (t ∷ ts) = insert_text t (sort_texts ts)

unfoldable pub urls_of_user : Db → ℕ → List (List ℕ)
urls_of_user db user_id = map (λ u. u.1) (select (λ u. u.0 == user_id) db.station_urls)

-- The join of a participant with its row of the users.
unfoldable pub add_named : Option UserRow → List (List ℕ) → List Participant → List Participant
add_named none urls rest = rest
add_named (some u) urls rest =
    record { user_id = u.id; name = u.username; station_urls = urls } ∷ rest

unfoldable pub sorted_participants : Db → List ℕ → List Participant
unfolding add_named sort_texts urls_of_user
sorted_participants db [] = []
sorted_participants db (id ∷ ids) =
    add_named (first_row (λ u. u.id == id) db.users) (sort_texts (urls_of_user db id))
      (sorted_participants db ids)

-- An accepted invitation, which has a target.
unfoldable pub is_accepted : Db → ℕ → ℕ → Bool → InviteRow → Bool
unfolding is_manual has_target
is_accepted db receiver_id session_type manual_only i =
    (i.receiver == receiver_id)
    && ((i.session_type == session_type)
        && ((not manual_only || is_manual i.kind)
            && (not (is_null i.accepted_at) && (is_live db.now i && has_target db i))))

unfoldable pub invited_session : Db → InviteRow → GameRow → InvitedGameSession
unfolding sorted_participants participant_ids project_private_invite_session_class_only
invited_session db i g = record {
  invite_id = i.rowid;
  kind = i.kind;
  sender_id = i.sender;
  session = record {
    session_type = g.type_id;
    session_id = g.id;
    creator_id = g.creator_id;
    attributes =
        if i.kind == 1
        then project_private_invite_session_class_only g.attributes
        else g.attributes;
    participants = sorted_participants db (participant_ids db.participants g.id);
  };
}

unfoldable pub target_session : Db → InviteRow → Option GameRow → Option InvitedGameSession
unfolding invited_session
target_session db i none = none
target_session db i (some g) = some (invited_session db i g)

unfoldable pub session_of_invite : Db → Option InviteRow → Option InvitedGameSession
unfolding target_session is_target
session_of_invite db none = none
session_of_invite db (some i) = target_session db i (first_row (is_target db i) db.games)

-- `find_accepted_invited_session_filtered_async`.
unfoldable pub find_accepted_invited_session : ℕ → ℕ → Bool → Db → Option InvitedGameSession
unfolding is_accepted newest session_of_invite
find_accepted_invited_session receiver_id session_type manual_only db =
    session_of_invite db
      (newest (select (is_accepted db receiver_id session_type manual_only) db.invites))
