-- ===== src/Storage/Tests.antt =====
-- A database with two users, of whom the one creates a session and invites the other.
use scbl.Prelude.{
  ℕ, ◌≡◌, ◌⊎◌, ◌&&◌, ◌==◌, not, leb, refl, Bool, true, false, List, [], ◌∷◌, Option, none, some, ok,
  arith,
}
use scbl.Client.{ClientInfo, new_client}
use scbl.GameSession
use scbl.GameSession.{InvitedGameSession}
use scbl.Storage.{
  Db, UserRow, GameRow, InviteRow, is_session, joined, is_null, game_session_is_active,
}
use scbl.Storage.Rows.{next_id, has_row, first_row, select, update_rows, delete_rows, sort_ids}
use scbl.Storage.Attributes.{equal_text, is_like_class}
use scbl.Text.{split, split_once}
use scbl.Storage.Games.{
  create_game_session, leave_game_session, join_game_session_unbounded, remove_participants,
}
use scbl.Storage.Users.{
  login_user, search_ttl, manual_invitation_search_is_active, note_manual_invitation_search,
  clear_manual_invitation_search,
}
use scbl.Storage.Accepted.{find_accepted_invited_session}
use scbl.Types.Property.{Property, session_attributes}
use scbl.Storage.Attributes.{session_attribute_value}
use scbl.Storage.Classes.{value_in, session_attribute_value-session_attributes}
use scbl.Storage.Hosted.{IsHosted}
use scbl.Storage.Changes.{none_yet, next, created, leaves, Changes-IsHosted}
use scbl.Storage.Sqlite.{sqlite}
use scbl.Storage.Handlers.{IsKept, handlers-IsKept}
use scbl.Storage.Invited.{IsInvited, find_accepted_invited_session-IsInvited}
use scbl.Storage.Delivery.{Invite, take_invite}
use scbl.Storage.Joined.{join-uses_up}
use scbl.Storage.Taken.{seconds_later, take_invite-waits}
use scbl.Storage.Effects.{
  later_by, leave_game_session-joined, search_is_active-noted, login_user-right,
}

abbrev host : UserRow
host = record {
  id = 5;
  username = 104 ∷ [];
  password = some (112 ∷ []);
  password_hash = none;
  is_online = true;
  last_api_seen_at = none;
}

abbrev guest : UserRow
guest = record {
  id = 6;
  username = 103 ∷ [];
  password = none;
  password_hash = none;
  is_online = true;
  last_api_seen_at = none;
}

abbrev lobby : Db
lobby = record {
  users = host ∷ guest ∷ [];
  games = [];
  participants = [];
  station_urls = (5, 117 ∷ []) ∷ [];
  user_sessions = [];
  parties = [];
  party_members = [];
  last_party_id = 0;
  invites = [];
  manual_invitation_searches = [];
  now = 1000;
  instant = 0;
}

abbrev room : GameRow
room = record { id = 1; type_id = 1; creator_id = 5; attributes = []; destroyed_at = none }

abbrev hosted : Db
hosted = record lobby { games = room ∷ []; participants = (1, 5) ∷ [] }

creates : create_game_session 5 1 [] lobby ≡ ok (hosted, 1)
unfolding create_game_session has_row next_id split split_once
creates = refl

Changes-IsHosted_example : IsHosted (leave_game_session 6 1 1 hosted)
Changes-IsHosted_example =
    Changes-IsHosted {a = lobby} refl
      (next (next none_yet (created 5 1 [] (hosted, 1) creates)) (leaves 6 1 1))

abbrev player : ClientInfo
player = record (new_client (record { ip = 0; port = 0 }) 7 0) { user_id = some 6 }

hosted-IsHosted : IsHosted hosted
hosted-IsHosted =
    Changes-IsHosted {a = lobby} refl (next none_yet (created 5 1 [] (hosted, 1) creates))

handlers-IsKept_example :
    IsKept (GameSession.create_session sqlite hosted player [] 1)
    × IsKept (GameSession.update_session sqlite hosted player [] 1 1)
    × IsKept (GameSession.delete_session sqlite hosted player 1 1)
    × IsKept (GameSession.migrate_session sqlite hosted player 1 1)
    × IsKept (GameSession.migrate_session_host sqlite hosted player 1 1)
    × IsKept (GameSession.leave_session sqlite hosted player 1 1)
    × IsKept (GameSession.abandon_session sqlite hosted player 1 1)
    × IsKept (GameSession.add_participants sqlite hosted player 1 1 (6 ∷ []) [])
    × IsKept (GameSession.join_session sqlite hosted player 1 1)
    × IsKept (GameSession.split_session sqlite hosted player 1 1)
handlers-IsKept_example = handlers-IsKept hosted player hosted-IsHosted 1 1 [] (6 ∷ []) []

abbrev invitation : InviteRow
invitation = record {
  rowid = 1;
  sender = 5;
  receiver = 6;
  kind = 2;
  session_type = 1;
  session_id = 1;
  party_id = none;
  created = 990;
  expires_at = 1290;
  delivered_at = some 995;
  accepted_at = some 998;
  consumed_at = none;
  delivery_count = 1;
}

abbrev inviting : Db
inviting = record hosted { invites = invitation ∷ [] }

abbrev invited : InvitedGameSession
invited = record {
  invite_id = 1;
  kind = 2;
  sender_id = 5;
  session = record {
    session_type = 1;
    session_id = 1;
    creator_id = 5;
    attributes = [];
    participants = record { user_id = 5; name = 104 ∷ []; station_urls = (117 ∷ []) ∷ [] } ∷ [];
  };
}

finds : find_accepted_invited_session 6 1 true inviting ≡ some invited
unfolding find_accepted_invited_session select is_null has_row first_row sort_ids
finds = refl

find_accepted_invited_session-IsInvited_example : IsInvited inviting 6 1 invited
find_accepted_invited_session-IsInvited_example =
    find_accepted_invited_session-IsInvited 6 1 true inviting invited finds

-- A second invitation, to another session of the host.
abbrev other_room : GameRow
other_room = record room { id = 2 }

abbrev two_rooms : Db
two_rooms = record inviting {
  games = room ∷ other_room ∷ [];
  participants = (1, 5) ∷ (2, 5) ∷ [];
  invites = invitation ∷ record invitation { rowid = 2; session_id = 2 } ∷ [];
}

abbrev joined_one : Db
joined_one = record two_rooms {
  participants = (1, 5) ∷ (2, 5) ∷ (1, 6) ∷ [];
  invites =
      record invitation { consumed_at = some 1000 }
      ∷ record invitation { rowid = 2; session_id = 2 }
      ∷ [];
}

joins_one : join_game_session_unbounded 6 1 1 two_rooms ≡ ok (joined_one, true)
unfolding join_game_session_unbounded first_row is_null has_row select split split_once update_rows
joins_one = refl

abbrev other_invited : InvitedGameSession
other_invited = record invited {
  invite_id = 2;
  session = record (invited.session) { session_id = 2 };
}

finds_other : find_accepted_invited_session 6 1 true joined_one ≡ some other_invited
unfolding find_accepted_invited_session select is_null has_row first_row sort_ids
finds_other = refl

join-uses_up_example : ¬ (◌≡◌ {A = ℕ} 2 1)
join-uses_up_example =
    join-uses_up 6 1 1 true two_rooms (joined_one, true) other_invited joins_one refl finds_other

leave_game_session-joined_example : joined (leave_game_session 5 1 1 hosted).participants 1 5 ≡ (
    joined hosted.participants 1 5
    && not (has_row (is_session 1 1) hosted.games && ((◌==◌ 1 1) && (◌==◌ 5 5))))
leave_game_session-joined_example = leave_game_session-joined 5 1 1 hosted 1 5

search_is_active-noted_example :
    ((manual_invitation_search_is_active 6 1
        (later_by 7 (note_manual_invitation_search 6 1 hosted))).1
      ≡ leb 7 search_ttl)
    × ((manual_invitation_search_is_active 6 1
          (later_by 7 (clear_manual_invitation_search 6 1 hosted))).1
        ≡ false)
search_is_active-noted_example = search_is_active-noted 6 1 7 hosted

abbrev no_hash : List ℕ → List ℕ → Option Bool
no_hash hash password = none

logs_in : login_user no_hash (104 ∷ []) (112 ∷ []) lobby ≡ ok (lobby, some 5)
unfolding login_user first_row update_rows
logs_in = refl

login_user-right_example :
    (u : UserRow) × (first_row (λ v. equal_text v.username (104 ∷ [])) lobby.users ≡ some u)
    × (5 ≡ u.id)
    × (((stored : List ℕ) × (u.password ≡ some stored) × (equal_text stored (112 ∷ []) ≡ true))
        ⊎ ((hash : List ℕ) × (u.password_hash ≡ some hash) × (no_hash hash (112 ∷ []) ≡ some true)))
login_user-right_example =
    login_user-right no_hash (104 ∷ []) (112 ∷ []) lobby (lobby, some 5) 5 logs_in refl

-- Participants that are removed under another type leave a session without its host.
abbrev orphaned : Db
orphaned = record hosted { participants = [] }

removes_under_other_type : remove_participants 9 1 (5 ∷ []) hosted ≡ orphaned
unfolding remove_participants first_row joined has_row is_like_class delete_rows
removes_under_other_type = refl

still_active : game_session_is_active orphaned 1 1 ≡ true
unfolding game_session_is_active has_row is_null
still_active = refl

-- "106 => 3;113 => 0;113 => 2"
abbrev lobby_class_twice : List Property
lobby_class_twice = record { id = 113; value = 0 } ∷ record { id = 113; value = 2 } ∷ []

session_attribute_value-session_attributes_example :
    session_attribute_value
      (session_attributes (record { id = 106; value = 3 } ∷ lobby_class_twice))
      113
    ≡ value_in 113 (record { id = 106; value = 3 } ∷ lobby_class_twice)
session_attribute_value-session_attributes_example =
    session_attribute_value-session_attributes 113 (record { id = 106; value = 3 })
      lobby_class_twice
      ((omega arith, omega arith), ((omega arith, omega arith), ((omega arith, omega arith), tt)))

first_class : value_in 113 (record { id = 106; value = 3 } ∷ lobby_class_twice) ≡ some 0
unfolding value_in
first_class = refl

-- Two invitations that were not delivered yet.
abbrev waiting_invitation : InviteRow
waiting_invitation = record invitation { delivered_at = none; accepted_at = none }

abbrev two_waiting : Db
two_waiting = record hosted {
  invites = waiting_invitation ∷ record waiting_invitation { rowid = 2 } ∷ [];
}

abbrev first_taken : Invite
first_taken = record {
  id = 2;
  sender = 5;
  receiver = 6;
  kind = 2;
  session_type = 1;
  session_id = 1;
  delivery_count = 2;
}

takes_newest : (take_invite 6 two_waiting).1 ≡ some first_taken
unfolding take_invite select update_rows delete_rows is_null has_row
takes_newest = refl

takes_other :
    (take_invite 6 (seconds_later 2 (take_invite 6 two_waiting).0)).1
    ≡ some (record first_taken { id = 1 })
unfolding take_invite select update_rows delete_rows is_null has_row
takes_other = refl

take_invite-waits_example : ¬ (◌≡◌ {A = ℕ} 1 2)
take_invite-waits_example =
    take_invite-waits 6 6 2 two_waiting first_taken (record first_taken { id = 1 }) takes_newest
      (omega arith) takes_other
