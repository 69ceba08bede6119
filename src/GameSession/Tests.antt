-- ===== src/GameSession/Tests.antt =====
-- Game sessions over a storage that holds a list of sessions.
use scbl.Prelude.{◌≡◌, ◌↔◌, refl, true, false, List, [], ◌∷◌, length, none, some, ok, All, arith}
use scbl.Prelude.Maps.{lookup, insert}
use scbl.Client.{ClientInfo}
use scbl.Types.Property.{Property, session_attributes, properties_from_str}
use scbl.GameSession
use scbl.GameSession.{
  Participant, GameSession, InvitedGameSession, Storage, login_required, with_user, queried,
}
use scbl.GameSession.Search.{
  SearchResult, search_sessions, answer_search, search_results, keep_session, keep_sessions,
  required_attributes, collect_properties, is_invitation_search_query,
}
use scbl.GameSession.Search.{
  fits_attributes, has_attributes, has_value, default_103, add_result, parse_urls, urls_of,
  result_participants,
}
use scbl.Types.Property.{
  parse_all, property_from_str, property_of, both, add_property, property_to_string,
}
use scbl.Text.{
  split, split_once, join, to_decimal, digits, parse_unsigned, parse_some_digits, parse_digits,
  add_digit, starts_with, add_front, add_to_first,
}
use scbl.GameSession.Asked.{HasAll}
use scbl.GameSession.Found.{Fits, keep_session-created, search_sessions-Fits}

-- Every session is stored with an id that counts up.
abbrev memory : Storage (List GameSession)
memory = record {
  create_game_session = λ s user_id type_id attributes. (
    record {
      session_type = type_id;
      session_id = length s;
      creator_id = user_id;
      attributes = attributes;
      participants = [];
    }
        ∷ s,
    some (length s),
  );
  update_game_session = λ s type_id id attributes. (s, some tt);
  delete_game_session = λ s user_id type_id id. (s, some (1, 0));
  migrate_game_session_host = λ s user_id type_id id. (s, some false);
  leave_game_session = λ s user_id type_id id. (s, some tt);
  add_participants = λ s user_id type_id id private_ids public_ids. (s, some tt);
  remove_participants = λ s type_id id ids. (s, some tt);
  join_game_session_unbounded = λ s user_id type_id id. (s, some true);
  game_session_is_active = λ s type_id id. some true;
  restore_abandoned_game_session_for_split = λ s user_id type_id id. (s, some false);
  find_accepted_manual_invited_session = λ s user_id type_id. (s, some none);
  find_accepted_invited_session = λ s user_id type_id. (s, some none);
  note_manual_invitation_search = λ s user_id type_id. s;
  clear_manual_invitation_search = λ s user_id type_id. s;
  search_sessions = λ s type_id user_id. some s;
  search_sessions_with_participants = λ s type_id ids. some s;
}

abbrev stranger : ClientInfo
stranger = record {
  server_sequence_id = 1;
  client_sequence_id = 1;
  client_signature = none;
  server_signature = 7;
  client_session = 0;
  server_session = 0;
  packet_fragments = [];
  packet_fragment_bytes = 0;
  packet_fragment_final_sequence = none;
  packet_fragment_started_at = none;
  address = record { ip = 0; port = 0 };
  last_seen = 0;
  connection_id = none;
  user_id = none;
}

abbrev player : ClientInfo
player = record stranger { user_id = some 5 }

abbrev coop : List Property
coop =
    record { id = 103; value = 0 }
    ∷ record { id = 106; value = 3564829 }
    ∷ record { id = 112; value = 2 }
    ∷ []

abbrev asked : List Property
asked = record { id = 106; value = 3564829 } ∷ record { id = 112; value = 1 } ∷ []

abbrev coop_session : GameSession
coop_session = record {
  session_type = 1;
  session_id = 0;
  creator_id = 5;
  attributes = session_attributes coop;
  participants = [];
}

-- A player creates a session, which another search with the same mode finds.
created : GameSession.create_session memory [] player coop 1 ≡ (coop_session ∷ [], ok 0)
unfolding GameSession.create_session with_user queried login_required
created = refl

keep_session-created_example :
    (keep_session false (required_attributes asked) coop_session ≡ true) ↔ HasAll asked coop
keep_session-created_example =
    keep_session-created asked coop_session (record { id = 103; value = 0 })
      (record { id = 106; value = 3564829 } ∷ record { id = 112; value = 2 } ∷ []) (omega arith)
      refl

ordinary : is_invitation_search_query 1 ≡ false
unfolding is_invitation_search_query
ordinary = refl

abbrev coop_result : SearchResult
coop_result = record {
  session_id = 0;
  type_id = 1;
  host_pid = 5;
  host_urls = [];
  attributes = coop;
  participants = [];
}

searched : (search_sessions memory (coop_session ∷ []) player 1 1 asked).1 ≡ ok (coop_result ∷ [])
unfolding search_sessions answer_search search_results keep_sessions keep_session fits_attributes
    has_attributes has_value required_attributes collect_properties default_103 properties_from_str
    session_attributes parse_all property_from_str property_of both add_property split split_once
    join property_to_string to_decimal digits parse_unsigned parse_some_digits parse_digits
    add_digit starts_with add_front add_to_first insert lookup add_result parse_urls urls_of
    result_participants
searched = refl

search_sessions-Fits_example : All (Fits asked) (coop_result ∷ [])
search_sessions-Fits_example =
    search_sessions-Fits memory 1 asked (coop_session ∷ []) player 1 (coop_result ∷ []) ordinary
      searched
