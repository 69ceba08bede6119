-- ===== src/Ticket/Tests.antt =====
-- Logins over accounts with one user, and its ticket.
use scbl.Prelude.{
  ◌≤◌, ℕ, ◌≡◌, refl, true, false, List, [], ◌∷◌, length, none, some, Outcome, ok, IsBytes,
  if◌then◌else◌, arith,
}
use scbl.Prelude.Maps.{lookup}
use scbl.ByteOrder.{little_endian}
use scbl.Client.{ClientInfo}
use scbl.Packet.Context.{stored}
use scbl.Rc4.{crypt_key, new, zip_xor, schedule, count_from}
use scbl.Kerberos.{SecretBox, seal, ticket_to_bytes}
use scbl.Kerberos.Outer.{as_bytes, derive_key, hash_times, or_dummy}
use scbl.Stream.{FromStreamError, write_vec, write_items}
use scbl.Types.Url.{text_eq}
use scbl.Server.Requests.{client_by_connection_id}
use scbl.Server.{Server, Setup, Env, new_server}
use scbl.Server.Connect.{check_ticket, open_payload_ticket}
use scbl.Ticket.{
  Accounts, Issuer, Response, request_ticket_response, ticket_for, response_of, issue, set_user,
  is_user, logged_in, login_ex, request_with, request_ticket,
}
use scbl.Ticket.Issued.{IsIssued, login_ex-IsIssued, request_ticket-IsIssued}
use scbl.Ticket.Accepted.{IsIssuer, connect_payload, sealed_ticket, ticket_accepted}

abbrev open_letter : SecretBox
open_letter = record {
  seal_box = λ message nonce key. message;
  open_box = λ message nonce key. some message;
  open_box-seal_box = λ message nonce key. refl;
}

abbrev sixteen : List ℕ
sixteen = 1 ∷ 2 ∷ 3 ∷ 4 ∷ 5 ∷ 6 ∷ 7 ∷ 8 ∷ 9 ∷ 10 ∷ 11 ∷ 12 ∷ 13 ∷ 14 ∷ 15 ∷ 16 ∷ []

-- The user 7 with the name "a" and the password "b".
abbrev one_user : Accounts (Unit {0})
one_user = record {
  find_user_id_by_name = λ s name. some (some 7);
  find_password_for_user = λ s user_id. some (some (98 ∷ []));
  login_user = λ s name password. (s, some (if text_eq password (98 ∷ []) then some 7 else none));
  create_user_session = λ s user_id key. s;
}

abbrev issuer : Issuer
issuer = record {
  hashes = record { md5 = λ message. 1 ∷ []; hmac_md5 = λ key message. [] };
  box = open_letter;
  ticket_key = [];
  session_key = sixteen;
  nonce =
      1 ∷ 1 ∷ 1 ∷ 1 ∷ 1 ∷ 1 ∷ 1 ∷ 1 ∷ 1 ∷ 1 ∷ 1 ∷ 1 ∷ 1 ∷ 1 ∷ 1 ∷ 1 ∷ 1 ∷ 1 ∷ 1 ∷ 1 ∷ 1 ∷ 1 ∷ 1 ∷ 1
      ∷ [];
}

abbrev client : ClientInfo
client = record {
  server_sequence_id = 1;
  client_sequence_id = 1;
  client_signature = some 3;
  server_signature = 7;
  client_session = 0;
  server_session = 0;
  packet_fragments = [];
  packet_fragment_bytes = 0;
  packet_fragment_final_sequence = none;
  packet_fragment_started_at = none;
  address = record { ip = 0x7f000001; port = 3074 };
  last_seen = 0;
  connection_id = none;
  user_id = some 7;
}

abbrev ticket_answer : Response
ticket_answer = record {
  pid_principal = 7;
  pbuf_response =
      7 ∷ 10 ∷ 13 ∷ 10 ∷ 29 ∷ 38 ∷ 46 ∷ 33 ∷ 48 ∷ 57 ∷ 66 ∷ 91 ∷ 107 ∷ 120 ∷ 136 ∷ 147 ∷ 161 ∷ 165
      ∷ 202 ∷ 224 ∷ 195 ∷ 102 ∷ 17 ∷ 124 ∷ 77 ∷ 105 ∷ 132 ∷ 162 ∷ 195 ∷ 227 ∷ 162 ∷ 72 ∷ 109 ∷ 39
      ∷ 56 ∷ 126 ∷ 167 ∷ 207 ∷ 22 ∷ 64 ∷ 225 ∷ 70 ∷ 164 ∷ 210 ∷ 187 ∷ 86 ∷ 53 ∷ 102 ∷ 135 ∷ 180
      ∷ 137 ∷ 239 ∷ 128 ∷ 72 ∷ 104 ∷ 46 ∷ 195 ∷ 211 ∷ 207 ∷ 108 ∷ 211 ∷ 140 ∷ 204 ∷ 145 ∷ 221 ∷ 110
      ∷ 170 ∷ 175 ∷ 231 ∷ 229 ∷ 85 ∷ 234 ∷ 78 ∷ 129 ∷ 67 ∷ 252 ∷ [];
}

answered : (login_ex one_user issuer tt client (97 ∷ []) (98 ∷ [])).2 ≡ ok ticket_answer
unfolding login_ex logged_in set_user issue response_of ticket_for as_bytes seal ticket_to_bytes
    write_vec write_items derive_key hash_times or_dummy crypt_key new zip_xor schedule count_from
    text_eq
answered = refl

requested :
    (request_ticket one_user issuer tt client 7 0x1000).2
    ≡ ok (request_ticket_response ticket_answer.pbuf_response)
unfolding request_ticket request_with is_user login_ex logged_in set_user issue response_of
    ticket_for as_bytes seal ticket_to_bytes write_vec write_items derive_key hash_times or_dummy
    crypt_key new zip_xor schedule count_from text_eq
requested = refl

login_ex-IsIssued_example :
    IsIssued issuer
      (login_ex one_user issuer tt client (97 ∷ []) (98 ∷ [])).1
      7
      ticket_answer.pbuf_response
    × ((one_user.login_user tt (97 ∷ []) (98 ∷ [])).1 ≡ some (some 7))
login_ex-IsIssued_example =
    login_ex-IsIssued one_user issuer tt client (97 ∷ []) (98 ∷ []) ticket_answer answered

request_ticket-IsIssued_example : IsIssued issuer client 7 ticket_answer.pbuf_response
request_ticket-IsIssued_example =
    request_ticket-IsIssued one_user issuer tt client 7 0x1000
      (request_ticket_response ticket_answer.pbuf_response) requested

abbrev secure : Setup
secure = record {
  bo = little_endian;
  z = stored;
  box = open_letter;
  can_reserve = λ n. true;
  ctx = record { access_key = []; crypto_key = 1 ∷ []; ticket_key = [] };
  handlers = λ port. none;
  user_handler = false;
  expired_client_handler = false;
  disconnect_handler = false;
}

abbrev noon : Env
noon = record { now = 0; unix_seconds = 1_700_000_000; signature = 77; session = 3 }

sealed : IsBytes (sealed_ticket issuer 7) × (length (sealed_ticket issuer 7) ≤ 65536)
unfolding seal ticket_for ticket_to_bytes
sealed = (omega arith, omega arith)

issuer-IsIssuer : IsIssuer secure issuer
issuer-IsIssuer = record { same_box = refl; same_key = refl; key_size = refl; nonce_size = refl }

ticket_accepted_example :
    (r : Server × ClientInfo × Outcome FromStreamError (List ℕ)) × (ci : ClientInfo) × (check_ticket
        secure noon new_server client 9
        (open_payload_ticket secure (connect_payload issuer 7 (1 ∷ 2 ∷ [])))
      ≡ ok r)
    × (lookup 9 r.0.client_registry.clients ≡ some ci)
    × (ci.user_id ≡ some 7)
    × (ci.connection_id ≡ some new_server.next_conn_id)
    × (client_by_connection_id r.0.client_registry new_server.next_conn_id ≡ some ci)
ticket_accepted_example =
    ticket_accepted secure issuer issuer-IsIssuer (λ n. refl) noon new_server client 9 7
      (1 ∷ 2 ∷ []) (omega arith) sealed.0 sealed.1 (omega arith) (omega arith) (omega arith)
