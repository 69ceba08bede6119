-- ===== src/Server/ReachTests.antt =====
-- A run of the server's loop with a stream handler: a client logs in and sends a message, which is
-- answered.
use scbl.Prelude.{ℕ, ◌+◌, ◌%◌, ◌≡◌, refl, subst, List, [], ◌∷◌, length, some, Outcome, ok, arith}
use scbl.Packet.{
  Error, stream_type_to_u8, packet_type_to_u8, contains, insert_flag, stream_type_try_from,
  packet_type_try_from, flags_from_bits,
}
use scbl.Packet.Context.{Context, key}
use scbl.Packet.Checksum.{calc_checksum_from_data}
use scbl.Packet.Encode.{
  to_bytes, to_data_bytes, type_fields, pack_payload, seal_payload, vport_to_bytes, size_field,
}
use scbl.Packet.Decode.{
  from_bytes, from_reader, validate, read_exact, read_head, read_payload, vport_from_reader,
  read_conn_signature, read_fragment_id, read_payload_size, open_payload,
}
use scbl.Fragment.{expire_fragment_state, finish_fragmented_payload}
use scbl.Prelude.Maps.{lookup, insert, remove}
use scbl.Server.Connect.{handle_syn, connect_with, register_client, answer_connect, handle_connect}
use scbl.Client.{ClientInfo, ClientRegistry, World, new_client, seen}
use scbl.Server.{
  Server, Setup, StreamHandler, new_server, sent, prepare, ack_packet, send_ack, send_packet,
  chunks, send_chunks, send_response, complete_response, data_response,
}
use scbl.Server.Steps.{
  handle_datagram, handle_parsed, handle_valid, handle_packet, handle_type, handle_data, data_from,
  gather, reset_on_error, deliver, call_handler, handled, answer, clear_clients,
}
use scbl.Server.Clients.{Each, IsConnected, IsSound, IsSoundWorld, KeepsClients}
use scbl.Server.Reach.{start, next, received, timed_out, Reach-IsSound}
use scbl.Server.Tests.{bare, env, local}

-- A request to a client counts, whoever's request it is.
abbrev probe : ClientInfo → ClientInfo
probe ci = record ci { client_sequence_id = (ci.client_sequence_id + 1) % 65536 }

abbrev probe_all : List (ℕ × ClientInfo) → List (ℕ × ClientInfo)
probe_all [] = []
probe_all ((k, ci) ∷ m) = (k, probe ci) ∷ probe_all m

-- Gives the client a user and a connection, sends a request to each client of the registry and a
-- datagram to another address, and answers with the message.
abbrev echo : Context → World → List ℕ → World × Outcome Error (List ℕ)
echo ctx world bytes = (
  record world {
    ci = record (world.ci) { user_id = some 9; connection_id = some 4 };
    client_registry = record (world.client_registry) {
      clients = probe_all world.client_registry.clients;
    };
    socket = (record { ip = 1; port = 2 }, 8 ∷ []) ∷ [];
  },
  ok bytes,
)

abbrev echoing : Setup
echoing = record bare { handlers = λ port. some echo }

abbrev hello_bytes : List ℕ
hello_bytes = 33 ∷ 33 ∷ 96 ∷ 0 ∷ 0 ∷ 0 ∷ 0 ∷ 0 ∷ 1 ∷ 0 ∷ 0 ∷ 0 ∷ 0 ∷ 0 ∷ 0 ∷ 0 ∷ 163 ∷ []

-- CONNECT under the signature 77.
abbrev greeting_bytes : List ℕ
greeting_bytes = 33 ∷ 33 ∷ 97 ∷ 0 ∷ 77 ∷ 0 ∷ 0 ∷ 0 ∷ 1 ∷ 0 ∷ 5 ∷ 0 ∷ 0 ∷ 0 ∷ 0 ∷ 0 ∷ 246 ∷ []

-- DATA with the message 7, 9.
abbrev message_bytes : List ℕ
message_bytes = 33 ∷ 33 ∷ 98 ∷ 0 ∷ 77 ∷ 0 ∷ 0 ∷ 0 ∷ 1 ∷ 0 ∷ 0 ∷ 3 ∷ 0 ∷ 0 ∷ 7 ∷ 9 ∷ 5 ∷ []

-- The client after CONNECT, and after its message.
abbrev connected : ClientInfo
connected = record (new_client local 77 100_000_000_000) {
  client_signature = some 5;
  server_session = 3;
}

abbrev served : ClientInfo
served = record connected { server_sequence_id = 2; user_id = some 9; connection_id = some 4 }

abbrev hello_ack : List ℕ
hello_ack = 33 ∷ 33 ∷ 72 ∷ 0 ∷ 0 ∷ 0 ∷ 0 ∷ 0 ∷ 1 ∷ 0 ∷ 77 ∷ 0 ∷ 0 ∷ 0 ∷ 0 ∷ 0 ∷ 216 ∷ []

abbrev greeting_ack : List ℕ
greeting_ack = 33 ∷ 33 ∷ 73 ∷ 3 ∷ 5 ∷ 0 ∷ 0 ∷ 0 ∷ 1 ∷ 0 ∷ 0 ∷ 0 ∷ 0 ∷ 0 ∷ 0 ∷ 0 ∷ 148 ∷ []

abbrev message_ack : List ℕ
message_ack = 33 ∷ 33 ∷ 74 ∷ 3 ∷ 5 ∷ 0 ∷ 0 ∷ 0 ∷ 1 ∷ 0 ∷ 0 ∷ 0 ∷ 0 ∷ 149 ∷ []

abbrev echoed : List ℕ
echoed = 33 ∷ 33 ∷ 114 ∷ 3 ∷ 5 ∷ 0 ∷ 0 ∷ 0 ∷ 1 ∷ 0 ∷ 0 ∷ 5 ∷ 0 ∷ 1 ∷ 120 ∷ 0 ∷ 7 ∷ 9 ∷ 75 ∷ []

abbrev registry_of : ClientInfo → ClientRegistry
registry_of ci = record { clients = (77, ci) ∷ []; connection_id_session_ids = [] }

abbrev first : Server
first = record new_server {
  new_clients = (77, new_client local 77 100_000_000_000) ∷ [];
  output = sent local hello_ack ∷ [];
}

abbrev second : Server
second = record new_server {
  client_registry = registry_of connected;
  output = sent local hello_ack ∷ sent local greeting_ack ∷ [];
}

abbrev third : Server
third = record new_server {
  client_registry = registry_of served;
  output =
      sent local hello_ack
      ∷ sent local greeting_ack
      ∷ sent local message_ack
      ∷ sent (record { ip = 1; port = 2 }) (8 ∷ [])
      ∷ sent local echoed
      ∷ [];
}

syn_received :
    handle_datagram echoing (λ n. env) (length hello_bytes) local new_server hello_bytes ≡ ok first
unfolding handle_datagram handle_parsed handle_valid handle_packet handle_type from_bytes
    from_reader read_head read_payload vport_from_reader stream_type_try_from packet_type_try_from
    flags_from_bits contains read_conn_signature read_fragment_id read_payload_size read_exact
    open_payload validate key calc_checksum_from_data send_ack send_packet prepare ack_packet
    to_bytes to_data_bytes type_fields pack_payload seal_payload vport_to_bytes size_field
    insert_flag stream_type_to_u8 packet_type_to_u8 insert remove lookup new_server new_client
    handle_syn
syn_received = refl

connect_received :
    handle_datagram echoing (λ n. env) (length greeting_bytes) local first greeting_bytes
    ≡ ok second
unfolding handle_datagram handle_parsed handle_valid handle_packet handle_type from_bytes
    from_reader read_head read_payload vport_from_reader stream_type_try_from packet_type_try_from
    flags_from_bits contains read_conn_signature read_fragment_id read_payload_size read_exact
    open_payload validate key calc_checksum_from_data send_ack send_packet prepare ack_packet
    to_bytes to_data_bytes type_fields pack_payload seal_payload vport_to_bytes size_field
    insert_flag stream_type_to_u8 packet_type_to_u8 insert remove lookup new_server new_client
    handle_connect connect_with register_client answer_connect
connect_received = refl

message_received :
    handle_datagram echoing (λ n. env) (length message_bytes) local second message_bytes ≡ ok third
unfolding handle_datagram handle_parsed handle_valid handle_packet handle_type from_bytes
    from_reader read_head read_payload vport_from_reader stream_type_try_from packet_type_try_from
    flags_from_bits contains read_conn_signature read_fragment_id read_payload_size read_exact
    open_payload validate key calc_checksum_from_data send_ack send_packet prepare ack_packet
    to_bytes to_data_bytes type_fields pack_payload seal_payload vport_to_bytes size_field
    insert_flag stream_type_to_u8 packet_type_to_u8 insert remove lookup new_server new_client
    handle_data data_from gather reset_on_error finish_fragmented_payload deliver call_handler
    handled answer chunks send_chunks send_response complete_response data_response seen
    expire_fragment_state
message_received = refl

probe-IsConnected : (ci : ClientInfo) → IsConnected ci → IsConnected (probe ci)
probe-IsConnected ci c = record {
  group = record {
    ids = c.group.ids;
    distinct = c.group.distinct;
    counted = c.group.counted;
    bounded = c.group.bounded;
    timed = c.group.timed;
    named = c.group.named;
  };
  signed = c.signed;
}

probe_all-Each : (m : List (ℕ × ClientInfo)) → Each IsConnected m → Each IsConnected (probe_all m)
probe_all-Each [] h = tt
probe_all-Each ((k, ci) ∷ m) h = (probe-IsConnected ci h.0, probe_all-Each m h.1)

echoing-KeepsClients : KeepsClients echoing
echoing-KeepsClients port handler world bytes e w =
    let same : echo ≡ handler = cc in
    let own = probe-IsConnected world.ci w.own in
    subst (λ (h : StreamHandler). IsSoundWorld (h echoing.ctx world bytes).0) same
      (record {
        own = record {
          group = record {
            ids = own.group.ids;
            distinct = own.group.distinct;
            counted = own.group.counted;
            bounded = own.group.bounded;
            timed = own.group.timed;
            named = own.group.named;
          };
          signed = own.signed;
        };
        others = probe_all-Each world.client_registry.clients w.others;
      })

Reach-IsSound_example : IsSound (clear_clients echoing env third)
Reach-IsSound_example = Reach-IsSound echoing echoing-KeepsClients (
    next
      (next
        (next
          (next start
            (received (λ n. env) local hello_bytes (omega arith) (omega arith) syn_received))
          (received (λ n. env) local greeting_bytes (omega arith) (omega arith) connect_received))
        (received (λ n. env) local message_bytes (omega arith) (omega arith) message_received))
      (timed_out env refl))
