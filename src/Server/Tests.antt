-- ===== src/Server/Tests.antt =====
-- The server's theorems at a server that has no handlers.
use scbl.Prelude.{ℕ, ◌≡◌, refl, true, false, List, [], ◌∷◌, none, some, ok, arith}
use scbl.Prelude.Maps.{lookup, insert}
use scbl.ByteOrder.{little_endian}
use scbl.Client.{SocketAddr, ClientInfo, new_client}
use scbl.Packet.{
  VPort, QPacket, rv, syn, stream_type_to_u8, packet_type_to_u8, contains, insert_flag,
}
use scbl.Packet.Context.{stored, key}
use scbl.Packet.Checksum.{calc_checksum_from_data}
use scbl.Packet.Encode.{
  to_bytes, to_data_bytes, type_fields, pack_payload, seal_payload, vport_to_bytes, size_field,
}
use scbl.Kerberos.{SecretBox}
use scbl.Server.{
  Server, Setup, Env, new_server, emit, sent, send_ack, send_packet, prepare, ack_packet,
}
use scbl.Server.Connect.{handle_syn}
use scbl.Server.Steps.{handle_packet, handle_type, handle_datagram, clear_clients}
use scbl.Server.Clients.{IsSound, Each}
use scbl.Server.Datagrams.{handle_datagram-enough}
use scbl.Server.Sweep.{IsFresh, clear_clients-IsFresh}

abbrev open_letter : SecretBox
open_letter = record {
  seal_box = λ message nonce key. message;
  open_box = λ message nonce key. some message;
  open_box-seal_box = λ message nonce key. refl;
}

abbrev pub bare : Setup
bare = record {
  bo = little_endian;
  z = stored;
  box = open_letter;
  can_reserve = λ n. true;
  ctx = record { access_key = []; crypto_key = 1 ∷ []; ticket_key = [] };
  handlers = λ port. none;
  user_handler = false;
  expired_client_handler = true;
  disconnect_handler = true;
}

abbrev pub env : Env
env = record { now = 100_000_000_000; unix_seconds = 5; signature = 77; session = 3 }

abbrev pub local : SocketAddr
local = record { ip = 0x7f000001; port = 3074 }

abbrev pub port : VPort
port = record { port = 1; stream_type = rv }

abbrev pub hello : QPacket
hello = record {
  source = port;
  destination = port;
  packet_type = syn;
  flags = 12;
  session_id = 0;
  signature = 0;
  fragment_id = none;
  conn_signature = some 0;
  sequence = 1;
  payload = [];
  checksum = 163;
  use_compression = false;
}

abbrev pub hello_ack : List ℕ
hello_ack = 33 ∷ 33 ∷ 72 ∷ 0 ∷ 0 ∷ 0 ∷ 0 ∷ 0 ∷ 1 ∷ 0 ∷ 77 ∷ 0 ∷ 0 ∷ 0 ∷ 0 ∷ 0 ∷ 216 ∷ []

abbrev pub greeted : Server
greeted =
    emit (record new_server { new_clients = (77, new_client local 77 100_000_000_000) ∷ [] })
      (sent local hello_ack)

pub hello_handled : handle_packet bare env new_server hello local ≡ ok greeted
unfolding handle_packet handle_type handle_syn send_ack send_packet prepare ack_packet to_bytes
    to_data_bytes type_fields pack_payload seal_payload vport_to_bytes size_field contains
    insert_flag insert key calc_checksum_from_data stream_type_to_u8 packet_type_to_u8 new_server
    new_client
hello_handled = refl

new_server-IsSound : IsSound new_server
unfolding new_server
new_server-IsSound = record { fresh = tt; connected = tt }

handle_datagram-enough_example :
    handle_datagram bare (λ n. env) 20 local new_server (17 ∷ 17 ∷ 96 ∷ 0 ∷ [])
    ≡ handle_datagram bare (λ n. env) 4 local new_server (17 ∷ 17 ∷ 96 ∷ 0 ∷ [])
handle_datagram-enough_example =
    handle_datagram-enough bare (λ n. env) 20 4 local new_server (17 ∷ 17 ∷ 96 ∷ 0 ∷ [])
      (omega arith) (omega arith) (omega arith)

-- One client that was last seen at the start, and one that was seen now.
abbrev two_clients : Server
two_clients = record new_server {
  client_registry = record {
    clients = (1, new_client local 1 0) ∷ (2, new_client local 2 100_000_000_000) ∷ [];
    connection_id_session_ids = [];
  };
}

clear_clients-IsFresh_example :
    Each (IsFresh 100_000_000_000) (clear_clients bare env two_clients).client_registry.clients
    × ((k : ℕ) (ci : ClientInfo)
        → lookup k two_clients.client_registry.clients ≡ some ci
        → IsFresh 100_000_000_000 ci
        → lookup k (clear_clients bare env two_clients).client_registry.clients ≡ some ci)
clear_clients-IsFresh_example = clear_clients-IsFresh bare env two_clients
