-- ===== src/Server.antt =====
-- server/quazal/src/prudp.rs: the state of `Server`, what it sends, and the packets that it makes.
-- Datagrams that are handed to the socket and calls of the user's handlers are the output; a failed
-- `send_to` is only logged. Additions that overflow wrap, as they do without overflow checks.
pub mod Connect
pub mod Steps
pub mod Sessions
pub mod Packets
pub mod Datagrams
pub mod Chunks
pub mod Sweep
pub mod Reach
pub mod Login
pub mod Delivery
pub mod Numbers
pub mod Requests
pub mod Clients
mod Tests
mod LoopTests
mod ReachTests
use scbl.Prelude.{
  ℕ, zero, suc, ◌+◌, ◌-◌, ◌*◌, ◌%◌, ltb, bit_or, Bool, true, false, List, [], ◌∷◌, ◌++◌, length,
  take, drop, Option, none, some, Outcome, ok, ◌>>=◌, if◌then◌else◌,
}
use scbl.Prelude.Maps.{remove}
use scbl.ByteOrder.{ByteOrder}
use scbl.Client.{SocketAddr, ClientInfo, ClientRegistry, World}
use scbl.Packet.{
  Error, VPort, QPacket, PacketType, data_packet, is_data, d_o, ack, reliable, need_ack, has_size,
  insert_flag,
}
use scbl.Packet.Context.{Context, Zlib}
use scbl.Packet.Encode.{to_bytes}
use scbl.Fragment.{max_payload_size}
use scbl.Kerberos.{SecretBox}

-- Sixty seconds in nanoseconds.
abbrev pub session_timeout : ℕ
session_timeout = 60 * 1_000_000_000

pub data Output : Type 0 where
  sent : SocketAddr → List ℕ → Output
  disconnected expired : ClientInfo → Output
  user_packet : QPacket → SocketAddr → Output

pub record Server : Type 0 where
  pub new_clients : List (ℕ × ClientInfo)
  pub client_registry : ClientRegistry
  pub next_conn_id : ℕ
  pub output : List Output

-- `Server::new`.
unfoldable pub new_server : Server
new_server = record {
  new_clients = [];
  client_registry = record { clients = []; connection_id_session_ids = [] };
  next_conn_id = 0x3aaa_aaaa;
  output = [];
}

-- `StreamHandler::handle`. It may change its own client and, through the `RefCell`s of the registry,
-- others, and it may send datagrams.
abbrev pub StreamHandler : Type 0
StreamHandler = Context → World → List ℕ → World × Outcome Error (List ℕ)

-- What does not change while the server runs, and the crates it calls.
pub record Setup : Type 0 where
  pub bo : ByteOrder
  pub z : Zlib
  pub box : SecretBox
  pub can_reserve : ℕ → Bool
  pub ctx : Context
  pub handlers : VPort → Option StreamHandler
  pub user_handler : Bool
  pub expired_client_handler : Bool
  pub disconnect_handler : Bool

-- The clock and the random numbers of one call.
pub record Env : Type 0 where
  pub now : ℕ
  pub unix_seconds : ℕ
  pub signature : ℕ
  pub session : ℕ

abbrev pub emit : Server → Output → Server
emit s o = record s { output = s.output ++ (o ∷ []) }

abbrev pub set_clients : Server → List (ℕ × ClientInfo) → Server
set_clients s clients = record s {
  client_registry = record (s.client_registry) { clients = clients };
}

-- `unwrap_or_default`.
abbrev pub or_zero : Option ℕ → ℕ
or_zero none = 0
or_zero (some v) = v

abbrev pub or_first : Option ℕ → Option ℕ
or_first none = some 0
or_first (some f) = some f

-- The changes that `send_packet` makes to a packet.
unfoldable pub prepare : QPacket → QPacket
unfolding insert_flag
prepare resp =
    let flagged = record resp { flags = insert_flag resp.flags has_size } in
    if is_data resp.packet_type
    then record flagged { use_compression = true; fragment_id = or_first resp.fragment_id }
    else flagged

unfoldable pub ack_packet : QPacket → ClientInfo → Bool → QPacket
ack_packet packet ci keep_payload = record packet {
  source = packet.destination;
  destination = packet.source;
  flags = bit_or ack has_size;
  signature = or_zero ci.client_signature;
  session_id = ci.server_session;
  payload = if keep_payload then packet.payload else [];
}

-- `QPacket::default` with the fields of a response, before `send_response` completes it.
unfoldable pub data_response : QPacket → ℕ → List ℕ → QPacket
data_response packet fid chunk = record {
  source = packet.destination;
  destination = packet.source;
  packet_type = data_packet;
  flags = 0;
  session_id = 0;
  signature = 0;
  fragment_id = some (fid % 256);
  conn_signature = none;
  sequence = 0;
  payload = chunk;
  checksum = 0;
  use_compression = false;
}

-- The packet that `send_response` passes to `send_packet`.
unfoldable pub complete_response : QPacket → ClientInfo → QPacket
unfolding insert_flag
complete_response resp ci = record resp {
  sequence = ci.server_sequence_id;
  flags = insert_flag (insert_flag (insert_flag resp.flags has_size) need_ack) reliable;
  signature = or_zero ci.client_signature;
  session_id = ci.server_session;
}

-- `payload.chunks(MAX_PAYLOAD_SIZE)`; each chunk takes a byte at least, so the length is fuel
-- enough.
unfoldable pub chunks : ℕ → List ℕ → List (List ℕ)
chunks zero payload = []
chunks (suc fuel) [] = []
chunks (suc fuel) (b ∷ payload) =
    take max_payload_size (b ∷ payload) ∷ chunks fuel (drop max_payload_size (b ∷ payload))

module _ (setup : Setup) where
  unfoldable pub send_packet : Server → SocketAddr → QPacket → Outcome Error Server
  unfolding prepare
  send_packet s src resp =
      to_bytes setup.bo setup.z setup.ctx (prepare resp) >>= λ bytes. ok (emit s (sent src bytes))

  unfoldable pub send_ack : Server → SocketAddr → QPacket → ClientInfo → Bool → Outcome Error Server
  send_ack s src packet ci keep_payload = send_packet s src (ack_packet packet ci keep_payload)

  unfoldable pub send_response :
      Server → SocketAddr → QPacket → ClientInfo → Outcome Error (Server × ClientInfo)
  unfolding complete_response
  send_response s src resp ci = send_packet s src (complete_response resp ci) >>= λ s'.
      ok (s', record ci { server_sequence_id = (ci.server_sequence_id + 1) % 65536 })

  -- The loop over `(0..chunks.len()).rev().zip(chunks)`.
  unfoldable pub send_chunks :
      Server
      → SocketAddr
      → QPacket
      → ClientInfo
      → List (List ℕ)
      → Outcome Error (Server × ClientInfo)
  unfolding data_response
  send_chunks s src packet ci [] = ok (s, ci)
  send_chunks s src packet ci (chunk ∷ rest) =
      send_response s src (data_response packet (length rest) chunk) ci >>= λ r.
      send_chunks r.0 src packet r.1 rest
