-- ===== src/Client.antt =====
-- server/quazal/src/lib.rs: `ClientInfo`, the state of one connection. An `Instant` is a count of
-- nanoseconds, an address is its IP and port, and the additional data is `()`, as in the servers.
use scbl.Prelude.{ℕ, List, [], Option, none}

pub record SocketAddr : Type 0 where
  pub ip : ℕ
  pub port : ℕ

pub record ClientInfo : Type 0 where
  pub server_sequence_id : ℕ
  pub client_sequence_id : ℕ
  pub client_signature : Option ℕ
  pub server_signature : ℕ
  pub client_session : ℕ
  pub server_session : ℕ
  pub packet_fragments : List (ℕ × List ℕ)
  pub packet_fragment_bytes : ℕ
  pub packet_fragment_final_sequence : Option ℕ
  pub packet_fragment_started_at : Option ℕ
  pub address : SocketAddr
  pub last_seen : ℕ
  pub connection_id : Option ℕ
  pub user_id : Option ℕ

-- `ClientInfo::new`; the random signature and the time are arguments.
unfoldable pub new_client : SocketAddr → ℕ → ℕ → ClientInfo
new_client address signature now = record {
  server_sequence_id = 1;
  client_sequence_id = 1;
  client_signature = none;
  server_signature = signature;
  client_session = 0;
  server_session = 0;
  packet_fragments = [];
  packet_fragment_bytes = 0;
  packet_fragment_final_sequence = none;
  packet_fragment_started_at = none;
  address = address;
  last_seen = now;
  connection_id = none;
  user_id = none;
}

unfoldable pub seen : ClientInfo → ℕ → ClientInfo
seen ci now = record ci { last_seen = now }

-- server/quazal/src/prudp.rs: the registry of clients, and the session of each connection id.
pub record ClientRegistry : Type 0 where
  pub clients : List (ℕ × ClientInfo)
  pub connection_id_session_ids : List (ℕ × ℕ)

-- What a handler is given to change: `ci`, the clients of `client_registry`, which stand in `RefCell`s,
-- and `socket`, which is the datagrams that were sent.
pub record World : Type 0 where
  pub ci : ClientInfo
  pub client_registry : ClientRegistry
  pub socket : List (SocketAddr × List ℕ)
