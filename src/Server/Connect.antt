-- ===== src/Server/Connect.antt =====
-- server/quazal/src/prudp.rs: `handle_syn` and `handle_connect`, which make a client known.
use scbl.Prelude.{
  ℕ, ◌+◌, ◌%◌, ◌^◌, ltb, false, not, List, [], ◌∷◌, is_empty, Option, none, some, Outcome, ok, err,
  panic, ◌>>=◌, if◌then◌else◌,
}
use scbl.Prelude.Maps.{lookup, insert, remove}
use scbl.ByteOrder.{to_le_bytes}
use scbl.Rc4.{crypt_key}
use scbl.Client.{SocketAddr, ClientInfo, new_client}
use scbl.Packet.{Error, QPacket}
use scbl.Stream.{FromStreamError, read_u8, read_u32, read_vec, write_vec}
use scbl.Kerberos.{KerberosTicketInternal, open_ticket}
use scbl.Server.{Server, Setup, Env, set_clients, send_ack}

unfoldable pub handle_syn : Setup → Env → Server → QPacket → SocketAddr → Outcome Error Server
handle_syn setup env s packet client =
    let ci = new_client client env.signature env.now in
    send_ack setup (record s { new_clients = insert env.signature ci s.new_clients }) client
      (record packet { conn_signature = some env.signature }) ci false

-- `ConnectData`: two words that are not used, and the challenge.
unfoldable pub read_challenge : Setup → List ℕ → Outcome FromStreamError ℕ
read_challenge setup r0 = do
  (user_pid, r1) ← read_u32 setup.bo r0
  (connection_id, r2) ← read_u32 setup.bo r1
  (challenge, r3) ← read_u32 setup.bo r2
  ok challenge

-- The length-prefixed bytes of the challenge plus one.
unfoldable pub challenge_response : ℕ → List ℕ
challenge_response challenge = write_vec (λ b. b ∷ []) (to_le_bytes 4 ((challenge + 1) % 2 ^ 32))

-- The part of the closure behind the test of the ticket's time: the client gets its user and a
-- connection id, also where the challenge cannot be read then.
unfoldable pub accept_ticket :
    Setup
    → Server
    → ClientInfo
    → ℕ
    → KerberosTicketInternal
    → List ℕ
    → Outcome Error (Server × ClientInfo × Outcome FromStreamError (List ℕ))
unfolding read_challenge challenge_response
accept_ticket setup s ci signature ti request_data =
    let id = s.next_conn_id in
    let ci' = record ci { user_id = some ti.principle_id; connection_id = some id } in
    let s' = record s {
      next_conn_id = (id + 1) % 2 ^ 32;
      client_registry = record {
        clients = insert signature ci' s.client_registry.clients;
        connection_id_session_ids = insert id signature s.client_registry.connection_id_session_ids;
      };
    } in
    crypt_key ti.session_key request_data >>= λ plain.
    ok (s', ci', read_challenge setup plain >>= λ challenge. ok (challenge_response challenge))

-- The closure: the two buffers of the payload and the sealed ticket in the first of them.
unfoldable pub open_payload_ticket :
    Setup → List ℕ → Outcome FromStreamError (KerberosTicketInternal × List ℕ)
open_payload_ticket setup payload = do
  (ticket, r1) ← read_vec setup.bo setup.can_reserve (read_u8 setup.bo) payload
  (request_data, r2) ← read_vec setup.bo setup.can_reserve (read_u8 setup.bo) r1
  ti ← open_ticket setup.box setup.bo setup.can_reserve ticket setup.ctx.ticket_key
  ok (ti, request_data)

unfoldable pub check_ticket :
    Setup
    → Env
    → Server
    → ClientInfo
    → ℕ
    → Outcome FromStreamError (KerberosTicketInternal × List ℕ)
    → Outcome Error (Server × ClientInfo × Outcome FromStreamError (List ℕ))
check_ticket setup env s ci signature panic = panic
check_ticket setup env s ci signature (err e) = ok (s, ci, err e)
check_ticket setup env s ci signature (ok (ti, request_data)) =
    if ltb ti.valid_until env.unix_seconds
    then ok (s, ci, ok [])
    else accept_ticket setup s ci signature ti request_data

-- The payload was taken out of the packet, so that an error leaves it empty.
unfoldable pub response_payload : Outcome FromStreamError (List ℕ) → List ℕ
response_payload panic = []
response_payload (err e) = []
response_payload (ok response) = response

-- `handle_connect` from the registration of the client on.
unfoldable pub answer_connect :
    Setup → Env → Server → QPacket → SocketAddr → ClientInfo → Outcome Error Server
unfolding open_payload_ticket check_ticket response_payload
answer_connect setup env s packet client ci =
    if is_empty packet.payload
    then send_ack setup s client (record packet { conn_signature = some 0 }) ci false
    else (check_ticket setup env s ci packet.signature (open_payload_ticket setup packet.payload)
        >>= λ r.
            let payload = response_payload r.2 in
            send_ack setup r.0 client (record packet { payload = payload; conn_signature = some 0 })
              r.1 (not (is_empty payload)))

unfoldable pub register_client :
    Setup → Env → Server → QPacket → SocketAddr → ℕ → Option ClientInfo → Outcome Error Server
register_client setup env s packet client signature none = ok s
register_client setup env s packet client signature (some ci) =
    let ci' = record ci {
      client_signature = some signature;
      server_session = env.session;
      client_session = packet.session_id;
    } in
    let s' = record s { new_clients = remove packet.signature s.new_clients } in
    let clients = insert packet.signature ci' s.client_registry.clients in
    answer_connect setup env (set_clients s' clients) packet client ci'

unfoldable pub connect_with :
    Setup → Env → Server → QPacket → SocketAddr → Option ℕ → Outcome Error Server
connect_with setup env s packet client none = ok s
connect_with setup env s packet client (some signature) =
    register_client setup env s packet client signature (lookup packet.signature s.new_clients)

unfoldable pub handle_connect : Setup → Env → Server → QPacket → SocketAddr → Outcome Error Server
handle_connect setup env s packet client =
    connect_with setup env s packet client packet.conn_signature
