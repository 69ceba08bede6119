-- ===== src/Server/Requests.antt =====
-- server/quazal/src/prudp.rs: a client is found by its connection id, and the server sends a request.
use scbl.Prelude.{
  ℕ, ◌+◌, ◌%◌, ◌≡◌, ap, ◌∙◌, sym, List, Option, none, some, Outcome, ok, ◌>>=◌, >>=-eq-ok,
  ok-injective,
}
use scbl.Prelude.Maps.{lookup}
use scbl.Client.{SocketAddr, ClientInfo, ClientRegistry}
use scbl.Packet.{Error, QPacket, has_size, need_ack, reliable, insert_flag}
use scbl.Packet.Encode.{to_bytes}
use scbl.Server.{Server, Setup, send_packet, emit, sent, prepare}

-- `and_then(|sig| self.clients.get(&sig.0))`.
unfoldable pub client_of : List (ℕ × ClientInfo) → Option ℕ → Option ClientInfo
client_of clients none = none
client_of clients (some signature) = lookup signature clients

unfoldable pub client_by_connection_id : ClientRegistry → ℕ → Option ClientInfo
unfolding client_of
client_by_connection_id registry conn_id =
    client_of registry.clients (lookup conn_id registry.connection_id_session_ids)

-- The packet that `send_request` passes to `send_packet`.
unfoldable pub complete_request : QPacket → ClientInfo → QPacket
unfolding insert_flag
complete_request req ci = record req {
  sequence = ci.client_sequence_id;
  flags = insert_flag (insert_flag (insert_flag req.flags has_size) need_ack) reliable;
  signature = ci.server_signature;
  session_id = ci.client_session;
}

unfoldable pub send_request :
    Setup → Server → SocketAddr → QPacket → ClientInfo → Outcome Error (Server × ClientInfo)
unfolding complete_request
send_request setup s src req ci = send_packet setup s src (complete_request req ci) >>= λ s'.
    ok (s', record ci { client_sequence_id = (ci.client_sequence_id + 1) % 65536 })

-- A request that is sent is one datagram, and is counted apart from the responses.
send_request-sent :
    (setup : Setup) (s : Server) (src : SocketAddr) (req : QPacket) (ci : ClientInfo)
    (r : Server × ClientInfo)
    → send_request setup s src req ci ≡ ok r
    → (bytes : List ℕ) × (to_bytes setup.bo setup.z setup.ctx (prepare (complete_request req ci))
        ≡ ok bytes)
      × (r.0 ≡ emit s (sent src bytes))
      × (r.1.client_sequence_id ≡ (ci.client_sequence_id + 1) % 65536)
      × (r.1.server_sequence_id ≡ ci.server_sequence_id)
unfolding send_request send_packet
send_request-sent setup s src req ci r e =
    let (s', e1, f1) = >>=-eq-ok (send_packet setup s src (complete_request req ci)) _ e in
    let (bytes, e2, f2) =
      >>=-eq-ok (to_bytes setup.bo setup.z setup.ctx (prepare (complete_request req ci))) _ e1 in
    let same = sym (ok-injective f1) in
    (
      bytes,
      e2,
      ap (λ (q : Server × ClientInfo). q.0) same ∙ sym (ok-injective f2),
      ap (λ (q : Server × ClientInfo). q.1.client_sequence_id) same,
      ap (λ (q : Server × ClientInfo). q.1.server_sequence_id) same,
    )
