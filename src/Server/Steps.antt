-- ===== src/Server/Steps.antt =====
-- server/quazal/src/prudp.rs: `handle_data`, `handle_packet`, `clear_clients` and the part of `serve`
-- that takes a datagram apart.
use scbl.Prelude.{
  ℕ, zero, suc, ◌-◌, ltb, ◌==◌, Bool, false, ◌&&◌, List, [], ◌∷◌, ◌++◌, map, length, take, drop,
  Option, none, some, Outcome, ok, err, panic, ◌>>=◌, if◌then◌else◌,
}
use scbl.Prelude.Maps.{lookup, insert, remove}
use scbl.Client.{SocketAddr, ClientInfo, World, seen}
use scbl.Packet.{
  Error, QPacket, PacketType, syn, connect, data_packet, disconnect, ping, user, route, raw,
  contains, ack,
}
use scbl.Packet.Decode.{from_bytes, validate}
use scbl.Fragment.{FragmentError, cache_fragment, finish_fragmented_payload, reset_fragment_state}
use scbl.Server.{
  Server, Setup, Env, Output, sent, disconnected, expired, user_packet, StreamHandler, emit,
  set_clients, session_timeout, chunks, send_ack, send_chunks,
}
use scbl.Server.Connect.{handle_syn, handle_connect}

-- Both fragment calls reset the group on an error.
unfoldable pub reset_on_error {ℓ} :
    {A : Type ℓ} → ClientInfo × Outcome FragmentError A → ClientInfo × Option A
unfolding reset_fragment_state
reset_on_error (ci, ok a) = (ci, some a)
reset_on_error (ci, err e) = (reset_fragment_state ci, none)
reset_on_error (ci, panic) = (ci, none)

-- The payload for the handler, if the packet completes a message.
unfoldable pub gather :
    (ℕ → Bool) → ClientInfo → Option ℕ → ℕ → List ℕ → ℕ → ClientInfo × Option (List ℕ)
unfolding reset_on_error
gather can_reserve ci none sequence payload now = (ci, some payload)
gather can_reserve ci (some fid) sequence payload now =
    if fid == 0
    then reset_on_error (finish_fragmented_payload can_reserve ci sequence payload now)
    else ((reset_on_error (cache_fragment ci fid sequence payload now)).0, none)

-- `(now - ci.last_seen) > SESSION_TIMEOUT`.
unfoldable pub is_stale : ℕ → ClientInfo → Bool
is_stale now ci = ltb session_timeout (now - ci.last_seen)

unfoldable pub forget_connection : Option ℕ → List (ℕ × ℕ) → List (ℕ × ℕ)
forget_connection none ids = ids
forget_connection (some id) ids = remove id ids

module _ (setup : Setup) where
  -- The call of the stream handler, if there is one for the port.
  unfoldable pub call_handler :
      Option StreamHandler → World → List ℕ → World × Outcome Error (List ℕ)
  call_handler none world payload = (world, err Error.unimplemented)
  call_handler (some handler) world payload = handler setup.ctx world payload

  -- The server behind a handler.
  unfoldable pub handled : Server → World → Server
  handled s world = record s {
    client_registry = world.client_registry;
    output = s.output ++ map (λ d. sent d.0 d.1) world.socket;
  }

  -- What follows the handler: an answer is sent in chunks, an error is only logged.
  unfoldable pub answer :
      Server
      → QPacket
      → SocketAddr
      → ClientInfo
      → Outcome Error (List ℕ)
      → Outcome Error (Server × ClientInfo)
  unfolding chunks
  answer s packet client ci panic = panic
  answer s packet client ci (err e) = ok (s, ci)
  answer s packet client ci (ok payload) =
      send_chunks setup s client packet ci (chunks (length payload) payload)

  unfoldable pub deliver :
      Server
      → QPacket
      → SocketAddr
      → ClientInfo
      → Option (List ℕ)
      → Outcome Error (Server × ClientInfo)
  unfolding call_handler handled answer
  deliver s packet client ci none = ok (s, ci)
  deliver s packet client ci (some payload) =
      let world : World = record { ci = ci; client_registry = s.client_registry; socket = [] } in
      let r = call_handler (setup.handlers packet.destination) world payload in
      answer (handled s r.0) packet client r.0.ci r.1

  unfoldable pub data_from :
      Env → Server → QPacket → SocketAddr → Option ClientInfo → Outcome Error Server
  unfolding gather deliver
  data_from env s packet client none = ok s
  data_from env s packet client (some known) =
      let ci = seen known env.now in
      send_ack setup s client packet ci false >>= λ s'.
      let g =
        gather setup.can_reserve ci packet.fragment_id packet.sequence packet.payload env.now in
      deliver s' packet client g.0 g.1 >>= λ r.
      ok (set_clients r.0 (insert packet.signature r.1 r.0.client_registry.clients))

  unfoldable pub handle_data : Env → Server → QPacket → SocketAddr → Outcome Error Server
  handle_data env s packet client =
      data_from env s packet client (lookup packet.signature s.client_registry.clients)

  unfoldable pub disconnect_from :
      Server → QPacket → SocketAddr → Option ClientInfo → Outcome Error Server
  disconnect_from s packet client none = ok s
  disconnect_from s packet client (some ci) =
      let clients = remove packet.signature s.client_registry.clients in
      send_ack setup (set_clients s clients) client packet ci false >>= λ s'.
      ok (if setup.disconnect_handler then emit s' (disconnected ci) else s')

  unfoldable pub ping_from :
      Env → Server → QPacket → SocketAddr → Option ClientInfo → Outcome Error Server
  ping_from env s packet client none = ok s
  ping_from env s packet client (some known) =
      let ci = seen known env.now in
      let clients = insert packet.signature ci s.client_registry.clients in
      send_ack setup (set_clients s clients) client packet ci false

  unfoldable pub handle_type :
      Env → Server → QPacket → SocketAddr → PacketType → Outcome Error Server
  unfolding disconnect_from ping_from
  handle_type env s packet client syn = handle_syn setup env s packet client
  handle_type env s packet client connect = handle_connect setup env s packet client
  handle_type env s packet client data_packet = handle_data env s packet client
  handle_type env s packet client disconnect =
      disconnect_from s packet client (lookup packet.signature s.client_registry.clients)
  handle_type env s packet client ping =
      ping_from env s packet client (lookup packet.signature s.client_registry.clients)
  handle_type env s packet client user =
      ok (if setup.user_handler then emit s (user_packet packet client) else s)
  handle_type env s packet client route = panic
  handle_type env s packet client raw = panic

  unfoldable pub handle_packet : Env → Server → QPacket → SocketAddr → Outcome Error Server
  unfolding handle_type
  handle_packet env s packet client =
      if contains packet.flags ack then ok s else handle_type env s packet client packet.packet_type

  -- A packet that fails `validate` is passed over.
  unfoldable pub handle_valid :
      Env → Server → QPacket → SocketAddr → Outcome Error (Unit {0}) → Outcome Error Server
  handle_valid env s packet client panic = panic
  handle_valid env s packet client (err e) = ok s
  handle_valid env s packet client (ok u) = handle_packet env s packet client

  -- One round of `while !data.is_empty()`: an unreadable packet ends the datagram. `next` handles
  -- what is left.
  unfoldable pub handle_parsed :
      (Server → List ℕ → Outcome Error Server)
      → Env
      → Server
      → List ℕ
      → SocketAddr
      → Outcome Error (QPacket × ℕ)
      → Outcome Error Server
  unfolding handle_valid
  handle_parsed next env s bytes client panic = panic
  handle_parsed next env s bytes client (err e) = ok s
  handle_parsed next env s bytes client (ok (packet, nparsed)) =
      handle_valid env s packet client
        (validate setup.bo setup.z setup.ctx packet (take nparsed bytes))
      >>= λ s'. next s' (drop nparsed bytes)

  -- The environment is given for each number of bytes that are left.
  unfoldable pub handle_datagram :
      (ℕ → Env) → ℕ → SocketAddr → Server → List ℕ → Outcome Error Server
  unfolding handle_parsed
  handle_datagram env zero client s bytes = ok s
  handle_datagram env (suc fuel) client s [] = ok s
  handle_datagram env (suc fuel) client s (b ∷ bytes) =
      handle_parsed (handle_datagram env fuel client) (env (length (b ∷ bytes))) s (b ∷ bytes)
        client (from_bytes setup.bo setup.z setup.ctx (b ∷ bytes))

  -- `extract_if` over the clients: those that stay, the connection ids, and the output. Without a
  -- handler a client is removed and its connection id stays.
  unfoldable pub sweep :
      ℕ
      → List (ℕ × ClientInfo)
      → List (ℕ × ℕ)
      → List Output
      → List (ℕ × ClientInfo) × List (ℕ × ℕ) × List Output
  sweep now [] ids out = ([], ids, out)
  sweep now ((k, ci) ∷ clients) ids out =
      let told = is_stale now ci && setup.expired_client_handler in
      let r =
        sweep now clients (if told then forget_connection ci.connection_id ids else ids)
          (if told then out ++ (expired ci ∷ []) else out) in
      (if is_stale now ci then r.0 else ((k, ci) ∷ r.0), r.1, r.2)

  unfoldable pub clear_clients : Env → Server → Server
  unfolding sweep
  clear_clients env s =
      let r =
        sweep env.now s.client_registry.clients s.client_registry.connection_id_session_ids
          s.output in
      record s {
        client_registry = record { clients = r.0; connection_id_session_ids = r.1 };
        output = r.2;
      }
