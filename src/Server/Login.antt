-- ===== src/Server/Login.antt =====
-- What a SYN and the CONNECT behind it do: the client is registered.
use scbl.Prelude.{
  ℕ, ◌^◌, ◌<◌, ◌≡◌, refl, sym, ◌∙◌, Bool, true, false, List, [], is_empty, none, some, ok, ap,
  arith,
}
use scbl.Prelude.Maps.{lookup, insert, remove, lookup-insert, lookup-remove}
use scbl.Client.{SocketAddr, ClientInfo, new_client}
use scbl.Rc4.Keystream.{IsKey}
use scbl.Packet.{
  QPacket, PacketType, syn, connect, contains, ack, has_conn_signature, is_data, insert_flag,
}
use scbl.Packet.RoundTrip.{IsWire}
use scbl.Packet.Total.{to_bytes_total}
use scbl.Server.{
  Server, Setup, Env, set_clients, or_zero, emit, sent, prepare, ack_packet, send_packet, send_ack,
}
use scbl.Server.Connect.{handle_syn, handle_connect, connect_with, register_client, answer_connect}
use scbl.Server.Steps.{handle_packet, handle_type}

ack-IsWire :
    (p : QPacket) (ci : ClientInfo) (n : ℕ) (keep : Bool)
    → IsWire p
    → has_conn_signature p.packet_type ≡ true
    → is_data p.packet_type ≡ false
    → n < 2 ^ 32
    → or_zero ci.client_signature < 2 ^ 32
    → ci.server_session < 256
    → IsWire (prepare (ack_packet (record p { conn_signature = some n }) ci keep))
unfolding prepare ack_packet insert_flag
ack-IsWire p ci n keep w signed plain h g k = rw plain (record {
  source_port = w.destination_port;
  destination_port = w.source_port;
  flag_bits = omega arith;
  session_byte = k;
  signature_word = g;
  sequence_word = w.sequence_word;
  conn_fits = rw signed h;
  fragment_fits = w.fragment_fits;
})

module _ (setup : Setup) (k : IsKey setup.ctx.crypto_key) where
  -- The acknowledgement of a packet in range is sent.
  acked :
      (s : Server) (client : SocketAddr) (p : QPacket) (ci : ClientInfo) (n : ℕ)
      → IsWire p
      → has_conn_signature p.packet_type ≡ true
      → is_data p.packet_type ≡ false
      → n < 2 ^ 32
      → or_zero ci.client_signature < 2 ^ 32
      → ci.server_session < 256
      → (bytes : List ℕ) × (send_ack setup s client (record p { conn_signature = some n }) ci false
          ≡ ok (emit s (sent client bytes)))
  unfolding send_ack send_packet
  acked s client p ci n w signed plain h g j =
      let (bytes, e) =
        to_bytes_total setup.bo setup.z setup.ctx _ (ack-IsWire p ci n false w signed plain h g j)
          k in
      (bytes, rw e)

  dispatched :
      (env : Env) (s : Server) (p : QPacket) (client : SocketAddr) (t : PacketType)
      → p.packet_type ≡ t
      → contains p.flags ack ≡ false
      → handle_packet setup env s p client ≡ handle_type setup env s p client t
  unfolding handle_packet
  dispatched env s p client t type asks = rw asks (ap (handle_type setup env s p client) type)

  -- The client that a SYN leaves in `new_clients`.
  syn_handled :
      (env : Env) (s : Server) (p : QPacket) (client : SocketAddr)
      → IsWire p
      → p.packet_type ≡ syn
      → contains p.flags ack ≡ false
      → env.signature < 2 ^ 32
      → (s' : Server) × (handle_packet setup env s p client ≡ ok s')
        × (lookup env.signature s'.new_clients ≡ some (new_client client env.signature env.now))
  unfolding handle_type handle_syn new_client
  syn_handled env s p client w type asks h =
      let ci = new_client client env.signature env.now in
      let s1 = record s { new_clients = insert env.signature ci s.new_clients } in
      let (bytes, e) =
        acked s1 client p ci env.signature w (rw type refl) (rw type refl) h (omega arith)
          (omega arith) in
      (
        emit s1 (sent client bytes),
        dispatched env s p client syn type asks ∙ e,
        lookup-insert env.signature env.signature ci s.new_clients ∙ ground arith,
      )

  -- A CONNECT with that signature takes the client over.
  connect_handled :
      (env : Env) (s : Server) (p : QPacket) (client : SocketAddr) (ci : ClientInfo) (signature : ℕ)
      → IsWire p
      → p.packet_type ≡ connect
      → contains p.flags ack ≡ false
      → p.payload ≡ []
      → p.conn_signature ≡ some signature
      → lookup p.signature s.new_clients ≡ some ci
      → env.session < 256
      → (s' : Server) × (ci' : ClientInfo) × (handle_packet setup env s p client ≡ ok s')
        × (lookup p.signature s'.client_registry.clients ≡ some ci')
        × (ci'.client_signature ≡ some signature)
        × (lookup p.signature s'.new_clients ≡ none)
  unfolding handle_type handle_connect connect_with register_client answer_connect
  connect_handled env s p client ci signature w type asks empty conn there h =
      let ci' = record ci {
        client_signature = some signature;
        server_session = env.session;
        client_session = p.session_id;
      } in
      let s1 =
        set_clients (record s { new_clients = remove p.signature s.new_clients })
          (insert p.signature ci' s.client_registry.clients) in
      let signature_word : signature < 2 ^ 32 = (rw (type, conn) at w.conn_fits) in
      let plain : is_empty p.payload ≡ true = rw empty refl in
      let (bytes, e) =
        acked s1 client p ci' 0 w (rw type refl) (rw type refl) (omega arith) signature_word h in
      (
        emit s1 (sent client bytes),
        ci',
        dispatched env s p client connect type asks
            ∙ ap (connect_with setup env s p client) conn
            ∙ ap (register_client setup env s p client signature) there
            ∙ rw plain e,
        lookup-insert p.signature p.signature ci' s.client_registry.clients ∙ ground arith,
        refl,
        lookup-remove p.signature p.signature s.new_clients ∙ ground arith,
      )

  -- A SYN and then a CONNECT without a ticket make a client known, from any state of the server and
  -- without a panic: the SYN hands out a signature, and the CONNECT that carries it leaves a client
  -- registered under it, with the signature that the CONNECT asks for, and none that waits for a
  -- CONNECT. Both packets are in range and are no acknowledgements, the random numbers are in range,
  -- and the cipher key has 1 to 256 bytes.
  pub login-registers :
      (env env' : Env) (s : Server) (p q : QPacket) (client : SocketAddr) (signature : ℕ)
      → env.signature < 2 ^ 32
      → env'.session < 256
      → IsWire p
      → p.packet_type ≡ syn
      → contains p.flags ack ≡ false
      → IsWire q
      → q.packet_type ≡ connect
      → contains q.flags ack ≡ false
      → q.payload ≡ []
      → q.conn_signature ≡ some signature
      → q.signature ≡ env.signature
      → (s1 : Server) × (s2 : Server) × (ci : ClientInfo) × (handle_packet setup env s p client
          ≡ ok s1)
        × (handle_packet setup env' s1 q client ≡ ok s2)
        × (lookup env.signature s2.client_registry.clients ≡ some ci)
        × (ci.client_signature ≡ some signature)
        × (lookup env.signature s2.new_clients ≡ none)
  login-registers env env' s p q client signature h j w type asks w' type' asks' empty conn same =
      let (s1, e1, there) = syn_handled env s p client w type asks h in
      let known = new_client client env.signature env.now in
      let (s2, ci, e2, found, signed, gone) =
        connect_handled env' s1 q client known signature w' type' asks' empty conn
          (ap (λ k. lookup k s1.new_clients) same ∙ there) j in
      (
        s1,
        s2,
        ci,
        e1,
        e2,
        ap (λ k. lookup k s2.client_registry.clients) (sym same) ∙ found,
        signed,
        ap (λ k. lookup k s2.new_clients) (sym same) ∙ gone,
      )
