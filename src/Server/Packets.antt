-- ===== src/Server/Packets.antt =====
-- Every packet keeps the server's clients sound.
use scbl.Prelude.{
  ℕ, ◌==◌, ◌≡◌, refl, sym, ◌∙◌, Bool, false, List, [], length, Option, none, some, Outcome, ok, err,
  panic, >>=-eq-ok, ok-injective, subst, Bool-cases, inl, inr,
}
use scbl.Prelude.Maps.{lookup, remove}
use scbl.Client.{SocketAddr, ClientInfo, World, seen}
use scbl.Packet.{
  Error, QPacket, PacketType, syn, connect, data_packet, disconnect, ping, user, route, raw,
  contains, ack,
}
use scbl.Fragment.{FragmentError, cache_fragment, finish_fragmented_payload, reset_fragment_state}
use scbl.Fragment.Invariant.{Inv, reset-Inv, cache_fragment-Inv, finish-Inv}
use scbl.Fragment.Frame.{cache-signature, finish-signature}
use scbl.Server.Sessions.{syn-IsSound, connect-IsSound}
use scbl.Server.{
  Server, Setup, Env, StreamHandler, disconnected, user_packet, set_clients, send_ack, chunks,
}
use scbl.Server.Connect.{handle_connect}
use scbl.Server.Steps.{
  reset_on_error, gather, call_handler, handled, answer, deliver, data_from, handle_data,
  disconnect_from, ping_from, handle_type, handle_packet,
}
use scbl.Server.Clients.{
  insert-Each, remove-Each, lookup-Each, IsConnected, IsSound, IsSoundWorld, KeepsClients, HasValue,
  seen-Inv, emit-IsSound, set_clients-IsSound, send_ack-IsSound, send_chunks-IsSound,
}

seen-IsConnected : (ci : ClientInfo) (now : ℕ) → IsConnected ci → IsConnected (seen ci now)
unfolding seen
seen-IsConnected ci now c = record {
  group = unfold seen in seen-Inv ci now c.group;
  signed = c.signed;
}

reset_on_error-Inv :
    {A : Type 0} (r : ClientInfo × Outcome FragmentError A) → Inv r.0 → Inv (reset_on_error r).0
unfolding reset_on_error
reset_on_error-Inv (ci, ok a) v = v
reset_on_error-Inv (ci, err e) v = reset-Inv ci
reset_on_error-Inv (ci, panic) v = v

reset_on_error-signature :
    {A : Type 0} (r : ClientInfo × Outcome FragmentError A)
    → (reset_on_error r).0.client_signature ≡ r.0.client_signature
unfolding reset_on_error reset_fragment_state
reset_on_error-signature (ci, ok a) = refl
reset_on_error-signature (ci, err e) = refl
reset_on_error-signature (ci, panic) = refl

IsConnected-by :
    (ci ci' : ClientInfo)
    → IsConnected ci
    → Inv ci'
    → ci'.client_signature ≡ ci.client_signature
    → IsConnected ci'
IsConnected-by ci ci' c v e = record { group = v; signed = subst HasValue (sym e) c.signed }

gather-IsConnected :
    (can_reserve : ℕ → Bool) (ci : ClientInfo) (fid : Option ℕ) (sequence : ℕ) (payload : List ℕ)
    (now : ℕ)
    → IsConnected ci
    → IsConnected (gather can_reserve ci fid sequence payload now).0
unfolding gather
gather-IsConnected can_reserve ci none sequence payload now c = c
gather-IsConnected can_reserve ci (some fid) sequence payload now c = elim (Bool-cases (fid == 0)) [
  | inl last ↦ rw last (
      IsConnected-by ci
        (reset_on_error (finish_fragmented_payload can_reserve ci sequence payload now)).0 c
        (reset_on_error-Inv (finish_fragmented_payload can_reserve ci sequence payload now)
          (finish-Inv can_reserve ci sequence payload now c.group))
        (reset_on_error-signature (finish_fragmented_payload can_reserve ci sequence payload now)
          ∙ finish-signature can_reserve ci sequence payload now))
  | inr more ↦ rw more (
      IsConnected-by ci (reset_on_error (cache_fragment ci fid sequence payload now)).0 c
        (reset_on_error-Inv (cache_fragment ci fid sequence payload now)
          (cache_fragment-Inv ci fid sequence payload now c.group))
        (reset_on_error-signature (cache_fragment ci fid sequence payload now)
          ∙ cache-signature ci fid sequence payload now))
]

module _ (setup : Setup) (keeps : KeepsClients setup) (env : Env) where
  answer-IsSound :
      (s : Server) (p : QPacket) (client : SocketAddr) (ci : ClientInfo)
      (result : Outcome Error (List ℕ)) (r : Server × ClientInfo)
      → IsSound s
      → IsConnected ci
      → answer setup s p client ci result ≡ ok r
      → IsSound r.0 × IsConnected r.1
  unfolding answer
  answer-IsSound s p client ci panic r v c e = cc
  answer-IsSound s p client ci (err x) r v c e =
      subst (λ (q : Server × ClientInfo). IsSound q.0 × IsConnected q.1) (ok-injective e) (v, c)
  answer-IsSound s p client ci (ok payload) r v c e =
      send_chunks-IsSound setup s client p ci (chunks (length payload) payload) r v c e

  call-IsSoundWorld :
      (p : QPacket) (found : Option StreamHandler) (world : World) (payload : List ℕ)
      → setup.handlers p.destination ≡ found
      → IsSoundWorld world
      → IsSoundWorld (call_handler setup found world payload).0
  unfolding call_handler
  call-IsSoundWorld p none world payload there w = w
  call-IsSoundWorld p (some handler) world payload there w =
      keeps p.destination handler world payload there w

  handled-IsSound :
      (s : Server) (world : World)
      → IsSound s
      → IsSoundWorld world
      → IsSound (handled setup s world)
  unfolding handled
  handled-IsSound s world v w = record { fresh = v.fresh; connected = w.others }

  deliver-IsSound :
      (s : Server) (p : QPacket) (client : SocketAddr) (ci : ClientInfo) (payload : Option (List ℕ))
      (r : Server × ClientInfo)
      → IsSound s
      → IsConnected ci
      → deliver setup s p client ci payload ≡ ok r
      → IsSound r.0 × IsConnected r.1
  unfolding deliver
  deliver-IsSound s p client ci none r v c e =
      subst (λ (q : Server × ClientInfo). IsSound q.0 × IsConnected q.1) (ok-injective e) (v, c)
  deliver-IsSound s p client ci (some payload) r v c e =
      let world : World = record { ci = ci; client_registry = s.client_registry; socket = [] } in
      let left =
        call-IsSoundWorld p (setup.handlers p.destination) world payload refl
          (record { own = c; others = v.connected }) in
      answer-IsSound _ p client _ _ r (handled-IsSound s _ v left) left.own e

  data-IsSound :
      (s s' : Server) (p : QPacket) (client : SocketAddr) (found : Option ClientInfo)
      → IsSound s
      → lookup p.signature s.client_registry.clients ≡ found
      → data_from setup env s p client found ≡ ok s'
      → IsSound s'
  unfolding data_from
  data-IsSound s s' p client none v there e = subst IsSound (ok-injective e) v
  data-IsSound s s' p client (some known) v there e =
      let c =
        seen-IsConnected known env.now
          (lookup-Each IsConnected p.signature known s.client_registry.clients v.connected there) in
      let (s1, e1, f1) = >>=-eq-ok (send_ack setup s client p (seen known env.now) false) _ e in
      let v1 = send_ack-IsSound setup s s1 client p (seen known env.now) false v e1 in
      let g =
        gather setup.can_reserve (seen known env.now) p.fragment_id p.sequence p.payload env.now in
      let (r, e2, f2) = >>=-eq-ok (deliver setup s1 p client g.0 g.1) _ f1 in
      let done =
        deliver-IsSound s1 p client g.0 g.1 r v1
          (gather-IsConnected setup.can_reserve (seen known env.now) p.fragment_id p.sequence
            p.payload env.now c)
          e2 in
      subst IsSound (ok-injective f2) (
        set_clients-IsSound r.0 _ done.0 (
          insert-Each IsConnected p.signature r.1 r.0.client_registry.clients done.1
            done.0.connected))

  disconnect-IsSound :
      (s s' : Server) (p : QPacket) (client : SocketAddr) (found : Option ClientInfo)
      → IsSound s
      → disconnect_from setup s p client found ≡ ok s'
      → IsSound s'
  unfolding disconnect_from
  disconnect-IsSound s s' p client none v e = subst IsSound (ok-injective e) v
  disconnect-IsSound s s' p client (some ci) v e =
      let left = remove p.signature s.client_registry.clients in
      let (s1, e1, f1) = >>=-eq-ok (send_ack setup (set_clients s left) client p ci false) _ e in
      let v1 =
        send_ack-IsSound setup (set_clients s left) s1 client p ci false
          (set_clients-IsSound s left v (remove-Each IsConnected p.signature _ v.connected)) e1 in
      elim (Bool-cases setup.disconnect_handler) [
        | inl told ↦
            subst IsSound (ok-injective (rw told at f1)) (emit-IsSound s1 (disconnected ci) v1)
        | inr silent ↦ subst IsSound (ok-injective (rw silent at f1)) v1
      ]

  ping-IsSound :
      (s s' : Server) (p : QPacket) (client : SocketAddr) (found : Option ClientInfo)
      → IsSound s
      → lookup p.signature s.client_registry.clients ≡ found
      → ping_from setup env s p client found ≡ ok s'
      → IsSound s'
  unfolding ping_from
  ping-IsSound s s' p client none v there e = subst IsSound (ok-injective e) v
  ping-IsSound s s' p client (some known) v there e =
      let c =
        seen-IsConnected known env.now
          (lookup-Each IsConnected p.signature known s.client_registry.clients v.connected there) in
      send_ack-IsSound setup _ s' client p (seen known env.now) false
        (set_clients-IsSound s _ v (
          insert-Each IsConnected p.signature (seen known env.now) s.client_registry.clients c
            v.connected))
        e

  type-IsSound :
      (s s' : Server) (p : QPacket) (client : SocketAddr) (t : PacketType)
      → IsSound s
      → handle_type setup env s p client t ≡ ok s'
      → IsSound s'
  unfolding handle_type handle_data handle_connect
  type-IsSound s s' p client syn v e = syn-IsSound setup env s s' p client v e
  type-IsSound s s' p client connect v e =
      connect-IsSound setup env s s' p client p.conn_signature v e
  type-IsSound s s' p client data_packet v e = data-IsSound s s' p client _ v refl e
  type-IsSound s s' p client disconnect v e = disconnect-IsSound s s' p client _ v e
  type-IsSound s s' p client ping v e = ping-IsSound s s' p client _ v refl e
  type-IsSound s s' p client user v e = elim (Bool-cases setup.user_handler) [
    | inl told ↦
        subst IsSound (ok-injective (rw told at e)) (emit-IsSound s (user_packet p client) v)
    | inr silent ↦ subst IsSound (ok-injective (rw silent at e)) v
  ]
  type-IsSound s s' p client route v e = cc
  type-IsSound s s' p client raw v e = cc

  -- Handling a packet keeps the clients sound: those that only sent a SYN have a well-formed
  -- fragment group, and those that connected have one and a client signature. The stream handlers keep their
  -- client so.
  pub handle_packet-IsSound :
      (s s' : Server) (p : QPacket) (client : SocketAddr)
      → IsSound s
      → handle_packet setup env s p client ≡ ok s'
      → IsSound s'
  unfolding handle_packet
  handle_packet-IsSound s s' p client v e = elim (Bool-cases (contains p.flags ack)) [
    | inl acked ↦ subst IsSound (ok-injective (rw acked at e)) v
    | inr other ↦ type-IsSound s s' p client p.packet_type v (rw other at e)
  ]
