-- ===== src/Server/Reach.antt =====
-- server/quazal/src/prudp.rs: the loop of `serve`, as steps between the states of the server. A round
-- that a panic ends is no step.
use scbl.Prelude.{
  ℕ, zero, suc, ◌≤◌, ◌≡◌, List, [], ◌∷◌, length, take, drop, Outcome, ok, err, panic, >>=-eq-ok,
  ok-injective, subst, IsBytes,
}
use scbl.Client.{SocketAddr, ClientInfo}
use scbl.Packet.{Error, QPacket}
use scbl.Packet.Decode.{validate}
use scbl.Server.{Server, Setup, Env, Output, new_server}
use scbl.Server.Steps.{is_stale, sweep, clear_clients, handle_valid, handle_parsed, handle_datagram}
use scbl.Server.Clients.{Each, IsConnected, IsSound, KeepsClients}
use scbl.Server.Packets.{handle_packet-IsSound}
use scbl.Prelude.{Bool-cases, inl, inr}

-- The size of the buffer that `recv_from` fills.
abbrev pub buffer_size : ℕ
buffer_size = 1024

-- A round of the loop: a datagram, or a read that timed out or failed.
pub data Round (setup : Setup) (s s' : Server) : Type 0 where
  received :
      (env : ℕ → Env) (client : SocketAddr) (bytes : List ℕ)
      → IsBytes bytes
      → length bytes ≤ buffer_size
      → handle_datagram setup env (length bytes) client s bytes ≡ ok s'
      → Round setup s s'
  timed_out : (env : Env) → clear_clients setup env s ≡ s' → Round setup s s'
  failed : s ≡ s' → Round setup s s'

-- The states that the loop comes to from `Server::new`.
pub data Reach (setup : Setup) : Server → Type 0 where
  start : Reach setup new_server
  next : {s s' : Server} → Reach setup s → Round setup s s' → Reach setup s'

module _ (P : ClientInfo → Type 0) (setup : Setup) where
  -- A sweep only removes clients.
  sweep-Each :
      (now : ℕ) (clients : List (ℕ × ClientInfo)) (ids : List (ℕ × ℕ)) (out : List Output)
      → Each P clients
      → Each P (sweep setup now clients ids out).0
  unfolding sweep
  sweep-Each now [] ids out h = tt
  sweep-Each now ((k, ci) ∷ clients) ids out h = elim (Bool-cases (is_stale now ci)) [
    | inl stale ↦ rw stale (sweep-Each now clients _ _ h.1)
    | inr fresh ↦ rw fresh (h.0, sweep-Each now clients _ _ h.1)
  ]

clear_clients-IsSound :
    (setup : Setup) (env : Env) (s : Server) → IsSound s → IsSound (clear_clients setup env s)
unfolding clear_clients
clear_clients-IsSound setup env s v = record {
  fresh = v.fresh;
  connected =
      sweep-Each IsConnected setup env.now s.client_registry.clients
        s.client_registry.connection_id_session_ids s.output v.connected;
}

module _ (setup : Setup) (keeps : KeepsClients setup) where
  valid-IsSound :
      (env : Env) (s s' : Server) (p : QPacket) (client : SocketAddr)
      (checked : Outcome Error (Unit {0}))
      → IsSound s
      → handle_valid setup env s p client checked ≡ ok s'
      → IsSound s'
  unfolding handle_valid
  valid-IsSound env s s' p client panic v e = cc
  valid-IsSound env s s' p client (err x) v e = subst IsSound (ok-injective e) v
  valid-IsSound env s s' p client (ok u) v e =
      handle_packet-IsSound setup keeps env s s' p client v e

  parsed-IsSound :
      (rest : Server → List ℕ → Outcome Error Server) (env : Env) (s s' : Server) (bytes : List ℕ)
      (client : SocketAddr) (r : Outcome Error (QPacket × ℕ))
      → ((s1 s2 : Server) (left : List ℕ) → IsSound s1 → rest s1 left ≡ ok s2 → IsSound s2)
      → IsSound s
      → handle_parsed setup rest env s bytes client r ≡ ok s'
      → IsSound s'
  unfolding handle_parsed
  parsed-IsSound rest env s s' bytes client panic h v e = cc
  parsed-IsSound rest env s s' bytes client (err x) h v e = subst IsSound (ok-injective e) v
  parsed-IsSound rest env s s' bytes client (ok (p, n)) h v e =
      let (s1, e1, f1) =
        >>=-eq-ok
          (handle_valid setup env s p client (validate setup.bo setup.z setup.ctx p (take n bytes)))
          _ e in
      h s1 s' (drop n bytes) (valid-IsSound env s s1 p client _ v e1) f1

  datagram-IsSound :
      (env : ℕ → Env) (fuel : ℕ) (client : SocketAddr) (s s' : Server) (bytes : List ℕ)
      → IsSound s
      → handle_datagram setup env fuel client s bytes ≡ ok s'
      → IsSound s'
  unfolding handle_datagram
  datagram-IsSound env zero client s s' bytes v e = subst IsSound (ok-injective e) v
  datagram-IsSound env (suc fuel) client s s' [] v e = subst IsSound (ok-injective e) v
  datagram-IsSound env (suc fuel) client s s' (b ∷ bytes) v e =
      parsed-IsSound (handle_datagram setup env fuel client) _ s s' (b ∷ bytes) client _
        (λ s1 s2 left. datagram-IsSound env fuel client s1 s2 left) v e

  Round-IsSound : {s s' : Server} → Round setup s s' → IsSound s → IsSound s'
  Round-IsSound (received env client bytes h small e) v =
      datagram-IsSound env (length bytes) client _ _ bytes v e
  Round-IsSound (timed_out env e) v = subst IsSound e (clear_clients-IsSound setup env _ v)
  Round-IsSound (failed e) v = subst IsSound e v

  -- In every state that the server's loop reaches from `Server::new`, over datagrams of any content
  -- and reads that time out or fail, the clients that only sent a SYN have a well-formed fragment
  -- group, and those that connected have one and a client signature. The stream handlers keep
  -- their client and those of the registry so.
  pub Reach-IsSound : {s : Server} → Reach setup s → IsSound s
  unfolding new_server
  Reach-IsSound start = record { fresh = tt; connected = tt }
  Reach-IsSound (next r step) = Round-IsSound step (Reach-IsSound r)
