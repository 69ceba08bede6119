-- ===== src/Server/Clients.antt =====
-- The clients in the server's maps: every one has a well-formed fragment group, and every client
-- that is registered has a client signature.
use scbl.Prelude.{
  ℕ, ◌==◌, ◌≡◌, Bool, List, [], ◌∷◌, Option, none, some, ok, >>=-eq-ok, ok-injective, subst,
  Bool-cases, inl, inr,
}
use scbl.Prelude.Maps.{lookup, insert, remove}
use scbl.Client.{SocketAddr, ClientInfo, World, seen}
use scbl.Packet.{QPacket, VPort}
use scbl.Packet.Encode.{to_bytes}
use scbl.Fragment.Invariant.{Inv}
use scbl.Server.{
  Server, Setup, StreamHandler, Output, sent, emit, set_clients, prepare, send_packet, send_ack,
  send_response, send_chunks, complete_response,
}

module _ (P : ClientInfo → Type 0) where
  abbrev pub Each : List (ℕ × ClientInfo) → Type 0
  Each [] = Unit {0}
  Each ((k, ci) ∷ m) = P ci × Each m

  pub insert-Each :
      (k : ℕ) (ci : ClientInfo) (m : List (ℕ × ClientInfo)) → P ci → Each m → Each (insert k ci m)
  unfolding insert
  insert-Each k ci [] p h = (p, tt)
  insert-Each k ci ((j, other) ∷ m) p h = elim (Bool-cases (j == k)) [
    | inl hit ↦ rw hit (p, h.1)
    | inr miss ↦ rw miss (h.0, insert-Each k ci m p h.1)
  ]

  pub remove-Each : (k : ℕ) (m : List (ℕ × ClientInfo)) → Each m → Each (remove k m)
  unfolding remove
  remove-Each k [] h = tt
  remove-Each k ((j, other) ∷ m) h = elim (Bool-cases (j == k)) [
    | inl hit ↦ rw hit (remove-Each k m h.1)
    | inr miss ↦ rw miss (h.0, remove-Each k m h.1)
  ]

  pub lookup-Each :
      (k : ℕ) (ci : ClientInfo) (m : List (ℕ × ClientInfo)) → Each m → lookup k m ≡ some ci → P ci
  unfolding lookup
  lookup-Each k ci [] h e = cc
  lookup-Each k ci ((j, other) ∷ m) h e = elim (Bool-cases (j == k)) [
    | inl hit ↦ (let same : other ≡ ci = cc (rw hit at e) in subst P same h.0)
    | inr miss ↦ lookup-Each k ci m h.1 (rw miss at e)
  ]

abbrev pub HasValue : Option ℕ → Type 0
HasValue none = ⊥
HasValue (some v) = Unit {0}

pub record IsConnected (ci : ClientInfo) : Type 0 where
  pub group : Inv ci
  pub signed : HasValue ci.client_signature

pub record IsSound (s : Server) : Type 0 where
  pub fresh : Each Inv s.new_clients
  pub connected : Each IsConnected s.client_registry.clients

-- A handler's own client, and those of the registry.
pub record IsSoundWorld (world : World) : Type 0 where
  pub own : IsConnected world.ci
  pub others : Each IsConnected world.client_registry.clients

-- What the server expects of a stream handler.
abbrev pub KeepsClients : Setup → Type 0
KeepsClients setup =
    (port : VPort) (handler : StreamHandler) (world : World) (bytes : List ℕ)
    → setup.handlers port ≡ some handler
    → IsSoundWorld world
    → IsSoundWorld (handler setup.ctx world bytes).0

pub seen-Inv : (ci : ClientInfo) (now : ℕ) → Inv ci → Inv (seen ci now)
unfolding seen
seen-Inv ci now v = record {
  ids = v.ids;
  distinct = v.distinct;
  counted = v.counted;
  bounded = v.bounded;
  timed = v.timed;
  named = v.named;
}

pub emit-IsSound : (s : Server) (o : Output) → IsSound s → IsSound (emit s o)
emit-IsSound s o v = record { fresh = v.fresh; connected = v.connected }

pub set_clients-IsSound :
    (s : Server) (clients : List (ℕ × ClientInfo))
    → IsSound s
    → Each IsConnected clients
    → IsSound (set_clients s clients)
set_clients-IsSound s clients v h = record { fresh = v.fresh; connected = h }

module _ (setup : Setup) where
  pub send_packet-IsSound :
      (s s' : Server) (src : SocketAddr) (p : QPacket)
      → IsSound s
      → send_packet setup s src p ≡ ok s'
      → IsSound s'
  unfolding send_packet
  send_packet-IsSound s s' src p v e =
      let (bytes, e1, f1) = >>=-eq-ok (to_bytes setup.bo setup.z setup.ctx (prepare p)) _ e in
      subst IsSound (ok-injective f1) (emit-IsSound s (sent src bytes) v)

  pub send_ack-IsSound :
      (s s' : Server) (src : SocketAddr) (p : QPacket) (ci : ClientInfo) (keep : Bool)
      → IsSound s
      → send_ack setup s src p ci keep ≡ ok s'
      → IsSound s'
  unfolding send_ack
  send_ack-IsSound s s' src p ci keep v e = send_packet-IsSound s s' src _ v e

  send_response-IsSound :
      (s : Server) (src : SocketAddr) (p : QPacket) (ci : ClientInfo) (r : Server × ClientInfo)
      → IsSound s
      → IsConnected ci
      → send_response setup s src p ci ≡ ok r
      → IsSound r.0 × IsConnected r.1
  unfolding send_response
  send_response-IsSound s src p ci r v c e =
      let (s', e1, f1) = >>=-eq-ok (send_packet setup s src (complete_response p ci)) _ e in
      subst (λ (q : Server × ClientInfo). IsSound q.0 × IsConnected q.1) (ok-injective f1)
        (
          send_packet-IsSound s s' src _ v e1,
          record {
            group = record {
              ids = c.group.ids;
              distinct = c.group.distinct;
              counted = c.group.counted;
              bounded = c.group.bounded;
              timed = c.group.timed;
              named = c.group.named;
            };
            signed = c.signed;
          },
        )

  pub send_chunks-IsSound :
      (s : Server) (src : SocketAddr) (p : QPacket) (ci : ClientInfo) (parts : List (List ℕ))
      (r : Server × ClientInfo)
      → IsSound s
      → IsConnected ci
      → send_chunks setup s src p ci parts ≡ ok r
      → IsSound r.0 × IsConnected r.1
  unfolding send_chunks
  send_chunks-IsSound s src p ci [] r v c e =
      subst (λ (q : Server × ClientInfo). IsSound q.0 × IsConnected q.1) (ok-injective e) (v, c)
  send_chunks-IsSound s src p ci (chunk ∷ rest) r v c e =
      let (q, e1, f1) = >>=-eq-ok (send_response setup s src _ ci) _ e in
      let one = send_response-IsSound s src _ ci q v c e1 in
      send_chunks-IsSound q.0 src p q.1 rest r one.0 one.1 f1
