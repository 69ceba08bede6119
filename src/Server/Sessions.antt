-- ===== src/Server/Sessions.antt =====
-- SYN and CONNECT packets keep the server's clients sound.
use scbl.Prelude.{
  ℕ, ltb, ◌≡◌, refl, false, List, is_empty, Option, none, some, Outcome, ok, err, panic, >>=-eq-ok,
  ok-injective, subst, Bool-cases, inl, inr,
}
use scbl.Prelude.Maps.{lookup, insert}
use scbl.Rc4.{crypt_key}
use scbl.Client.{SocketAddr, ClientInfo, new_client}
use scbl.Packet.{QPacket}
use scbl.Fragment.Invariant.{Inv, new_client-Inv}
use scbl.Kerberos.{KerberosTicketInternal}
use scbl.Stream.{FromStreamError}
use scbl.Server.{Server, Setup, Env}
use scbl.Server.Connect.{
  handle_syn, connect_with, register_client, answer_connect, check_ticket, accept_ticket,
  open_payload_ticket,
}
use scbl.Server.Clients.{
  insert-Each, remove-Each, lookup-Each, IsConnected, IsSound, send_ack-IsSound,
}

module _ (setup : Setup) (env : Env) where
  pub syn-IsSound :
      (s s' : Server) (p : QPacket) (client : SocketAddr)
      → IsSound s
      → handle_syn setup env s p client ≡ ok s'
      → IsSound s'
  unfolding handle_syn
  syn-IsSound s s' p client v e =
      let ci = new_client client env.signature env.now in
      send_ack-IsSound setup (record s { new_clients = insert env.signature ci s.new_clients }) s'
        client _ ci false
        (record {
          fresh =
              insert-Each Inv env.signature ci s.new_clients
                (new_client-Inv client env.signature env.now) v.fresh;
          connected = v.connected;
        })
        e

  accept-IsSound :
      (s : Server) (ci : ClientInfo) (signature : ℕ) (ti : KerberosTicketInternal) (bytes : List ℕ)
      (r : Server × ClientInfo × Outcome FromStreamError (List ℕ))
      → IsSound s
      → IsConnected ci
      → accept_ticket setup s ci signature ti bytes ≡ ok r
      → IsSound r.0
  unfolding accept_ticket
  accept-IsSound s ci signature ti bytes r v c e =
      let (plain, e1, f1) = >>=-eq-ok (crypt_key ti.session_key bytes) _ e in
      subst (λ (q : Server × ClientInfo × Outcome FromStreamError (List ℕ)). IsSound q.0)
        (ok-injective f1)
        (record {
          fresh = v.fresh;
          connected =
              insert-Each IsConnected signature _ s.client_registry.clients
                (record {
                  group = record {
                    ids = c.group.ids;
                    distinct = c.group.distinct;
                    counted = c.group.counted;
                    bounded = c.group.bounded;
                    timed = c.group.timed;
                    named = c.group.named;
                  };
                  signed = c.signed;
                })
                v.connected;
        })

  check-IsSound :
      (s : Server) (ci : ClientInfo) (signature : ℕ)
      (ticket : Outcome FromStreamError (KerberosTicketInternal × List ℕ))
      (r : Server × ClientInfo × Outcome FromStreamError (List ℕ))
      → IsSound s
      → IsConnected ci
      → check_ticket setup env s ci signature ticket ≡ ok r
      → IsSound r.0
  unfolding check_ticket
  check-IsSound s ci signature panic r v c e = cc
  check-IsSound s ci signature (err x) r v c e =
      subst (λ (q : Server × ClientInfo × Outcome FromStreamError (List ℕ)). IsSound q.0)
        (ok-injective e) v
  check-IsSound s ci signature (ok (ti, bytes)) r v c e =
      elim (Bool-cases (ltb ti.valid_until env.unix_seconds)) [
        | inl old ↦
            subst (λ (q : Server × ClientInfo × Outcome FromStreamError (List ℕ)). IsSound q.0)
              (ok-injective (rw old at e)) v
        | inr valid ↦ accept-IsSound s ci signature ti bytes r v c (rw valid at e)
      ]

  answer_connect-IsSound :
      (s s' : Server) (p : QPacket) (client : SocketAddr) (ci : ClientInfo)
      → IsSound s
      → IsConnected ci
      → answer_connect setup env s p client ci ≡ ok s'
      → IsSound s'
  unfolding answer_connect
  answer_connect-IsSound s s' p client ci v c e = elim (Bool-cases (is_empty p.payload)) [
    | inl empty ↦ send_ack-IsSound setup s s' client _ ci _ v (rw empty at e)
    | inr full ↦
        let (r, e1, f1) =
          >>=-eq-ok (check_ticket setup env s ci p.signature (open_payload_ticket setup p.payload))
            _ (rw full at e) in
        send_ack-IsSound setup r.0 s' client _ r.1 _
          (check-IsSound s ci p.signature (open_payload_ticket setup p.payload) r v c e1) f1
  ]

  register-IsSound :
      (s s' : Server) (p : QPacket) (client : SocketAddr) (signature : ℕ)
      (found : Option ClientInfo)
      → IsSound s
      → lookup p.signature s.new_clients ≡ found
      → register_client setup env s p client signature found ≡ ok s'
      → IsSound s'
  unfolding register_client
  register-IsSound s s' p client signature none v there e = subst IsSound (ok-injective e) v
  register-IsSound s s' p client signature (some ci) v there e =
      let g = lookup-Each Inv p.signature ci s.new_clients v.fresh there in
      let c : IsConnected (record ci {
        client_signature = some signature;
        server_session = env.session;
        client_session = p.session_id;
      }) =
        record {
          group = record {
            ids = g.ids;
            distinct = g.distinct;
            counted = g.counted;
            bounded = g.bounded;
            timed = g.timed;
            named = g.named;
          };
          signed = tt;
        } in
      answer_connect-IsSound _ s' p client _
        (record {
          fresh = remove-Each Inv p.signature s.new_clients v.fresh;
          connected = insert-Each IsConnected p.signature _ s.client_registry.clients c v.connected;
        })
        c e

  pub connect-IsSound :
      (s s' : Server) (p : QPacket) (client : SocketAddr) (signature : Option ℕ)
      → IsSound s
      → connect_with setup env s p client signature ≡ ok s'
      → IsSound s'
  unfolding connect_with
  connect-IsSound s s' p client none v e = subst IsSound (ok-injective e) v
  connect-IsSound s s' p client (some signature) v e =
      register-IsSound s s' p client signature (lookup p.signature s.new_clients) v refl e
