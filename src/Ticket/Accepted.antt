-- ===== src/Ticket/Accepted.antt =====
-- The ticket that the login server issues, at the CONNECT to the secure server.
use scbl.Prelude.{
  ◌>>=◌, ℕ, ◌-◌, ◌+◌, ◌%◌, ◌^◌, ◌<◌, ◌≤◌, ◌≡◌, refl, ap, ◌∙◌, ltb, le→ltb, true, false, List, [],
  ◌∷◌, ◌++◌, append-nil, length, some, Outcome, ok, All, IsBytes, arith,
}
use scbl.Prelude.Maps.{lookup, insert, lookup-insert}
use scbl.ByteOrder.Laws.{read_u8_cons}
use scbl.Client.{ClientInfo}
use scbl.Rc4.Keystream.{crypt_key_total}
use scbl.Packet.{Error}
use scbl.Kerberos.{nonce_bytes, session_key_size, seal}
use scbl.Kerberos.Laws.{IsTicket, open_ticket-seal}
use scbl.Stream.{FromStreamError, read_u8, read_vec, write_vec, max_collection_items}
use scbl.Stream.Laws.{ReadsBack, read_vec-write_vec}
use scbl.Server.Requests.{client_by_connection_id}
use scbl.Server.{Server, Setup, Env}
use scbl.Server.Connect.{
  open_payload_ticket, check_ticket, accept_ticket, read_challenge, challenge_response,
}
use scbl.Ticket.{Issuer, ticket_for}

bytes_back :
    (setup : Setup) (bytes : List ℕ)
    → IsBytes bytes
    → All (ReadsBack (read_u8 setup.bo) (λ b. b ∷ [])) bytes
unfolding read_u8
bytes_back setup [] h = tt
bytes_back setup (b ∷ bytes) h =
    ((λ rest. rw (read_u8_cons setup.bo b rest h.0) refl), bytes_back setup bytes h.1)

-- What the client sends in a CONNECT: its sealed ticket and the request under the session key.
abbrev pub sealed_ticket : Issuer → ℕ → List ℕ
sealed_ticket is user_id = seal is.box (ticket_for is user_id 0).internal is.nonce is.ticket_key

abbrev pub connect_payload : Issuer → ℕ → List ℕ → List ℕ
connect_payload is user_id request =
    write_vec (λ b. b ∷ []) (sealed_ticket is user_id) ++ write_vec (λ b. b ∷ []) request

-- An issuer of the secure server's own tickets.
pub record IsIssuer (setup : Setup) (is : Issuer) : Type 0 where
  pub same_box : setup.box ≡ is.box
  pub same_key : setup.ctx.ticket_key ≡ is.ticket_key
  pub key_size : length is.session_key ≡ session_key_size
  pub nonce_size : length is.nonce ≡ nonce_bytes

module _ (setup : Setup) (is : Issuer) (w : IsIssuer setup is)
    (room : (size : ℕ) → setup.can_reserve size ≡ true) where
  buffers_back :
      (bytes rest : List ℕ)
      → IsBytes bytes
      → length bytes ≤ max_collection_items
      → read_vec setup.bo setup.can_reserve
          (read_u8 setup.bo)
          (write_vec (λ b. b ∷ []) bytes ++ rest)
        ≡ ok (bytes, rest)
  buffers_back bytes rest h small =
      read_vec-write_vec setup.bo setup.can_reserve room (read_u8 setup.bo) (λ b. b ∷ []) bytes rest
        (bytes_back setup bytes h) small

  payload_opened :
      (user_id : ℕ) (request : List ℕ)
      → user_id < 2 ^ 32
      → IsBytes (sealed_ticket is user_id)
      → length (sealed_ticket is user_id) ≤ max_collection_items
      → IsBytes request
      → length request ≤ max_collection_items
      → open_payload_ticket setup (connect_payload is user_id request)
        ≡ ok ((ticket_for is user_id 0).internal, request)
  unfolding open_payload_ticket
  payload_opened user_id request u hb short hr few =
      let t = (ticket_for is user_id 0).internal in
      let in_range : IsTicket t =
        (unfold ticket_for in
          record { principal = u; until = omega arith; key_size = w.key_size }) in
      let opened =
        open_ticket-seal setup.bo setup.can_reserve room is.box t is.nonce is.ticket_key in_range
          w.nonce_size in
      let second =
        rw (append-nil (write_vec (λ b. b ∷ []) request)) at (buffers_back request [] hr few) in
      rw
        (
          buffers_back (sealed_ticket is user_id) (write_vec (λ b. b ∷ []) request) hb short,
          second,
          w.same_box,
          w.same_key,
          opened,
        )
        refl

  opened_accepted :
      (env : Env) (s : Server) (ci : ClientInfo) (signature user_id : ℕ) (request : List ℕ)
      → env.unix_seconds < 2 ^ 64
      → (r : Server × ClientInfo × Outcome FromStreamError (List ℕ)) × (ci' : ClientInfo)
        × (check_ticket setup env s ci signature (ok ((ticket_for is user_id 0).internal, request))
            ≡ ok r)
        × (lookup signature r.0.client_registry.clients ≡ some ci')
        × (ci'.user_id ≡ some user_id)
        × (ci'.connection_id ≡ some s.next_conn_id)
        × (client_by_connection_id r.0.client_registry s.next_conn_id ≡ some ci')
  unfolding check_ticket accept_ticket ticket_for client_by_connection_id
  opened_accepted env s ci signature user_id request h =
      let fresh : ltb (2 ^ 64 - 1) env.unix_seconds ≡ false = le→ltb _ _ (omega (arith, h)) in
      let (plain, deciphered) =
        crypt_key_total {E = Error} is.session_key request
          (omega (arith, w.key_size), omega (arith, w.key_size)) in
      let ci' = record ci { user_id = some user_id; connection_id = some s.next_conn_id } in
      let s' = record s {
        next_conn_id = (s.next_conn_id + 1) % 2 ^ 32;
        client_registry = record {
          clients = insert signature ci' s.client_registry.clients;
          connection_id_session_ids =
              insert s.next_conn_id signature s.client_registry.connection_id_session_ids;
        };
      } in
      let known : lookup signature s'.client_registry.clients ≡ some ci' =
        lookup-insert signature signature _ s.client_registry.clients ∙ ground arith in
      let led : lookup s.next_conn_id s'.client_registry.connection_id_session_ids
          ≡ some signature =
        lookup-insert s.next_conn_id s.next_conn_id signature
          s.client_registry.connection_id_session_ids
        ∙ ground arith in
      (
        (s', ci', read_challenge setup plain >>= λ challenge. ok (challenge_response challenge)),
        ci',
        rw (fresh, deciphered) refl,
        known,
        refl,
        refl,
        rw led known,
      )

  -- The ticket that the login server issues for a user is accepted at the CONNECT to the secure server
  -- that shares its key, at any time that 64 bits can hold: the client is registered under its
  -- signature as that user and gets the next connection id, by which it is found. The session key has 16
  -- bytes, the nonce 24, the sealed ticket and the request are at most 65536 bytes each, and every
  -- allocation is granted.
  pub ticket_accepted :
      (env : Env) (s : Server) (ci : ClientInfo) (signature user_id : ℕ) (request : List ℕ)
      → user_id < 2 ^ 32
      → IsBytes (sealed_ticket is user_id)
      → length (sealed_ticket is user_id) ≤ max_collection_items
      → IsBytes request
      → length request ≤ max_collection_items
      → env.unix_seconds < 2 ^ 64
      → (r : Server × ClientInfo × Outcome FromStreamError (List ℕ)) × (ci' : ClientInfo)
        × (check_ticket setup env s ci signature
              (open_payload_ticket setup (connect_payload is user_id request))
            ≡ ok r)
        × (lookup signature r.0.client_registry.clients ≡ some ci')
        × (ci'.user_id ≡ some user_id)
        × (ci'.connection_id ≡ some s.next_conn_id)
        × (client_by_connection_id r.0.client_registry s.next_conn_id ≡ some ci')
  ticket_accepted env s ci signature user_id request u hb short hr few h =
      let opened = payload_opened user_id request u hb short hr few in
      let (r, ci', e, known, user, id, leads) =
        opened_accepted env s ci signature user_id request h in
      (r, ci', ap (check_ticket setup env s ci signature) opened ∙ e, known, user, id, leads)
