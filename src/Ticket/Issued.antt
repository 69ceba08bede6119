-- ===== src/Ticket/Issued.antt =====
-- Who gets a ticket, and what the ticket is good for at the secure server.
use scbl.Prelude.{
  ℕ, ==_iff, ◌≡◌, refl, ap, true, List, Option, none, some, Outcome, ok, err, panic, ok-injective,
  subst, Bool-cases, inl, inr,
}
use scbl.Client.{ClientInfo}
use scbl.Kerberos.Outer.{as_bytes}
use scbl.Stream.{FromStreamError}
use scbl.Ticket.{
  server_pid, Accounts, Issuer, Response, RequestTicketResponse, login_response,
  request_ticket_response, ticket_for, response_of, issue, set_user, is_user, logged_in, login_ex,
  request_with, request_ticket,
}

-- The bytes are a ticket for a user, as whom the client is logged in.
pub record IsIssued (is : Issuer) (ci : ClientInfo) (user_id : ℕ) (bytes : List ℕ) : Type 0 where
  pub user : ci.user_id ≡ some user_id
  pub target : ℕ
  pub password : Option (List ℕ)
  pub ticket :
      as_bytes is.hashes is.box
        (ticket_for is user_id target)
        user_id
        password
        is.nonce
        is.ticket_key
      ≡ ok bytes

response-ok :
    {R : Type 0} (make : List ℕ → R) (bytes : Outcome FromStreamError (List ℕ)) (r : R)
    → response_of make bytes ≡ ok r
    → (sealed : List ℕ) × (bytes ≡ ok sealed) × (make sealed ≡ r)
unfolding response_of
response-ok make panic r e = cc
response-ok make (err x) r e = cc
response-ok make (ok bytes) r e = (bytes, refl, ok-injective e)

module _ {S : Type 0} (accounts : Accounts S) (is : Issuer) where
  issue-IsIssued :
      {R : Type 0} (make : List ℕ → R) (s : S) (ci : ClientInfo) (user_id target : ℕ)
      (password : Option (List ℕ)) (r : R)
      → ci.user_id ≡ some user_id
      → (issue accounts is make s ci user_id target password).2 ≡ ok r
      → (sealed : List ℕ) × IsIssued is ci user_id sealed × (make sealed ≡ r)
  unfolding issue
  issue-IsIssued make s ci user_id target password r known e =
      let (sealed, there, same) = response-ok make _ r e in
      (sealed, record { user = known; target = target; password = password; ticket = there }, same)

  logged_in-IsIssued :
      (ci : ClientInfo) (found : S × Option (Option ℕ)) (r : Response)
      → (logged_in accounts is ci found).2 ≡ ok r
      → IsIssued is (logged_in accounts is ci found).1 r.pid_principal r.pbuf_response
        × (found.1 ≡ some (some r.pid_principal))
  unfolding logged_in set_user issue
  logged_in-IsIssued ci (s, none) r e = cc
  logged_in-IsIssued ci (s, some none) r e = cc
  logged_in-IsIssued ci (s, some (some user_id)) r e =
      let (sealed, done, same) =
        issue-IsIssued (login_response user_id) s (set_user ci user_id) user_id server_pid none r
          refl e in
      subst
        (λ (q : Response).
          IsIssued is (set_user ci user_id) q.pid_principal q.pbuf_response
          × ◌≡◌ {A = Option (Option ℕ)} (some (some user_id)) (some (some q.pid_principal)))
        same (done, refl)

  -- `login_ex` answers with a ticket only where the storage accepts the name and the password, and the
  -- ticket is for the user that it names, as whom the client is logged in then.
  pub login_ex-IsIssued :
      (s : S) (ci : ClientInfo) (username password : List ℕ) (r : Response)
      → (login_ex accounts is s ci username password).2 ≡ ok r
      → IsIssued is (login_ex accounts is s ci username password).1 r.pid_principal r.pbuf_response
        × ((accounts.login_user s username password).1 ≡ some (some r.pid_principal))
  unfolding login_ex
  login_ex-IsIssued s ci username password r e =
      logged_in-IsIssued ci (accounts.login_user s username password) r e

  request_with-IsIssued :
      (s : S) (ci : ClientInfo) (user_id target : ℕ) (password : Option (Option (List ℕ)))
      (r : RequestTicketResponse)
      → ci.user_id ≡ some user_id
      → (request_with accounts is s ci user_id target password).2 ≡ ok r
      → IsIssued is ci user_id r.buf_response
  unfolding request_with
  request_with-IsIssued s ci user_id target none r known e = cc
  request_with-IsIssued s ci user_id target (some password) r known e =
      let (sealed, done, same) =
        issue-IsIssued request_ticket_response s ci user_id target password r known e in
      subst (λ (q : RequestTicketResponse). IsIssued is ci user_id q.buf_response) same done

  is_user-known :
      (found : Option ℕ) (user_id : ℕ) → is_user found user_id ≡ true → found ≡ some user_id
  unfolding is_user
  is_user-known none user_id e = cc
  is_user-known (some uid) user_id e = ap some ((==_iff uid user_id).0 e)

  -- `request_ticket` answers with a ticket only for the user that the client is logged in as, and that
  -- is the user whom the request names.
  pub request_ticket-IsIssued :
      (s : S) (ci : ClientInfo) (user_id server_id : ℕ) (r : RequestTicketResponse)
      → (request_ticket accounts is s ci user_id server_id).2 ≡ ok r
      → IsIssued is ci user_id r.buf_response
  unfolding request_ticket
  request_ticket-IsIssued s ci user_id server_id r e =
      elim (Bool-cases (is_user ci.user_id user_id)) [
        | inl own ↦
            request_with-IsIssued s ci user_id server_id _ r (is_user-known ci.user_id user_id own)
              (rw own at e)
        | inr other ↦ cc (rw other at e)
      ]
