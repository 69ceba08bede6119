-- ===== src/Ticket.antt =====
-- server/dedicated-server/src/ticket.rs: the handlers that log a user in and issue tickets. The
-- storage is an interface over a state `S`; `none` is a failed query. The session key and the nonce
-- are random and arguments, and the connection data of an answer is left out.
pub mod Issued
pub mod Accepted
mod Tests
use scbl.Prelude.{
  ℕ, ◌-◌, ◌^◌, ◌==◌, Bool, true, false, List, Option, none, some, Outcome, ok, err, panic,
  if◌then◌else◌,
}
use scbl.Client.{ClientInfo}
use scbl.Rmc.{Error, internal_error, access_denied, parsing_error}
use scbl.Kerberos.{SecretBox, KerberosTicketInternal}
use scbl.Kerberos.Outer.{KerberosTicket, Hashes, as_bytes}
use scbl.Stream.{FromStreamError}

-- The calls that the handlers make. `login_user` returns no user for a wrong name or password.
pub record Accounts (S : Type 0) : Type 0 where
  pub find_user_id_by_name : S → List ℕ → Option (Option ℕ)
  pub find_password_for_user : S → ℕ → Option (Option (List ℕ))
  pub login_user : S → List ℕ → List ℕ → S × Option (Option ℕ)
  pub create_user_session : S → ℕ → List ℕ → S

-- What does not change, and the random values of one call.
pub record Issuer : Type 0 where
  pub hashes : Hashes
  pub box : SecretBox
  pub ticket_key : List ℕ
  pub session_key : List ℕ
  pub nonce : List ℕ

-- The answer of `login` and `login_ex`.
pub record Response : Type 0 where
  pub pid_principal : ℕ
  pub pbuf_response : List ℕ

pub record RequestTicketResponse : Type 0 where
  pub buf_response : List ℕ

abbrev pub server_pid : ℕ
server_pid = 0x1000

-- The ticket for a user: it is valid for ever.
unfoldable pub ticket_for : Issuer → ℕ → ℕ → KerberosTicket
ticket_for is user_id pid = record {
  session_key = is.session_key;
  pid = pid;
  internal = record {
    principle_id = user_id;
    valid_until = 2 ^ 64 - 1;
    session_key = is.session_key;
  };
}

-- `as_bytes`; it panics where the derived key is no key of the cipher.
unfoldable pub response_of {ℓ} :
    {R : Type ℓ} → (List ℕ → R) → Outcome FromStreamError (List ℕ) → Outcome Error R
response_of make panic = panic
response_of make (err e) = panic
response_of make (ok bytes) = ok (make bytes)

abbrev pub login_response : ℕ → List ℕ → Response
login_response user_id bytes = record { pid_principal = user_id; pbuf_response = bytes }

abbrev pub request_ticket_response : List ℕ → RequestTicketResponse
request_ticket_response bytes = record { buf_response = bytes }

-- The changed storage and client, and the answer.
abbrev pub Issued : Type 0 → Type 0 → Type 0
Issued S R = S × ClientInfo × Outcome Error R

unfoldable pub set_user : ClientInfo → ℕ → ClientInfo
set_user ci user_id = record ci { user_id = some user_id }

unfoldable pub is_user : Option ℕ → ℕ → Bool
is_user none user_id = false
is_user (some uid) user_id = uid == user_id

module _ {S : Type 0} (accounts : Accounts S) (is : Issuer) where
  -- The session key is stored; a failure is only logged.
  unfoldable pub issue :
      {R : Type 0} → (List ℕ → R) → S → ClientInfo → ℕ → ℕ → Option (List ℕ) → Issued S R
  unfolding ticket_for response_of
  issue make s ci user_id pid password = (
    accounts.create_user_session s user_id is.session_key,
    ci,
    response_of make (
        as_bytes is.hashes is.box (ticket_for is user_id pid) user_id password is.nonce
          is.ticket_key),
  )

  -- `login` behind the look-up of the password.
  unfoldable pub login_with : S → ClientInfo → ℕ → Option (Option (List ℕ)) → Issued S Response
  unfolding issue set_user
  login_with s ci user_id none = (s, ci, err internal_error)
  login_with s ci user_id (some password) =
      issue (login_response user_id) s (set_user ci user_id) user_id server_pid password

  unfoldable pub login_by_id : S → ClientInfo → Option (Option ℕ) → Issued S Response
  unfolding login_with
  login_by_id s ci none = (s, ci, err internal_error)
  login_by_id s ci (some none) = (s, ci, err access_denied)
  login_by_id s ci (some (some user_id)) =
      login_with s ci user_id (accounts.find_password_for_user s user_id)

  -- `login`: the name is all that the user gives. `get_password_by_username` asks for the id again.
  unfoldable pub login : S → ClientInfo → List ℕ → Issued S Response
  unfolding login_by_id
  login s ci username = login_by_id s ci (accounts.find_user_id_by_name s username)

  unfoldable pub logged_in : ClientInfo → S × Option (Option ℕ) → Issued S Response
  unfolding issue set_user
  logged_in ci (s, none) = (s, ci, err internal_error)
  logged_in ci (s, some none) = (s, ci, err access_denied)
  logged_in ci (s, some (some user_id)) =
      issue (login_response user_id) s (set_user ci user_id) user_id server_pid none

  -- `login_ex`, where the extra data was read: a name and a password.
  unfoldable pub login_ex : S → ClientInfo → List ℕ → List ℕ → Issued S Response
  unfolding logged_in
  login_ex s ci username password = logged_in ci (accounts.login_user s username password)

  -- The session key is stored before the password is looked up.
  unfoldable pub request_with :
      S → ClientInfo → ℕ → ℕ → Option (Option (List ℕ)) → Issued S RequestTicketResponse
  unfolding issue
  request_with s ci user_id server_id none =
      (accounts.create_user_session s user_id is.session_key, ci, err internal_error)
  request_with s ci user_id server_id (some password) =
      issue request_ticket_response s ci user_id server_id password

  unfoldable pub request_ticket : S → ClientInfo → ℕ → ℕ → Issued S RequestTicketResponse
  unfolding is_user request_with
  request_ticket s ci user_id server_id =
      if is_user ci.user_id user_id
      then request_with s ci user_id server_id (
          accounts.find_password_for_user (accounts.create_user_session s user_id is.session_key)
            user_id)
      else (s, ci, err access_denied)
