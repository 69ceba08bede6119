-- ===== src/Kerberos/Outer.antt =====
-- server/quazal/src/kerberos.rs: `KerberosTicket`, which carries a sealed ticket to the client. The
-- hashes belong to the crates md5 and hmac and are arguments.
use scbl.Prelude.{
  Bool, ℕ, zero, suc, ◌+◌, ◌-◌, ◌%◌, ltb, List, [], ◌∷◌, ◌++◌, length, take, Option, none, some,
  Outcome, ok, panic, ◌>>=◌, if◌then◌else◌,
}
use scbl.ByteOrder.{ByteOrder, to_le_bytes}
use scbl.Rc4.{crypt_key}
use scbl.Stream.{FromStreamError, read_u32, read_array, write_vec}
use scbl.Kerberos.{SecretBox, KerberosTicketInternal, session_key_size, seal, open_ticket}

pub record KerberosTicket : Type 0 where
  pub session_key : List ℕ
  pub pid : ℕ
  pub internal : KerberosTicketInternal

pub record Hashes : Type 0 where
  pub md5 : List ℕ → List ℕ
  pub hmac_md5 : List ℕ → List ℕ → List ℕ

-- "UbiDummyPwd"
abbrev pub dummy_password : List ℕ
dummy_password = 85 ∷ 98 ∷ 105 ∷ 68 ∷ 117 ∷ 109 ∷ 109 ∷ 121 ∷ 80 ∷ 119 ∷ 100 ∷ []

unfoldable pub or_dummy : Option (List ℕ) → List ℕ
or_dummy none = dummy_password
or_dummy (some password) = password

unfoldable pub hash_times : (List ℕ → List ℕ) → ℕ → List ℕ → List ℕ
hash_times md5 zero key = key
hash_times md5 (suc n) key = hash_times md5 n (md5 key)

unfoldable pub derive_key : Hashes → ℕ → Option (List ℕ) → List ℕ
unfolding or_dummy hash_times
derive_key hashes peer_pid password =
    hash_times hashes.md5 (65000 + peer_pid % 1024) (or_dummy password)

-- The nonce that `seal` generates is an argument.
unfoldable pub as_bytes :
    Hashes
    → SecretBox
    → KerberosTicket
    → ℕ
    → Option (List ℕ)
    → List ℕ
    → List ℕ
    → Outcome FromStreamError (List ℕ)
unfolding derive_key
as_bytes hashes box t peer_pid password nonce ticket_key =
    let sealed = write_vec (λ b. b ∷ []) (seal box t.internal nonce ticket_key) in
    let key = derive_key hashes peer_pid password in
    crypt_key key (t.session_key ++ (to_le_bytes 4 t.pid ++ sealed)) >>= λ buf.
    ok (buf ++ hashes.hmac_md5 key buf)

-- `buf.len() - 16` underflows on fewer bytes; the code behind the last 16 bytes is not checked.
unfoldable pub from_bytes :
    Hashes
    → SecretBox
    → ByteOrder
    → (ℕ → Bool)
    → List ℕ
    → ℕ
    → Option (List ℕ)
    → List ℕ
    → Outcome FromStreamError KerberosTicket
unfolding derive_key
from_bytes hashes box bo can_reserve buf peer_pid password ticket_key =
    if ltb (length buf) 16
    then panic
    else (crypt_key (derive_key hashes peer_pid password) (take (length buf - 16) buf) >>= λ r0.
        read_array can_reserve session_key_size r0 >>= λ key. read_u32 bo key.1 >>= λ pid.
        open_ticket box bo can_reserve pid.1 ticket_key >>= λ internal.
        ok (record { session_key = key.0; pid = pid.0; internal = internal }))
