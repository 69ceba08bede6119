-- ===== src/Kerberos.antt =====
-- server/quazal/src/kerberos.rs: `KerberosTicketInternal`, which the server seals and opens with a
-- key of its own. `secretbox` belongs to the crate sodiumoxide and is an interface; the nonce that it
-- generates is an argument.
pub mod Laws
pub mod Outer
mod Tests
use scbl.Prelude.{
  ℕ, ◌≡◌, ltb, Bool, List, ◌++◌, length, take, drop, Option, some, Outcome, ok, err, ok_or, ◌>>=◌,
  if◌then◌else◌,
}
use scbl.ByteOrder.{ByteOrder, to_le_bytes}
use scbl.Stream.{FromStreamError, io, Reader, read_u32, read_u64, read_array}

abbrev pub session_key_size : ℕ
session_key_size = 16

-- `secretbox::NONCEBYTES`.
abbrev pub nonce_bytes : ℕ
nonce_bytes = 24

-- What was sealed is opened under the same nonce and key.
pub record SecretBox : Type 0 where
  pub seal_box : List ℕ → List ℕ → List ℕ → List ℕ
  pub open_box : List ℕ → List ℕ → List ℕ → Option (List ℕ)
  pub open_box-seal_box :
      (message nonce key : List ℕ) → open_box (seal_box message nonce key) nonce key ≡ some message

pub record KerberosTicketInternal : Type 0 where
  pub principle_id : ℕ
  pub valid_until : ℕ
  pub session_key : List ℕ

-- The derived `ToStream` writes the fields in their order.
unfoldable pub ticket_to_bytes : KerberosTicketInternal → List ℕ
ticket_to_bytes t = to_le_bytes 4 t.principle_id ++ (to_le_bytes 8 t.valid_until ++ t.session_key)

-- The derived `FromStream` reads them in their order.
unfoldable pub read_ticket : ByteOrder → (ℕ → Bool) → Reader KerberosTicketInternal
read_ticket bo can_reserve r0 = do
  (principle_id, r1) ← read_u32 bo r0
  (valid_until, r2) ← read_u64 bo r1
  (session_key, r3) ← read_array can_reserve session_key_size r2
  ok (
    record { principle_id = principle_id; valid_until = valid_until; session_key = session_key },
    r3,
  )

module _ (box : SecretBox) where
  unfoldable pub seal : KerberosTicketInternal → List ℕ → List ℕ → List ℕ
  seal t nonce key = nonce ++ box.seal_box (ticket_to_bytes t) nonce key

  unfoldable pub open_ticket :
      ByteOrder → (ℕ → Bool) → List ℕ → List ℕ → Outcome FromStreamError KerberosTicketInternal
  open_ticket bo can_reserve bytes key =
      if ltb (length bytes) nonce_bytes
      then err io
      else (ok_or (box.open_box (drop nonce_bytes bytes) (take nonce_bytes bytes) key) io
          >>= λ plain. read_ticket bo can_reserve plain >>= λ r. ok r.0)
