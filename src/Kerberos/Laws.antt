-- ===== src/Kerberos/Laws.antt =====
-- A sealed ticket is opened to itself.
use scbl.Prelude.{
  ℕ, ◌^◌, ◌≤◌, ◌<◌, ◌≡◌, ltb, le→ltb, ◌==◌, Bool, true, false, List, ◌++◌, append-nil, length,
  take-append, drop-append, length-append, [], ok, arith,
}
use scbl.ByteOrder.{ByteOrder, to_le_bytes}
use scbl.ByteOrder.Laws.{read_u32_back, read-to_le_bytes}
use scbl.Stream.{read_u32, read_u64, read_array}
use scbl.Stream.Laws.{read_n_bytes-append}
use scbl.Kerberos.{
  SecretBox, KerberosTicketInternal, session_key_size, nonce_bytes, ticket_to_bytes, read_ticket,
  seal, open_ticket,
}

pub record IsTicket (t : KerberosTicketInternal) : Type 0 where
  pub principal : t.principle_id < 2 ^ 32
  pub until : t.valid_until < 2 ^ 64
  pub key_size : length t.session_key ≡ session_key_size

module _ (bo : ByteOrder) (can_reserve : ℕ → Bool)
    (room : (size : ℕ) → can_reserve size ≡ true) where
  session_key_back :
      (key : List ℕ)
      → length key ≡ session_key_size
      → read_array can_reserve session_key_size key ≡ ok (key, [])
  unfolding read_array
  session_key_back key size =
      let small : length key ≤ 1048576 = omega (arith, size) in
      let back = rw (append-nil key) at (read_n_bytes-append can_reserve room key [] small) in
      let same : (length key == session_key_size) ≡ true = ground (arith, size) in
      rw (rw size at back, same)

  read_ticket-to_bytes :
      (t : KerberosTicketInternal)
      → IsTicket t
      → read_ticket bo can_reserve (ticket_to_bytes t) ≡ ok (t, [])
  unfolding read_ticket ticket_to_bytes read_u32 read_u64
  read_ticket-to_bytes t w = rw (
    read_u32_back bo t.principle_id (to_le_bytes 8 t.valid_until ++ t.session_key) w.principal,
    read-to_le_bytes 8 bo.read_u64 t.valid_until t.session_key bo.read_u64-Reads w.until,
    session_key_back t.session_key w.key_size,
  )

  -- A ticket in range that is sealed under a nonce of 24 bytes is opened to itself under the same
  -- key, if the allocation of the session key is granted.
  pub open_ticket-seal :
      (box : SecretBox) (t : KerberosTicketInternal) (nonce key : List ℕ)
      → IsTicket t
      → length nonce ≡ nonce_bytes
      → open_ticket box bo can_reserve (seal box t nonce key) key ≡ ok t
  unfolding open_ticket seal
  open_ticket-seal box t nonce key w size =
      let sealed = box.seal_box (ticket_to_bytes t) nonce key in
      let long : ltb (length (nonce ++ sealed)) nonce_bytes ≡ false =
        le→ltb _ _ (omega (arith, size, length-append nonce sealed)) in
      rw (
        long,
        drop-append nonce_bytes nonce sealed size,
        take-append nonce_bytes nonce sealed size,
        box.open_box-seal_box (ticket_to_bytes t) nonce key,
        read_ticket-to_bytes t w,
      )
