-- ===== src/Rmc/Received.antt =====
-- The fields of a request that was read from bytes are in range.
use scbl.Prelude.{
  ℕ, ◌-◌, ◌^◌, ◌<◌, ◌≡◌, subst, ltb, ◌==◌, bit_and, List, length, get_or, ok, ok_or, >>=-eq-ok,
  ok_or-eq-ok, ok-injective, IsBytes, Bool-cases, inl, inr, arith,
}
use scbl.Prelude.Bits.{bit_and-127}
use scbl.ByteOrder.{ByteOrder}
use scbl.ByteOrder.Laws.{IsRead, from_reads-IsRead}
use scbl.Rmc.{io, Request, request}
use scbl.Rmc.Decode.{
  read_request_protocol, read_request, request_from_bytes, response_from_bytes, packet_from_bytes,
}

pub record IsReceivedRequest (r : Request) : Type 0 where
  pub id : r.protocol_id < 2 ^ 16
  pub call : r.call_id < 2 ^ 32
  pub method : r.method_id < 2 ^ 32

module _ (bo : ByteOrder) where
  read_u16_ok :
      (bs : List ℕ) (a : ℕ × List ℕ)
      → IsBytes bs
      → ok_or (bo.read_u16 bs) io ≡ ok a
      → IsRead 2 a.0 bs a.1
  read_u16_ok bs a h e =
      from_reads-IsRead 2 bo.read_u16 bo.read_u16-Reads bs h a.0 a.1
        (ok_or-eq-ok (bo.read_u16 bs) io a e)

  read_u32_ok :
      (bs : List ℕ) (a : ℕ × List ℕ)
      → IsBytes bs
      → ok_or (bo.read_u32 bs) io ≡ ok a
      → IsRead 4 a.0 bs a.1
  read_u32_ok bs a h e =
      from_reads-IsRead 4 bo.read_u32 bo.read_u32-Reads bs h a.0 a.1
        (ok_or-eq-ok (bo.read_u32 bs) io a e)

  protocol_ok :
      (bs : List ℕ) (a : ℕ × List ℕ)
      → IsBytes bs
      → read_request_protocol bo bs ≡ ok a
      → (a.0 < 2 ^ 16) × IsBytes a.1
  unfolding read_request_protocol
  protocol_ok bs a h e =
      let (b, read, e1) = >>=-eq-ok (ok_or (bo.read_u8 bs) io) _ e in
      let r =
        from_reads-IsRead 1 bo.read_u8 bo.read_u8-Reads bs h b.0 b.1
          (ok_or-eq-ok (bo.read_u8 bs) io b read) in
      elim (Bool-cases (b.0 == 255)) [
        | inl wide ↦ (let two = read_u16_ok b.1 a r.bytes (rw wide at e1) in (two.bound, two.bytes))
        | inr narrow ↦
            (let e2 = ok-injective (rw narrow at e1) in
              subst (λ (q : ℕ × List ℕ). (q.0 < 2 ^ 16) × IsBytes q.1) e2
                (omega (arith, bit_and-127 b.0 r.bound, r.bound), r.bytes))
      ]

  read_request-IsReceived :
      (bs : List ℕ) (r : Request) → IsBytes bs → read_request bo bs ≡ ok r → IsReceivedRequest r
  unfolding read_request
  read_request-IsReceived bs r h e =
      let (id, e1, f1) = >>=-eq-ok (read_request_protocol bo bs) _ e in
      let one = protocol_ok bs id h e1 in
      let (call, e2, f2) = >>=-eq-ok (ok_or (bo.read_u32 id.1) io) _ f1 in
      let two = read_u32_ok id.1 call one.1 e2 in
      let (method, e3, f3) = >>=-eq-ok (ok_or (bo.read_u32 call.1) io) _ f2 in
      let three = read_u32_ok call.1 method two.bytes e3 in
      subst IsReceivedRequest (ok-injective f3)
        (record { id = one.0; call = two.bound; method = three.bound })

  request_from_bytes-IsReceived :
      (bs : List ℕ) (r : Request)
      → IsBytes bs
      → request_from_bytes bo bs ≡ ok r
      → IsReceivedRequest r
  unfolding request_from_bytes
  request_from_bytes-IsReceived bs r h e =
      let (size, e1, f1) = >>=-eq-ok (ok_or (bo.read_u32 bs) io) _ e in
      elim (Bool-cases (ltb size.0 (length bs - 4))) [
        | inl short ↦ cc (rw short at f1)
        | inr enough ↦
            read_request-IsReceived size.1 r (read_u32_ok bs size h e1).bytes (rw enough at f1)
      ]

  -- A request that is read from bytes has a 16-bit protocol id, and a call id and a method id of 32
  -- bits.
  pub packet_from_bytes-IsReceived :
      (bs : List ℕ) (r : Request)
      → IsBytes bs
      → packet_from_bytes bo bs ≡ ok (request r)
      → IsReceivedRequest r
  unfolding packet_from_bytes
  packet_from_bytes-IsReceived bs r h e = elim (Bool-cases (ltb (length bs) 5)) [
    | inl short ↦ cc (rw short at e)
    | inr long ↦ elim (Bool-cases (bit_and (get_or bs 4 0) 128 == 0)) [
      | inl low ↦
          let (a, e1, f1) = >>=-eq-ok (response_from_bytes bo bs) _ (rw (long, low) at e) in cc f1
      | inr high ↦
          let (a, e1, f1) = >>=-eq-ok (request_from_bytes bo bs) _ (rw (long, high) at e) in
          let same : a ≡ r = cc (ok-injective f1) in
          subst IsReceivedRequest same (request_from_bytes-IsReceived bs a h e1)
    ]
  ]
