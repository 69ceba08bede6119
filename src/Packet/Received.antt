-- ===== src/Packet/Received.antt =====
-- What `from_reader` returns for bytes from the network: a packet whose fields are in range, with
-- each optional field where its kind has it, and fewer bytes than before.
use scbl.Prelude.{
  ℕ, ◌/◌, ◌^◌, ◌<◌, ◌≡◌, subst, Bool, bit_and, List, ok, ok_or, map_err, >>=-eq-ok, ok-injective,
  IsBytes, arith,
}
use scbl.ByteOrder.{ByteOrder}
use scbl.ByteOrder.Laws.{IsRead}
use scbl.Packet.{
  packet_type_try_from, invalid_packet_type, invalid_flag, io, QPacket, flags_from_bits,
}
use scbl.Packet.Context.{Context, Zlib}
use scbl.Packet.Decode.{
  vport_from_reader, read_conn_signature, read_fragment_id, read_payload_size, read_exact,
  from_reader, open_payload, Head, read_head, read_payload,
}
use scbl.Packet.RoundTrip.{IsWire}
use scbl.Packet.Reads.{
  IsLeft, map_err-eq-ok, flags-lt, read_exact-IsLeft, read_u8-ok, read_u16-ok, read_u32-ok,
  vport-ok, conn_signature-ok, fragment_id-ok, payload_size-ok,
}

-- A packet that came from the network, and the bytes behind it.
pub record IsReceived (bytes : List ℕ) (p : QPacket) (rest : List ℕ) : Type 0 where
  pub wire : IsWire p
  pub left : IsLeft 11 bytes rest

IsLeft-of_six :
    {b0 b1 b2 b3 b4 b5 b6 : List ℕ} {v2 v4 v5 v6 : ℕ}
    → IsLeft 1 b0 b1
    → IsLeft 1 b1 b2
    → IsRead 1 v2 b2 b3
    → IsRead 1 v4 b3 b4
    → IsRead 4 v5 b4 b5
    → IsRead 2 v6 b5 b6
    → IsLeft 10 b0 b6
IsLeft-of_six l0 l1 l2 l4 l5 l6 = record { bytes = l6.bytes; taken = omega arith }

-- The part of `IsWire` that the first fields have, read from ten bytes.
record IsHead (bytes : List ℕ) (head : Head) (rest : List ℕ) : Type 0 where
  source_port : head.source.port < 16
  destination_port : head.destination.port < 16
  flag_bits : head.flags < 16
  session_byte : head.session_id < 256
  signature_word : head.signature < 2 ^ 32
  sequence_word : head.sequence < 2 ^ 16
  left : IsLeft 10 bytes rest

read_head-IsHead :
    (bo : ByteOrder) (bytes : List ℕ) (head : Head) (rest : List ℕ)
    → IsBytes bytes
    → read_head bo bytes ≡ ok (head, rest)
    → IsHead bytes head rest
unfolding read_head
read_head-IsHead bo bytes head rest h e0 =
    let (src, h0, e1) = >>=-eq-ok (vport_from_reader bo bytes) _ e0 in
    let (source, l0) = vport-ok bo bytes h src.0 src.1 h0 in
    let (dst, h1, e2) = >>=-eq-ok (vport_from_reader bo src.1) _ e1 in
    let (destination, l1) = vport-ok bo src.1 l0.bytes dst.0 dst.1 h1 in
    let (tf, h2, e3) = >>=-eq-ok (ok_or (bo.read_u8 dst.1) io) _ e2 in
    let l2 = read_u8-ok bo dst.1 l1.bytes tf.0 tf.1 h2 in
    let k = bit_and tf.0 7 in
    let (_, _, e4) = >>=-eq-ok (ok_or (packet_type_try_from k) (invalid_packet_type k)) _ e3 in
    let (flags, h3, e5) = >>=-eq-ok (map_err invalid_flag (flags_from_bits (tf.0 / 8))) _ e4 in
    let (sess, h4, e6) = >>=-eq-ok (ok_or (bo.read_u8 tf.1) io) _ e5 in
    let l4 = read_u8-ok bo tf.1 l2.bytes sess.0 sess.1 h4 in
    let (sig, h5, e7) = >>=-eq-ok (ok_or (bo.read_u32 sess.1) io) _ e6 in
    let l5 = read_u32-ok bo sess.1 l4.bytes sig.0 sig.1 h5 in
    let (seq, h6, e8) = >>=-eq-ok (ok_or (bo.read_u16 sig.1) io) _ e7 in
    let l6 = read_u16-ok bo sig.1 l5.bytes seq.0 seq.1 h6 in
    subst (λ q. IsHead bytes q.0 q.1) (ok-injective e8)
      (record {
        source_port = source;
        destination_port = destination;
        flag_bits =
            flags-lt (tf.0 / 8) flags (omega (arith, l2.bound)) (map_err-eq-ok _ _ flags h3);
        session_byte = l4.bound;
        signature_word = l5.bound;
        sequence_word = l6.bound;
        left = IsLeft-of_six l0 l1 l2 l4 l5 l6;
      })

module _ (bo : ByteOrder) (z : Zlib) (ctx : Context) where
  read_payload-IsLeft :
      (head : Head) (bs : List ℕ) (opened : List ℕ × Bool) (rest : List ℕ)
      → IsBytes bs
      → read_payload bo z ctx head bs ≡ ok (opened, rest)
      → IsLeft 0 bs rest
  unfolding read_payload
  read_payload-IsLeft head bs opened rest h e =
      let (size, h1, e1) = >>=-eq-ok (read_payload_size bo head.flags bs) _ e in
      let l1 = payload_size-ok bo bs h head.flags size.0 size.1 h1 in
      let (sealed, h2, e2) = >>=-eq-ok (read_exact size.0 size.1) _ e1 in
      let l2 = read_exact-IsLeft size.0 size.1 sealed.0 sealed.1 l1.bytes h2 in
      let (_, _, e3) =
        >>=-eq-ok (open_payload z ctx head.packet_type head.source.stream_type sealed.0) _ e2 in
      subst (λ q. IsLeft 0 bs q.1) (ok-injective e3)
        (record { bytes = l2.bytes; taken = omega (arith, l1.taken, l2.taken) })

  -- On bytes `from_reader` returns only packets in range, and takes eleven bytes at least.
  pub from_reader-IsReceived :
      (bytes : List ℕ) (p : QPacket) (rest : List ℕ)
      → IsBytes bytes
      → from_reader bo z ctx bytes ≡ ok (p, rest)
      → IsReceived bytes p rest
  unfolding from_reader
  from_reader-IsReceived bytes p rest h e0 =
      let (hd, h0, e1) = >>=-eq-ok (read_head bo bytes) _ e0 in
      let l0 = read_head-IsHead bo bytes hd.0 hd.1 h h0 in
      let (conn, h1, e2) = >>=-eq-ok (read_conn_signature bo hd.0.packet_type hd.1) _ e1 in
      let (conn_fits, l1) =
        conn_signature-ok bo hd.1 l0.left.bytes hd.0.packet_type conn.0 conn.1 h1 in
      let (frag, h2, e3) = >>=-eq-ok (read_fragment_id bo hd.0.packet_type conn.1) _ e2 in
      let (fragment_fits, l2) =
        fragment_id-ok bo conn.1 l1.bytes hd.0.packet_type frag.0 frag.1 h2 in
      let (opened, h3, e4) = >>=-eq-ok (read_payload bo z ctx hd.0 frag.1) _ e3 in
      let l3 = read_payload-IsLeft hd.0 frag.1 opened.0 opened.1 l2.bytes h3 in
      let (sum, h4, e5) = >>=-eq-ok (ok_or (bo.read_u8 opened.1) io) _ e4 in
      let l4 = read_u8-ok bo opened.1 l3.bytes sum.0 sum.1 h4 in
      subst (λ q. IsReceived bytes q.0 q.1) (ok-injective e5)
        (record {
          wire = record {
            source_port = l0.source_port;
            destination_port = l0.destination_port;
            flag_bits = l0.flag_bits;
            session_byte = l0.session_byte;
            signature_word = l0.signature_word;
            sequence_word = l0.sequence_word;
            conn_fits = conn_fits;
            fragment_fits = fragment_fits;
          };
          left = record {
            bytes = l4.bytes;
            taken = omega (arith, l0.left.taken, l1.taken, l2.taken, l3.taken, l4.taken);
          };
        })
