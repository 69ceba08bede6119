-- ===== src/Packet/Decode.antt =====
-- server/quazal/src/prudp/packet.rs: the reading side, `VPort::from_reader`, `QPacket::from_reader`,
-- `QPacket::from_bytes`, `QPacket::validate`, `decompress_payload` and `parse`. A cursor is the list
-- of the bytes that it has not passed.
use scbl.Prelude.{
  ℕ, ◌-◌, ◌*◌, ◌/◌, ◌==◌, leb, bit_and, Bool, true, false, ◌&&◌, not, List, [], ◌∷◌, length, take,
  drop, is_empty, Option, none, some, Outcome, ok, err, panic, ok_or, map_err, ◌>>=◌, if◌then◌else◌,
}
use scbl.ByteOrder.{ByteOrder}
use scbl.Packet.{
  Error, invalid_flag, invalid_checksum, decompress_failed, invalid_packet_type,
  invalid_stream_type, io, VPort, QPacket, StreamType, PacketType, stream_type_try_from,
  packet_type_try_from, has_conn_signature, is_data, is_syn, is_rv_sec, flags_from_bits, contains,
  has_size,
}
use scbl.Packet.Context.{Context, key, Zlib}
use scbl.Packet.Checksum.{calc_checksum_from_data}
use scbl.Packet.Encode.{crypt}

-- `MAX_DECOMPRESSED_PACKET_BYTES`.
abbrev pub max_decompressed_packet_bytes : ℕ
max_decompressed_packet_bytes = 1024 * 1024

unfoldable pub decompress_payload : Zlib → List ℕ → Outcome Error (List ℕ)
decompress_payload z bytes =
    ok_or (z.decompress bytes max_decompressed_packet_bytes) decompress_failed

-- `Read::read_exact` into a buffer of `n` bytes.
unfoldable pub read_exact : ℕ → List ℕ → Outcome Error (List ℕ × List ℕ)
read_exact n rdr = if leb n (length rdr) then ok (take n rdr, drop n rdr) else err io

-- A compressed payload is decompressed behind its first byte; of another that byte is removed.
unfoldable pub unpack_payload : Zlib → List ℕ → Outcome Error (List ℕ × Bool)
unpack_payload z [] = ok ([], false)
unpack_payload z (flag ∷ rest) =
    if flag == 0
    then ok (rest, false)
    else (decompress_payload z rest >>= λ payload. ok (payload, true))

unfoldable pub open_payload :
    Zlib → Context → PacketType → StreamType → List ℕ → Outcome Error (List ℕ × Bool)
open_payload z ctx packet_type stream_type payload =
    if not (is_syn packet_type) && is_rv_sec stream_type
    then (crypt ctx payload >>= λ plain. unpack_payload z plain)
    else ok (payload, false)

-- The local variables of `from_reader` that every packet has.
pub record Head : Type 0 where
  pub source : VPort
  pub destination : VPort
  pub packet_type : PacketType
  pub flags : ℕ
  pub session_id : ℕ
  pub signature : ℕ
  pub sequence : ℕ

module _ (bo : ByteOrder) where
  unfoldable pub vport_from_reader : List ℕ → Outcome Error (VPort × List ℕ)
  vport_from_reader rdr = do
    (val, rest) ← ok_or (bo.read_u8 rdr) io
    stream_type ← ok_or (stream_type_try_from (val / 16)) (invalid_stream_type (val / 16))
    ok (record { port = bit_and val 15; stream_type = stream_type }, rest)

  unfoldable pub read_conn_signature : PacketType → List ℕ → Outcome Error (Option ℕ × List ℕ)
  read_conn_signature packet_type rdr =
      if has_conn_signature packet_type
      then (ok_or (bo.read_u32 rdr) io >>= λ r. ok (some r.0, r.1))
      else ok (none, rdr)

  unfoldable pub read_fragment_id : PacketType → List ℕ → Outcome Error (Option ℕ × List ℕ)
  read_fragment_id packet_type rdr =
      if is_data packet_type
      then (ok_or (bo.read_u8 rdr) io >>= λ r. ok (some r.0, r.1))
      else ok (none, rdr)

  -- Without a size field the payload ends one byte before the input does. At the end of the input
  -- `l - p - 1` underflows: with overflow checks that panics, and without them the buffer of
  -- 2^64 - 1 bytes does.
  unfoldable pub read_payload_size : ℕ → List ℕ → Outcome Error (ℕ × List ℕ)
  read_payload_size flags rdr =
      if contains flags has_size
      then ok_or (bo.read_u16 rdr) io
      else if is_empty rdr
      then panic
      else ok (length rdr - 1, rdr)

  -- The first part of `from_reader`: the fields that every packet has.
  unfoldable pub read_head : List ℕ → Outcome Error (Head × List ℕ)
  read_head r0 = do
    (source, r1) ← vport_from_reader r0
    (destination, r2) ← vport_from_reader r1
    (type_flag, r3) ← ok_or (bo.read_u8 r2) io
    let kind = bit_and type_flag 7
    packet_type ← ok_or (packet_type_try_from kind) (invalid_packet_type kind)
    flags ← map_err invalid_flag (flags_from_bits (type_flag / 8))
    (session_id, r4) ← ok_or (bo.read_u8 r3) io
    (signature, r5) ← ok_or (bo.read_u32 r4) io
    (sequence, r6) ← ok_or (bo.read_u16 r5) io
    ok (
      record {
        source = source;
        destination = destination;
        packet_type = packet_type;
        flags = flags;
        session_id = session_id;
        signature = signature;
        sequence = sequence;
      },
      r6,
    )

  module _ (z : Zlib) (ctx : Context) where
    -- The payload as it stands in the packet, opened.
    unfoldable pub read_payload : Head → List ℕ → Outcome Error ((List ℕ × Bool) × List ℕ)
    read_payload head rdr = do
      (payload_size, r1) ← read_payload_size head.flags rdr
      (sealed, r2) ← read_exact payload_size r1
      opened ← open_payload z ctx head.packet_type head.source.stream_type sealed
      ok (opened, r2)

    unfoldable pub from_reader : List ℕ → Outcome Error (QPacket × List ℕ)
    from_reader r0 = do
      (head, r1) ← read_head r0
      (conn_signature, r2) ← read_conn_signature head.packet_type r1
      (fragment_id, r3) ← read_fragment_id head.packet_type r2
      ((payload, use_compression), r4) ← read_payload head r3
      (checksum, r5) ← ok_or (bo.read_u8 r4) io
      ok (
        record {
          source = head.source;
          destination = head.destination;
          packet_type = head.packet_type;
          flags = head.flags;
          session_id = head.session_id;
          signature = head.signature;
          fragment_id = fragment_id;
          conn_signature = conn_signature;
          sequence = head.sequence;
          payload = payload;
          checksum = checksum;
          use_compression = use_compression;
        },
        r5,
      )

    -- The packet, and how many bytes it took.
    unfoldable pub from_bytes : List ℕ → Outcome Error (QPacket × ℕ)
    from_bytes bytes = do (p, rest) ← from_reader bytes; ok (p, length bytes - length rest)

    -- `&data[..data.len() - 1]` panics on an empty slice.
    unfoldable pub validate : QPacket → List ℕ → Outcome Error (Unit {0})
    validate p [] = panic
    validate p (b ∷ bs) =
        let bytes = take (length bs) (b ∷ bs) in
        if p.checksum == calc_checksum_from_data bo (key ctx p.destination.stream_type) bytes
        then ok tt
        else err invalid_checksum

    unfoldable pub parse : List ℕ → Outcome Error (QPacket × List ℕ)
    parse bytes = do
      (p, rest) ← from_reader bytes
      let consumed = take (length bytes - length rest) bytes
      _ ← validate p consumed
      ok (p, rest)
