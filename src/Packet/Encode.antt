-- ===== src/Packet/Encode.antt =====
-- server/quazal/src/prudp/packet.rs: the writing side, `VPort::to_bytes`, `QPacket::to_data_bytes`,
-- `QPacket::to_bytes`, `QPacket::calc_checksum` and `crypt`.
use scbl.Prelude.{
  ℕ, ◌+◌, ◌*◌, ◌/◌, ◌%◌, ◌==◌, bit_or, Bool, ◌&&◌, not, List, [], ◌∷◌, ◌++◌, length, is_empty,
  Option, Outcome, ok, panic, expect, ◌>>=◌, if◌then◌else◌,
}
use scbl.ByteOrder.{ByteOrder, to_le_bytes}
use scbl.Rc4.{crypt_key}
use scbl.Packet.{
  Error, VPort, QPacket, PacketType, syn, connect, data_packet, disconnect, ping, user, route, raw,
  stream_type_to_u8, packet_type_to_u8, is_syn, is_rv_sec, contains, has_size,
}
use scbl.Packet.Context.{Context, key, Zlib}
use scbl.Packet.Checksum.{calc_checksum_from_data}

unfoldable pub vport_to_bytes : VPort → List ℕ
vport_to_bytes v = bit_or v.port (stream_type_to_u8 v.stream_type * 16 % 256) ∷ []

unfoldable pub crypt : Context → List ℕ → Outcome Error (List ℕ)
crypt ctx bytes = crypt_key ctx.crypto_key bytes

-- The field that only one kind of packet has; its absence panics.
unfoldable pub type_fields : PacketType → Option ℕ → Option ℕ → Outcome Error (List ℕ)
type_fields syn conn fragment = expect conn >>= λ c. ok (to_le_bytes 4 c)
type_fields connect conn fragment = expect conn >>= λ c. ok (to_le_bytes 4 c)
type_fields data_packet conn fragment = expect fragment >>= λ f. ok (f ∷ [])
type_fields disconnect conn fragment = ok []
type_fields ping conn fragment = ok []
type_fields user conn fragment = ok []
type_fields route conn fragment = ok []
type_fields raw conn fragment = ok []

-- The payload behind its compression byte, which is 0 for a payload that is not compressed.
-- Division by the length of an empty compressed payload would panic.
unfoldable pub pack_payload : Zlib → Bool → List ℕ → Outcome Error (List ℕ)
pack_payload z use_compression payload =
    if is_empty payload
    then ok []
    else if use_compression
    then (let tmp = z.compress payload in
        if length tmp == 0 then panic else ok (((length payload / length tmp + 1) % 256) ∷ tmp))
    else ok (0 ∷ payload)

unfoldable pub seal_payload : Context → QPacket → List ℕ → Outcome Error (List ℕ)
seal_payload ctx p payload =
    if not (is_syn p.packet_type) && is_rv_sec p.source.stream_type
    then crypt ctx payload
    else ok payload

-- `data.push(pt | (self.flags.bits() << 3))`.
abbrev pub type_flag : QPacket → ℕ
type_flag p = bit_or (packet_type_to_u8 p.packet_type) (p.flags * 8 % 256)

unfoldable pub size_field : QPacket → List ℕ → List ℕ
size_field p payload =
    if contains p.flags has_size then to_le_bytes 2 (length payload % 65536) else []

-- The bytes of the packet in their order, given its last two parts.
abbrev pub layout : QPacket → List ℕ → List ℕ → List ℕ
layout p fields payload =
    vport_to_bytes p.source
    ++ (vport_to_bytes p.destination
        ++ (type_flag p
            ∷ p.session_id
            ∷ (to_le_bytes 4 p.signature
                ++ (to_le_bytes 2 p.sequence ++ (fields ++ (size_field p payload ++ payload))))))

unfoldable pub to_data_bytes : Zlib → Context → QPacket → Outcome Error (List ℕ)
to_data_bytes z ctx p = do
  fields ← type_fields p.packet_type p.conn_signature p.fragment_id
  packed ← pack_payload z p.use_compression p.payload
  payload ← seal_payload ctx p packed
  ok (layout p fields payload)

module _ (bo : ByteOrder) (z : Zlib) (ctx : Context) where
  unfoldable pub calc_checksum : QPacket → Outcome Error ℕ
  calc_checksum p = do
    bytes ← to_data_bytes z ctx p
    ok (calc_checksum_from_data bo (key ctx p.destination.stream_type) bytes)

  unfoldable pub to_bytes : QPacket → Outcome Error (List ℕ)
  to_bytes p = do
    bytes ← to_data_bytes z ctx p
    let sum = calc_checksum_from_data bo (key ctx p.destination.stream_type) bytes
    ok (bytes ++ (sum ∷ []))
