-- ===== src/Packet/Total.antt =====
-- Where the codec panics and where it does not.
use scbl.Prelude.{ℕ, ◌≡◌, false, List, [], ◌∷◌, ◌++◌, ok, panic, Bool-cases, inl, inr}
use scbl.ByteOrder.{ByteOrder, to_le_bytes}
use scbl.Rc4.Keystream.{IsKey, crypt_key_total}
use scbl.Packet.{Error, QPacket, contains, has_size}
use scbl.Packet.Context.{Context, Zlib}
use scbl.Packet.Encode.{seal_payload, crypt, to_bytes, type_flag, vport_to_bytes}
use scbl.Packet.Decode.{from_reader, read_payload, read_payload_size}
use scbl.Packet.Payload.{is_sealed, pack_total}
use scbl.Packet.Fields.{conn_bytes, fragment_bytes, conn_signature_back, fragment_id_back}
use scbl.Packet.RoundTrip.{IsWire, written, written_sum, to_data_bytes-written, read_head_back}

seal_total :
    (ctx : Context) (p : QPacket) (packed : List ℕ)
    → IsKey ctx.crypto_key
    → (sealed : List ℕ) × (seal_payload ctx p packed ≡ ok sealed)
unfolding seal_payload crypt
seal_total ctx p packed k = elim (Bool-cases (is_sealed p.packet_type p.source.stream_type)) [
  | inl sealing ↦
      let (sealed, e) = crypt_key_total {E = Error} ctx.crypto_key packed k in
      (sealed, rw (sealing, e))
  | inr plain ↦ (packed, rw plain)
]

-- With a cipher key of 1 to 256 bytes `to_bytes` returns on every packet whose fields are in range
-- and whose optional fields stand where its kind has them: none of its `expect`s and no assertion
-- panics. Every packet that `from_reader` returns is such a packet.
pub to_bytes_total :
    (bo : ByteOrder) (z : Zlib) (ctx : Context) (p : QPacket)
    → IsWire p
    → IsKey ctx.crypto_key
    → (bs : List ℕ) × (to_bytes bo z ctx p ≡ ok bs)
unfolding to_bytes
to_bytes_total bo z ctx p w k =
    let (packed, hp) = pack_total z p.use_compression p.payload in
    let (sealed, hs) = seal_total ctx p packed k in
    (
      written bo z ctx p w sealed ++ (written_sum bo z ctx p w sealed ∷ []),
      rw (to_data_bytes-written bo z ctx p w packed sealed hp hs),
    )

-- The header of a packet, with nothing behind it.
abbrev pub header : QPacket → List ℕ
header p =
    vport_to_bytes p.source
    ++ (vport_to_bytes p.destination
        ++ (type_flag p
            ∷ p.session_id
            ∷ (to_le_bytes 4 p.signature
                ++ (to_le_bytes 2 p.sequence
                    ++ (conn_bytes p.conn_signature ++ (fragment_bytes p.fragment_id ++ []))))))

-- An input that ends with the header of a packet that has no size field makes `from_reader` panic,
-- whatever the other fields: the payload's size is computed as 0 - 1.
pub from_reader-header :
    (bo : ByteOrder) (z : Zlib) (ctx : Context) (p : QPacket)
    → IsWire p
    → contains p.flags has_size ≡ false
    → from_reader bo z ctx (header p) ≡ panic
unfolding from_reader read_payload read_payload_size
from_reader-header bo z ctx p w unsized = rw (
  read_head_back bo z ctx p w _,
  conn_signature_back bo p.packet_type p.conn_signature _ w.conn_fits,
  fragment_id_back bo p.packet_type p.fragment_id _ w.fragment_fits,
  unsized,
)
