-- ===== src/Packet/Fields.antt =====
-- Each field of the header is read back from what was written for it, whatever follows.
use scbl.Prelude.{
  ℕ, ◌+◌, ◌*◌, ◌/◌, ◌%◌, ◌^◌, ◌<◌, ◌≡◌, refl, Bool, true, false, bit_and, bit_or, List, [], ◌∷◌,
  ◌++◌, length, Option, none, some, ok, Bool-cases, inl, inr, arith, take-append, drop-append,
  length-append,
}
use scbl.Prelude.Bits.{bit_and-15, bit_and-7, bit_or_nibbles, bit_or_triples}
use scbl.ByteOrder.{ByteOrder, to_le_bytes}
use scbl.ByteOrder.Laws.{read_u8_cons, read_u16_back, read_u32_back}
use scbl.Packet.{
  VPort, QPacket, StreamType, d_o, rv, rv_sec, sbmgmt, nat, session_discovery, nat_echo, routing,
  PacketType, syn, connect, data_packet, disconnect, ping, user, route, raw, stream_type_to_u8,
  stream_type_try_from, packet_type_to_u8, packet_type_try_from, has_conn_signature, is_data,
  flags_from_bits, contains, has_size,
}
use scbl.Packet.Encode.{vport_to_bytes, type_fields, type_flag, size_field}
use scbl.Packet.Decode.{
  vport_from_reader, read_conn_signature, read_fragment_id, read_payload_size, read_exact,
}

stream_type_back : (s : StreamType) → stream_type_try_from (stream_type_to_u8 s) ≡ some s
unfolding stream_type_try_from stream_type_to_u8
stream_type_back d_o = refl
stream_type_back rv = refl
stream_type_back rv_sec = refl
stream_type_back sbmgmt = refl
stream_type_back nat = refl
stream_type_back session_discovery = refl
stream_type_back nat_echo = refl
stream_type_back routing = refl

stream_type-lt : (s : StreamType) → stream_type_to_u8 s < 16
unfolding stream_type_to_u8
stream_type-lt s = ground arith

pub packet_type_back : (t : PacketType) → packet_type_try_from (packet_type_to_u8 t) ≡ some t
unfolding packet_type_try_from packet_type_to_u8
packet_type_back syn = refl
packet_type_back connect = refl
packet_type_back data_packet = refl
packet_type_back disconnect = refl
packet_type_back ping = refl
packet_type_back user = refl
packet_type_back route = refl
packet_type_back raw = refl

packet_type-lt : (t : PacketType) → packet_type_to_u8 t < 8
unfolding packet_type_to_u8
packet_type-lt t = ground arith

-- The byte of types and flags, taken apart.
module _ (p : QPacket) (flags : p.flags < 16) where
  type_flag_sum : type_flag p ≡ packet_type_to_u8 p.packet_type + p.flags * 8
  type_flag_sum =
      let fits : p.flags * 8 % 256 ≡ p.flags * 8 = omega arith in
      rw fits (bit_or_triples _ p.flags (packet_type-lt p.packet_type) (omega arith))

  pub type_flag_type : bit_and (type_flag p) 7 ≡ packet_type_to_u8 p.packet_type
  type_flag_type =
      rw (bit_and-7 (type_flag p) (omega (arith, type_flag_sum, packet_type-lt p.packet_type)))
        (omega (arith, type_flag_sum, packet_type-lt p.packet_type))

  pub type_flag_flags : type_flag p / 8 ≡ p.flags
  type_flag_flags = omega (arith, type_flag_sum, packet_type-lt p.packet_type)

  pub type_flag-IsByte : type_flag p < 256
  type_flag-IsByte = omega (arith, type_flag_sum, packet_type-lt p.packet_type)

pub flags_back : (flags : ℕ) → flags < 16 → flags_from_bits flags ≡ ok flags
unfolding flags_from_bits
flags_back flags h = ground (arith, bit_and-15 flags)

-- The byte of a port and a stream type.
module _ (v : VPort) (h : v.port < 16) where
  abbrev vport_byte : ℕ
  vport_byte = bit_or v.port (stream_type_to_u8 v.stream_type * 16 % 256)

  vport_sum : vport_byte ≡ v.port + stream_type_to_u8 v.stream_type * 16
  vport_sum =
      let fits : stream_type_to_u8 v.stream_type * 16 % 256 ≡ stream_type_to_u8 v.stream_type * 16 =
        omega (arith, stream_type-lt v.stream_type) in
      rw fits (bit_or_nibbles v.port _ h (stream_type-lt v.stream_type))

  vport_stream : vport_byte / 16 ≡ stream_type_to_u8 v.stream_type
  vport_stream = omega (arith, vport_sum)

  vport_byte-IsByte : vport_byte < 256
  vport_byte-IsByte = omega (arith, vport_sum, stream_type-lt v.stream_type)

  vport_port : bit_and vport_byte 15 ≡ v.port
  vport_port = rw (bit_and-15 vport_byte vport_byte-IsByte) (omega (arith, vport_sum))

-- A field that is there exactly for the packets of one kind, and is below `bound`.
abbrev pub Fits : Bool → ℕ → Option ℕ → Type 0
Fits true bound (some v) = v < bound
Fits true bound none = ⊥
Fits false bound (some v) = ⊥
Fits false bound none = Unit {0}

abbrev pub conn_bytes : Option ℕ → List ℕ
conn_bytes none = []
conn_bytes (some c) = to_le_bytes 4 c

abbrev pub fragment_bytes : Option ℕ → List ℕ
fragment_bytes none = []
fragment_bytes (some f) = f ∷ []

-- The two optional fields are written where they fit, with no panic.
pub type_fields_bytes :
    (t : PacketType) (conn fragment : Option ℕ)
    → Fits (has_conn_signature t) (2 ^ 32) conn
    → Fits (is_data t) 256 fragment
    → type_fields t conn fragment ≡ ok (conn_bytes conn ++ fragment_bytes fragment)
unfolding type_fields
type_fields_bytes syn (some c) none hc hf = refl
type_fields_bytes connect (some c) none hc hf = refl
type_fields_bytes data_packet none (some f) hc hf = refl
type_fields_bytes disconnect none none hc hf = refl
type_fields_bytes ping none none hc hf = refl
type_fields_bytes user none none hc hf = refl
type_fields_bytes route none none hc hf = refl
type_fields_bytes raw none none hc hf = refl
type_fields_bytes t conn fragment hc hf = ground arith

pub read_exact-append : (xs rest : List ℕ) → read_exact (length xs) (xs ++ rest) ≡ ok (xs, rest)
unfolding read_exact
read_exact-append xs rest = ground (
  arith,
  length-append xs rest,
  take-append (length xs) xs rest refl,
  drop-append (length xs) xs rest refl,
)

module _ (bo : ByteOrder) where
  pub vport_back :
      (v : VPort) (rest : List ℕ)
      → v.port < 16
      → vport_from_reader bo (vport_to_bytes v ++ rest) ≡ ok (v, rest)
  unfolding vport_from_reader vport_to_bytes
  vport_back v rest h = rw (
    read_u8_cons bo (vport_byte v h) rest (vport_byte-IsByte v h),
    vport_stream v h,
    stream_type_back v.stream_type,
    vport_port v h,
  )

  pub conn_signature_back :
      (t : PacketType) (conn : Option ℕ) (rest : List ℕ)
      → Fits (has_conn_signature t) (2 ^ 32) conn
      → read_conn_signature bo t (conn_bytes conn ++ rest) ≡ ok (conn, rest)
  unfolding read_conn_signature
  conn_signature_back t (some c) rest h = elim (Bool-cases (has_conn_signature t)) [
    | inl there ↦ rw (there, read_u32_back bo c rest (rw there at h))
    | inr missing ↦ absurd (rw missing at h)
  ]
  conn_signature_back t none rest h = elim (Bool-cases (has_conn_signature t)) [
    | inl there ↦ absurd (rw there at h)
    | inr missing ↦ rw missing
  ]

  pub fragment_id_back :
      (t : PacketType) (fragment : Option ℕ) (rest : List ℕ)
      → Fits (is_data t) 256 fragment
      → read_fragment_id bo t (fragment_bytes fragment ++ rest) ≡ ok (fragment, rest)
  unfolding read_fragment_id
  fragment_id_back t (some f) rest h = elim (Bool-cases (is_data t)) [
    | inl there ↦ rw (there, read_u8_cons bo f rest (rw there at h))
    | inr missing ↦ absurd (rw missing at h)
  ]
  fragment_id_back t none rest h = elim (Bool-cases (is_data t)) [
    | inl there ↦ absurd (rw there at h)
    | inr missing ↦ rw missing
  ]

  pub payload_size_back :
      (p : QPacket) (payload rest : List ℕ)
      → contains p.flags has_size ≡ true
      → length payload < 65536
      → read_payload_size bo p.flags (size_field p payload ++ rest) ≡ ok (length payload, rest)
  unfolding read_payload_size size_field
  payload_size_back p payload rest sized h =
      let small : length payload % 65536 ≡ length payload = omega arith in
      rw (sized, small, read_u16_back bo (length payload) rest h)
