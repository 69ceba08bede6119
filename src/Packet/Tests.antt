-- ===== src/Packet/Tests.antt =====
-- The packets of the source's own tests, and the theorems at concrete packets.
use scbl.Prelude.{ℕ, ◌≡◌, refl, false, true, List, [], ◌∷◌, ◌++◌, arith, some, none, ok, panic}
use scbl.ByteOrder.{little_endian}
use scbl.Rc4.{crypt_key, new, zip_xor, schedule, count_from}
use scbl.Packet.{
  QPacket, rv_sec, data_packet, syn, stream_type_try_from, packet_type_try_from, flags_from_bits,
  contains, stream_type_to_u8, packet_type_to_u8, has_size,
}
use scbl.Packet.Context.{Context, stored, key}
use scbl.Packet.Checksum.{calc_checksum_from_data}
use scbl.Packet.Encode.{
  crypt, to_bytes, calc_checksum, to_data_bytes, type_fields, pack_payload, seal_payload,
  vport_to_bytes, size_field,
}
use scbl.Packet.RoundTrip.{IsWire}
use scbl.Packet.Parse.{parse-to_bytes}
use scbl.Packet.Received.{IsReceived, from_reader-IsReceived}
use scbl.Packet.Total.{to_bytes_total, header, from_reader-header}
use scbl.Packet.Decode.{
  from_reader, read_head, read_payload, vport_from_reader, read_conn_signature, read_fragment_id,
  read_payload_size, read_exact, open_payload, unpack_payload, decompress_payload, parse, validate,
}

-- `Context::splinter_cell_blacklist`: the keys "yl4NG7qZ" and "CD&ML".
abbrev blacklist : Context
blacklist = record {
  access_key = 0x79 ∷ 0x6c ∷ 0x34 ∷ 0x4e ∷ 0x47 ∷ 0x37 ∷ 0x71 ∷ 0x5a ∷ [];
  crypto_key = 0x43 ∷ 0x44 ∷ 0x26 ∷ 0x4d ∷ 0x4c ∷ [];
  ticket_key = [];
}

abbrev documented_bytes : List ℕ
documented_bytes =
    0x3f ∷ 0x31 ∷ 0x32 ∷ 0xa7 ∷ 0x91 ∷ 0x93 ∷ 0x92 ∷ 0xdd ∷ 0x4 ∷ 0x0 ∷ 0x0 ∷ 0xf ∷ 0x89 ∷ 0x44
    ∷ 0xdb ∷ 0x13 ∷ 0x58 ∷ 0x3a ∷ 0x50 ∷ 0x5 ∷ 0xa2 ∷ 0x63 ∷ 0xfd ∷ 0x2a ∷ 0x16 ∷ 0xf1 ∷ 0xb1 ∷ 0x9b
    ∷ 0x33 ∷ 0xe6 ∷ 0xe0 ∷ []

abbrev documented_packet : QPacket
documented_packet = record {
  source = record { port = 15; stream_type = rv_sec };
  destination = record { port = 1; stream_type = rv_sec };
  packet_type = data_packet;
  flags = 6;
  session_id = 167;
  signature = 0xdd929391;
  fragment_id = some 0;
  conn_signature = none;
  sequence = 4;
  payload =
      0xe ∷ 0x0 ∷ 0x0 ∷ 0x0 ∷ 0xa7 ∷ 0x16 ∷ 0x0 ∷ 0x0 ∷ 0x0 ∷ 0x2 ∷ 0x0 ∷ 0x0 ∷ 0x0 ∷ 0x3 ∷ 0x0
      ∷ 0x64 ∷ 0x65 ∷ 0x0 ∷ [];
  checksum = 0xe0;
  use_compression = false;
}

-- The example in the documentation comment of `parse`.
parse_documented :
    parse little_endian stored blacklist documented_bytes ≡ ok (documented_packet, [])
unfolding parse from_reader read_head read_payload vport_from_reader stream_type_try_from
    packet_type_try_from flags_from_bits contains read_conn_signature read_fragment_id
    read_payload_size read_exact open_payload crypt crypt_key new zip_xor schedule count_from
    unpack_payload decompress_payload validate key calc_checksum_from_data
parse_documented = refl

from_reader_documented :
    from_reader little_endian stored blacklist documented_bytes ≡ ok (documented_packet, [])
unfolding from_reader read_head read_payload vport_from_reader stream_type_try_from
    packet_type_try_from flags_from_bits contains read_conn_signature read_fragment_id
    read_payload_size read_exact open_payload crypt crypt_key new zip_xor schedule count_from
    unpack_payload decompress_payload
from_reader_documented = refl

to_bytes_documented :
    to_bytes little_endian stored blacklist documented_packet ≡ ok documented_bytes
unfolding to_bytes to_data_bytes type_fields pack_payload seal_payload vport_to_bytes size_field
    contains crypt crypt_key new zip_xor schedule count_from key calc_checksum_from_data
    stream_type_to_u8 packet_type_to_u8
to_bytes_documented = refl

-- The same packet with a size field, as the server sends it.
abbrev sized_packet : QPacket
sized_packet = record documented_packet { flags = 14 }

abbrev sized_bytes : List ℕ
sized_bytes =
    63 ∷ 49 ∷ 114 ∷ 167 ∷ 145 ∷ 147 ∷ 146 ∷ 221 ∷ 4 ∷ 0 ∷ 0 ∷ 19 ∷ 0 ∷ 15 ∷ 137 ∷ 68 ∷ 219 ∷ 19 ∷ 88
    ∷ 58 ∷ 80 ∷ 5 ∷ 162 ∷ 99 ∷ 253 ∷ 42 ∷ 22 ∷ 241 ∷ 177 ∷ 155 ∷ 51 ∷ 230 ∷ 50 ∷ []

to_bytes_sized : to_bytes little_endian stored blacklist sized_packet ≡ ok sized_bytes
unfolding to_bytes to_data_bytes type_fields pack_payload seal_payload vport_to_bytes size_field
    contains crypt crypt_key new zip_xor schedule count_from key calc_checksum_from_data
    stream_type_to_u8 packet_type_to_u8
to_bytes_sized = refl

abbrev syn_packet : QPacket
syn_packet = record documented_packet {
  packet_type = syn;
  flags = 12;
  fragment_id = none;
  conn_signature = some 5;
  payload = 7 ∷ 8 ∷ [];
}

abbrev syn_bytes : List ℕ
syn_bytes =
    63 ∷ 49 ∷ 96 ∷ 167 ∷ 145 ∷ 147 ∷ 146 ∷ 221 ∷ 4 ∷ 0 ∷ 5 ∷ 0 ∷ 0 ∷ 0 ∷ 3 ∷ 0 ∷ 0 ∷ 7 ∷ 8 ∷ 213
    ∷ []

to_bytes_syn : to_bytes little_endian stored blacklist syn_packet ≡ ok syn_bytes
unfolding to_bytes to_data_bytes type_fields pack_payload seal_payload vport_to_bytes size_field
    contains key calc_checksum_from_data stream_type_to_u8 packet_type_to_u8
to_bytes_syn = refl

sized_packet-IsWire : IsWire sized_packet
sized_packet-IsWire = record {
  source_port = omega arith;
  destination_port = omega arith;
  flag_bits = omega arith;
  session_byte = omega arith;
  signature_word = omega arith;
  sequence_word = omega arith;
  conn_fits = tt;
  fragment_fits = omega arith;
}

syn_packet-IsWire : IsWire syn_packet
syn_packet-IsWire = record {
  source_port = omega arith;
  destination_port = omega arith;
  flag_bits = omega arith;
  session_byte = omega arith;
  signature_word = omega arith;
  sequence_word = omega arith;
  conn_fits = omega arith;
  fragment_fits = tt;
}

sized : contains 14 has_size ≡ true
unfolding contains
sized = refl

sized_syn : contains 12 has_size ≡ true
unfolding contains
sized_syn = refl

unsized : contains 6 has_size ≡ false
unfolding contains
unsized = refl

parse-to_bytes_example :
    (sum : ℕ) × (calc_checksum little_endian stored blacklist sized_packet ≡ ok sum)
    × (parse little_endian stored blacklist (sized_bytes ++ (1 ∷ []))
        ≡ ok (record sized_packet { use_compression = false; checksum = sum }, 1 ∷ []))
parse-to_bytes_example =
    parse-to_bytes little_endian stored blacklist sized_packet sized_bytes (1 ∷ [])
      sized_packet-IsWire sized refl (omega arith) (λ e. cc) (omega arith) to_bytes_sized

from_reader-IsReceived_example : IsReceived documented_bytes documented_packet []
from_reader-IsReceived_example =
    from_reader-IsReceived little_endian stored blacklist documented_bytes documented_packet []
      (omega arith) from_reader_documented

to_bytes_total_example :
    (bs : List ℕ) × (to_bytes little_endian stored blacklist sized_packet ≡ ok bs)
to_bytes_total_example =
    to_bytes_total little_endian stored blacklist sized_packet sized_packet-IsWire (omega arith)

documented_packet-IsWire : IsWire documented_packet
documented_packet-IsWire = record {
  source_port = omega arith;
  destination_port = omega arith;
  flag_bits = omega arith;
  session_byte = omega arith;
  signature_word = omega arith;
  sequence_word = omega arith;
  conn_fits = tt;
  fragment_fits = omega arith;
}

from_reader-header_example :
    from_reader little_endian stored blacklist (header documented_packet) ≡ panic
from_reader-header_example =
    from_reader-header little_endian stored blacklist documented_packet documented_packet-IsWire
      unsized
