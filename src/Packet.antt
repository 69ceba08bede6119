-- ===== src/Packet.antt =====
-- server/quazal/src/prudp/packet.rs: the data of PRUDP packets. The conversions that `num_enum`
-- derives follow the discriminants of the enums, and a `BitFlags<PacketFlag>` is the number of its
-- bits, whose members are the four flags of the enum.
pub mod Context
pub mod Checksum
pub mod Encode
pub mod Decode
pub mod Fields
pub mod RoundTrip
pub mod Payload
pub mod Parse
pub mod Reads
pub mod Received
pub mod Total
mod Tests
use scbl.Prelude.{
  ℕ, ◌-◌, ◌==◌, bit_and, bit_or, Bool, true, false, List, Option, none, some, Outcome, ok, err,
  if◌then◌else◌,
}

-- `Error`. The values inside `DecompressFailed`, `IO` and `StreamHandler` are only logged.
pub data Error : Type 0 where
  invalid_flag : ℕ → Error
  invalid_checksum : Error
  decompress_failed : Error
  invalid_packet_type : ℕ → Error
  invalid_stream_type : ℕ → Error
  io : Error
  stream_handler : Error
  unimplemented : Error

-- `DO` is a reserved word here.
pub data StreamType : Type 0 where
  d_o rv rv_sec sbmgmt nat session_discovery nat_echo routing : StreamType

unfoldable pub stream_type_to_u8 : StreamType → ℕ
stream_type_to_u8 d_o = 1
stream_type_to_u8 rv = 2
stream_type_to_u8 rv_sec = 3
stream_type_to_u8 sbmgmt = 4
stream_type_to_u8 nat = 5
stream_type_to_u8 session_discovery = 6
stream_type_to_u8 nat_echo = 7
stream_type_to_u8 routing = 8

unfoldable pub stream_type_try_from : ℕ → Option StreamType
stream_type_try_from n =
    if n == 1
    then some d_o
    else if n == 2
    then some rv
    else if n == 3
    then some rv_sec
    else if n == 4
    then some sbmgmt
    else if n == 5
    then some nat
    else if n == 6
    then some session_discovery
    else if n == 7
    then some nat_echo
    else if n == 8
    then some routing
    else none

pub data PacketType : Type 0 where
  syn connect data_packet disconnect ping user route raw : PacketType

unfoldable pub packet_type_to_u8 : PacketType → ℕ
packet_type_to_u8 syn = 0
packet_type_to_u8 connect = 1
packet_type_to_u8 data_packet = 2
packet_type_to_u8 disconnect = 3
packet_type_to_u8 ping = 4
packet_type_to_u8 user = 5
packet_type_to_u8 route = 6
packet_type_to_u8 raw = 7

unfoldable pub packet_type_try_from : ℕ → Option PacketType
packet_type_try_from n =
    if n == 0
    then some syn
    else if n == 1
    then some connect
    else if n == 2
    then some data_packet
    else if n == 3
    then some disconnect
    else if n == 4
    then some ping
    else if n == 5
    then some user
    else if n == 6
    then some route
    else if n == 7
    then some raw
    else none

-- `matches!` on the packet type and on the stream type.
abbrev pub has_conn_signature : PacketType → Bool
has_conn_signature syn = true
has_conn_signature connect = true
has_conn_signature _ = false

abbrev pub is_data : PacketType → Bool
is_data data_packet = true
is_data _ = false

abbrev pub is_syn : PacketType → Bool
is_syn syn = true
is_syn _ = false

abbrev pub is_rv_sec : StreamType → Bool
is_rv_sec rv_sec = true
is_rv_sec _ = false

-- `PacketFlag`.
abbrev pub ack : ℕ
ack = 1

abbrev pub reliable : ℕ
reliable = 2

abbrev pub need_ack : ℕ
need_ack = 4

abbrev pub has_size : ℕ
has_size = 8

-- `BitFlags::from_bits`, with the bits that are no flag as the error.
unfoldable pub flags_from_bits : ℕ → Outcome ℕ ℕ
flags_from_bits bits =
    let known = bit_and bits 15 in if known == bits then ok bits else err (bits - known)

unfoldable pub contains : ℕ → ℕ → Bool
contains flags flag = bit_and flags flag == flag

unfoldable pub insert_flag : ℕ → ℕ → ℕ
insert_flag flags flag = bit_or flags flag

pub record VPort : Type 0 where
  pub port : ℕ
  pub stream_type : StreamType

pub record QPacket : Type 0 where
  pub source : VPort
  pub destination : VPort
  pub packet_type : PacketType
  pub flags : ℕ
  pub session_id : ℕ
  pub signature : ℕ
  pub fragment_id : Option ℕ
  pub conn_signature : Option ℕ
  pub sequence : ℕ
  pub payload : List ℕ
  pub checksum : ℕ
  pub use_compression : Bool
