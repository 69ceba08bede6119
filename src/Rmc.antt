-- ===== src/Rmc.antt =====
-- server/quazal/src/rmc.rs: remote method calls, their errors, and how requests and responses are
-- written as bytes. A cursor is the list of the bytes that it has not passed.
pub mod Decode
pub mod Handler
pub mod Fields
pub mod RoundTrip
pub mod Received
pub mod Answers
pub mod Ids
mod Tests
use scbl.Prelude.{
  ℕ, ◌+◌, ◌/◌, ◌%◌, ◌^◌, ltb, ◌==◌, bit_and, bit_or, Bool, List, [], ◌∷◌, ◌++◌, length, Outcome, ok,
  err, if◌then◌else◌,
}
use scbl.ByteOrder.{to_le_bytes}

-- `Error`. The values inside `IO` and `FromStream` are only logged.
pub data Error : Type 0 where
  missing_data : ℕ → ℕ → Error
  parsing_error unknown_protocol unknown_method unimplemented_method : Error
  invalid_packet_type internal_error access_denied io from_stream : Error

unfoldable pub to_error_code : Error → ℕ
to_error_code (missing_data expected got) = bit_or 0x10009 0x80000000
to_error_code parsing_error = bit_or 0x1000a 0x80000000
to_error_code unknown_protocol = bit_or 0x10001 0x80000000
to_error_code unknown_method = bit_or 0x10001 0x80000000
to_error_code unimplemented_method = bit_or 0x10002 0x80000000
to_error_code invalid_packet_type = bit_or 0x1000a 0x80000000
to_error_code internal_error = bit_or 0x10012 0x80000000
to_error_code access_denied = bit_or 0x10006 0x80000000
to_error_code io = bit_or 0x1000a 0x80000000
to_error_code from_stream = bit_or 0x1000a 0x80000000

-- The part of `from_error_code` behind the test of the highest bit.
unfoldable pub error_of : ℕ → Outcome ℕ Error
error_of code =
    if code == 0x10001
    then ok unknown_protocol
    else if code == 0x10002
    then ok unimplemented_method
    else if code == 0x10006
    then ok access_denied
    else if code == 0x10009
    then ok (missing_data 0 0)
    else if code == 0x1000a
    then ok parsing_error
    else if code == 0x10012
    then ok internal_error
    else err code

-- `!0x8000_0000` is 0x7fff_ffff as a `u32`.
unfoldable pub from_error_code : ℕ → Outcome ℕ Error
from_error_code code =
    if bit_and code 0x80000000 == 0 then err code else error_of (bit_and code 0x7fffffff)

pub record Request : Type 0 where
  pub protocol_id : ℕ
  pub call_id : ℕ
  pub method_id : ℕ
  pub parameters : List ℕ

-- The field `data` has another name, which is a reserved word here.
pub record ResponseData : Type 0 where
  pub call_id : ℕ
  pub method_id : ℕ
  pub content : List ℕ

pub record ResponseError : Type 0 where
  pub error_code : ℕ
  pub call_id : ℕ

-- `std::result::Result<ResponseData, ResponseError>`.
pub data CallResult : Type 0 where
  returned : ResponseData → CallResult
  failed : ResponseError → CallResult

pub record Response : Type 0 where
  pub protocol_id : ℕ
  pub result : CallResult

pub data Packet : Type 0 where
  request : Request → Packet
  response : Response → Packet

-- `(data.len() as u32).to_le_bytes()` before the data.
unfoldable pub with_length : List ℕ → List ℕ
with_length bytes = to_le_bytes 4 (length bytes % 2 ^ 32) ++ bytes

unfoldable pub request_protocol_bytes : ℕ → List ℕ
request_protocol_bytes protocol_id =
    if ltb protocol_id 255
    then bit_or (protocol_id % 256) 128 ∷ []
    else 255 ∷ to_le_bytes 2 protocol_id

unfoldable pub request_to_bytes : Request → List ℕ
request_to_bytes r = with_length (
    request_protocol_bytes r.protocol_id
    ++ (to_le_bytes 4 r.call_id ++ (to_le_bytes 4 r.method_id ++ r.parameters)))

unfoldable pub response_data_to_bytes : ResponseData → List ℕ
response_data_to_bytes d =
    to_le_bytes 4 d.call_id ++ (to_le_bytes 4 (bit_or d.method_id 32768) ++ d.content)

unfoldable pub response_error_to_bytes : ResponseError → List ℕ
response_error_to_bytes e = to_le_bytes 4 e.error_code ++ to_le_bytes 4 e.call_id

unfoldable pub response_protocol_bytes : ℕ → List ℕ
response_protocol_bytes protocol_id =
    if ltb protocol_id 127
    then (protocol_id % 256) ∷ []
    else 127 ∷ (bit_and protocol_id 255 % 256) ∷ (protocol_id / 256 % 256) ∷ []

unfoldable pub result_to_bytes : CallResult → List ℕ
result_to_bytes (returned d) = 1 ∷ response_data_to_bytes d
result_to_bytes (failed e) = 0 ∷ response_error_to_bytes e

-- The source fills in the length last, over four zero bytes.
unfoldable pub response_to_bytes : Response → List ℕ
response_to_bytes r =
    with_length (response_protocol_bytes r.protocol_id ++ result_to_bytes r.result)

unfoldable pub packet_to_bytes : Packet → List ℕ
packet_to_bytes (request r) = request_to_bytes r
packet_to_bytes (response r) = response_to_bytes r
