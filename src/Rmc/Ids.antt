-- ===== src/Rmc/Ids.antt =====
-- The protocol ids that one byte of a request cannot hold, and the codes of errors.
use scbl.Prelude.{
  ℕ, ◌+◌, ◌-◌, ◌%◌, ◌^◌, ◌≤◌, ◌<◌, ◌≡◌, refl, ltb, ◌==◌, lt→ltb, le→ltb, bit_and, bit_or, true,
  false, List, ◌++◌, length, ok, arith,
}
use scbl.Prelude.Bits.{bit_or-128_high, bit_and-127}
use scbl.ByteOrder.{ByteOrder}
use scbl.ByteOrder.Laws.{read_u8_cons, read_u32_back}
use scbl.Rmc.{
  Error, missing_data, parsing_error, unknown_protocol, unknown_method, unimplemented_method,
  invalid_packet_type, internal_error, access_denied, io, from_stream, to_error_code,
  from_error_code, error_of, Request, request_protocol_bytes, request_to_bytes,
}
use scbl.Rmc.Decode.{read_request_protocol, read_request, request_from_bytes}
use scbl.Rmc.RoundTrip.{request_body, length_back}

-- Decoding the code of an error returns an error with the same code.
pub from_error_code-to_error_code :
    (e : Error)
    → (e' : Error) × (from_error_code (to_error_code e) ≡ ok e')
      × (to_error_code e' ≡ to_error_code e)
unfolding from_error_code to_error_code error_of
from_error_code-to_error_code (missing_data a b) = (missing_data 0 0, refl, refl)
from_error_code-to_error_code parsing_error = (parsing_error, refl, refl)
from_error_code-to_error_code unknown_protocol = (unknown_protocol, refl, refl)
from_error_code-to_error_code unknown_method = (unknown_protocol, refl, refl)
from_error_code-to_error_code unimplemented_method = (unimplemented_method, refl, refl)
from_error_code-to_error_code invalid_packet_type = (parsing_error, refl, refl)
from_error_code-to_error_code internal_error = (internal_error, refl, refl)
from_error_code-to_error_code access_denied = (access_denied, refl, refl)
from_error_code-to_error_code io = (parsing_error, refl, refl)
from_error_code-to_error_code from_stream = (parsing_error, refl, refl)

module _ (bo : ByteOrder) where
  protocol_truncated :
      (id : ℕ) (rest : List ℕ)
      → 128 ≤ id
      → id < 255
      → read_request_protocol bo (request_protocol_bytes id ++ rest) ≡ ok (id - 128, rest)
  unfolding read_request_protocol request_protocol_bytes
  protocol_truncated id rest low high =
      let narrow : ltb id 255 ≡ true = lt→ltb _ _ high in
      let fits : id % 256 ≡ id - 128 + 128 = omega arith in
      let byte : bit_or (id - 128 + 128) 128 ≡ id = omega (arith, bit_or-128_high (id - 128)) in
      let other : (id == 255) ≡ false = ground arith in
      let mask : bit_and id 127 ≡ id - 128 = omega (arith, bit_and-127 id) in
      rw (narrow, fits, byte, read_u8_cons bo id rest (omega arith), other, mask)

  -- A request for a protocol from 128 to 254 is written and read back as one for the protocol 128
  -- below it.
  pub request_id_truncated :
      (r : Request)
      → 128 ≤ r.protocol_id
      → r.protocol_id < 255
      → r.call_id < 2 ^ 32
      → r.method_id < 2 ^ 32
      → length (request_body r) < 2 ^ 32
      → request_from_bytes bo (request_to_bytes r)
        ≡ ok (record r { protocol_id = r.protocol_id - 128 })
  unfolding request_from_bytes request_to_bytes read_request
  request_id_truncated r low high call method size =
      let sized = length_back bo (request_body r) size in
      let enough : ltb (length (request_body r)) (length (request_body r)) ≡ false =
        le→ltb _ _ (omega arith) in
      rw (
        sized.0,
        sized.1,
        enough,
        protocol_truncated r.protocol_id _ low high,
        read_u32_back bo r.call_id _ call,
        read_u32_back bo r.method_id _ method,
      )
