-- ===== src/Rmc/Decode.antt =====
-- server/quazal/src/rmc.rs: the reading side, `Request::from_bytes`, `ResponseData::from_reader`,
-- `ResponseError::from_reader`, `Response::from_bytes` and `Packet::from_bytes`.
use scbl.Prelude.{
  ℕ, ◌-◌, ltb, ◌==◌, bit_and, List, length, get_or, Outcome, ok, err, ok_or, ◌>>=◌, if◌then◌else◌,
}
use scbl.ByteOrder.{ByteOrder}
use scbl.Rmc.{
  Error, missing_data, invalid_packet_type, io, Request, CallResult, returned, failed, Response,
  Packet, request, response,
}

module _ (bo : ByteOrder) where
  -- A byte 0xff announces a `u16`; `!0x80` is 0x7f as a `u8`.
  unfoldable pub read_request_protocol : List ℕ → Outcome Error (ℕ × List ℕ)
  read_request_protocol rdr = do
    (protocol_id, r1) ← ok_or (bo.read_u8 rdr) io
    if protocol_id == 255 then ok_or (bo.read_u16 r1) io else ok (bit_and protocol_id 127, r1)

  unfoldable pub read_request : List ℕ → Outcome Error Request
  read_request r1 = do
    (protocol_id, r2) ← read_request_protocol r1
    (call_id, r3) ← ok_or (bo.read_u32 r2) io
    (method_id, r4) ← ok_or (bo.read_u32 r3) io
    ok (record {
      protocol_id = protocol_id;
      call_id = call_id;
      method_id = method_id;
      parameters = r4;
    })

  unfoldable pub request_from_bytes : List ℕ → Outcome Error Request
  request_from_bytes bytes = do
    (size, r1) ← ok_or (bo.read_u32 bytes) io
    if ltb size (length bytes - 4)
        then err (missing_data size (length bytes - 4))
        else read_request r1

  -- `!0x8000` is 0xffff_7fff as a `u32`.
  unfoldable pub response_data_from_reader : List ℕ → Outcome Error CallResult
  response_data_from_reader rdr = do
    (call_id, r1) ← ok_or (bo.read_u32 rdr) io
    (method_id, r2) ← ok_or (bo.read_u32 r1) io
    ok (
        returned
          (record { call_id = call_id; method_id = bit_and method_id 0xffff7fff; content = r2 }))

  -- What is left behind an error is not read.
  unfoldable pub response_error_from_reader : List ℕ → Outcome Error CallResult
  response_error_from_reader rdr = do
    (error_code, r1) ← ok_or (bo.read_u32 rdr) io
    (call_id, r2) ← ok_or (bo.read_u32 r1) io
    ok (failed (record { error_code = error_code; call_id = call_id }))

  unfoldable pub read_response_protocol : List ℕ → Outcome Error (ℕ × List ℕ)
  read_response_protocol rdr = do
    (protocol_id, r1) ← ok_or (bo.read_u8 rdr) io
    if protocol_id == 127 then ok_or (bo.read_u16 r1) io else ok (protocol_id, r1)

  unfoldable pub read_result : List ℕ → Outcome Error CallResult
  read_result rdr = do
    (status, r1) ← ok_or (bo.read_u8 rdr) io
    if status == 0
        then response_error_from_reader r1
        else if status == 1
        then response_data_from_reader r1
        else err invalid_packet_type

  unfoldable pub response_from_bytes : List ℕ → Outcome Error Response
  response_from_bytes bytes = do
    (size, r1) ← ok_or (bo.read_u32 bytes) io
    (protocol_id, r2) ← read_response_protocol r1
    result ← read_result r2
    ok (record { protocol_id = protocol_id; result = result })

  unfoldable pub packet_from_bytes : List ℕ → Outcome Error Packet
  packet_from_bytes bytes =
      if ltb (length bytes) 5
      then err (missing_data 5 (length bytes))
      else if bit_and (get_or bytes 4 0) 128 == 0
      then (response_from_bytes bytes >>= λ r. ok (response r))
      else (request_from_bytes bytes >>= λ r. ok (request r))
