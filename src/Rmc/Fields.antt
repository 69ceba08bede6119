-- ===== src/Rmc/Fields.antt =====
-- Reading back the fields of requests and responses.
use scbl.Prelude.{
  ℕ, ◌+◌, ◌%◌, ◌^◌, ◌≤◌, ◌<◌, ◌≡◌, ◌⊎◌, inl, inr, ltb, ◌==◌, lt→ltb, le→ltb, bit_and, bit_or, true,
  false, List, [], ◌++◌, append-nil, ok, Bool-cases, arith,
}
use scbl.Prelude.Bits.{bit_or-128, bit_and-127, bit_and-255}
use scbl.Prelude.Words.{IsClear, bit_or-pow, bit_and-all_but}
use scbl.ByteOrder.{ByteOrder, to_le_bytes}
use scbl.ByteOrder.Laws.{read_u8_cons, read_u16_back, read_u32_back}
use scbl.Rmc.{
  CallResult, returned, failed, request_protocol_bytes, response_data_to_bytes,
  response_error_to_bytes, response_protocol_bytes, result_to_bytes,
}
use scbl.Rmc.Decode.{
  read_request_protocol, response_data_from_reader, response_error_from_reader,
  read_response_protocol, read_result,
}

-- What fits the wire: words of 32 bits, and bit 15 of a returned method id is the flag that
-- `to_bytes` sets.
abbrev pub IsWireResult : CallResult → Type 0
IsWireResult (returned d) = (d.call_id < 2 ^ 32) × (d.method_id < 2 ^ 32) × IsClear 15 d.method_id
IsWireResult (failed e) = (e.error_code < 2 ^ 32) × (e.call_id < 2 ^ 32)

-- The ids that a request's one byte or three bytes can hold.
abbrev pub IsRequestId : ℕ → Type 0
IsRequestId id = (id < 127) ⊎ ((255 ≤ id) × (id < 2 ^ 16))

set_flag : (m : ℕ) → m < 2 ^ 32 → IsClear 15 m → bit_or m 32768 < 2 ^ 32
set_flag m h c = omega (arith, bit_or-pow 15 m c)

flag_back : (m : ℕ) → m < 2 ^ 32 → IsClear 15 m → bit_and (bit_or m 32768) 0xffff7fff ≡ m
flag_back m h c = rw (bit_or-pow 15 m c) (bit_and-all_but 15 16 m c h)

module _ (bo : ByteOrder) where
  pub request_protocol_back :
      (id : ℕ) (rest : List ℕ)
      → IsRequestId id
      → read_request_protocol bo (request_protocol_bytes id ++ rest) ≡ ok (id, rest)
  unfolding read_request_protocol request_protocol_bytes
  request_protocol_back id rest (inl small) =
      let narrow : ltb id 255 ≡ true = lt→ltb _ _ (omega arith) in
      let fits : id % 256 ≡ id = omega arith in
      let other : (id + 128 == 255) ≡ false = ground arith in
      let mask : bit_and (id + 128) 127 ≡ id = omega (arith, bit_and-127 (id + 128)) in
      rw (
        narrow,
        fits,
        bit_or-128 id (omega arith),
        read_u8_cons bo (id + 128) rest (omega arith),
        other,
        mask,
      )
  request_protocol_back id rest (inr (big, word)) =
      let wide : ltb id 255 ≡ false = le→ltb _ _ big in
      rw (
        wide,
        read_u8_cons bo 255 (to_le_bytes 2 id ++ rest) (omega arith),
        read_u16_back bo id rest word,
      )

  pub response_protocol_back :
      (id : ℕ) (rest : List ℕ)
      → id < 2 ^ 16
      → read_response_protocol bo (response_protocol_bytes id ++ rest) ≡ ok (id, rest)
  unfolding read_response_protocol response_protocol_bytes
  response_protocol_back id rest h = elim (Bool-cases (ltb id 127)) [
    | inl narrow ↦
        let fits : id % 256 ≡ id = ground arith in
        let other : (id == 127) ≡ false = ground arith in
        rw (narrow, fits, read_u8_cons bo id rest (ground arith), other)
    | inr wide ↦
        let low : bit_and id 255 % 256 ≡ id % 256 = omega (arith, bit_and-255 id) in
        rw (
          wide,
          low,
          read_u8_cons bo 127 (to_le_bytes 2 id ++ rest) (omega arith),
          read_u16_back bo id rest h,
        )
  ]

  pub result_back : (r : CallResult) → IsWireResult r → read_result bo (result_to_bytes r) ≡ ok r
  unfolding read_result result_to_bytes response_data_from_reader response_error_from_reader
      response_data_to_bytes response_error_to_bytes
  result_back (returned d) (call, method, clear) =
      let flagged = bit_or d.method_id 32768 in
      rw (
        read_u8_cons bo 1 _ (omega arith),
        read_u32_back bo d.call_id (to_le_bytes 4 flagged ++ d.content) call,
        read_u32_back bo flagged d.content (set_flag d.method_id method clear),
        flag_back d.method_id method clear,
      )
  result_back (failed e) (code, call) =
      let last =
        rw (append-nil (to_le_bytes 4 e.call_id)) at (read_u32_back bo e.call_id [] call) in
      rw (
        read_u8_cons bo 0 _ (omega arith),
        read_u32_back bo e.error_code (to_le_bytes 4 e.call_id) code,
        last,
      )
