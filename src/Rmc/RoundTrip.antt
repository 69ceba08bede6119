-- ===== src/Rmc/RoundTrip.antt =====
-- Requests and responses are read back from the bytes that are written for them.
use scbl.Prelude.{
  ℕ, ◌+◌, ◌-◌, ◌/◌, ◌%◌, ◌^◌, ◌≤◌, ◌<◌, ◌≡◌, refl, inl, inr, ltb, ◌==◌, lt→ltb, le→ltb, bit_and,
  true, false, some, List, [], ◌∷◌, ◌++◌, length, get_or, ok, Bool-cases, arith,
}
use scbl.Prelude.Bits.{bit_or-128, bit_and-128}
use scbl.ByteOrder.{ByteOrder, to_le_bytes}
use scbl.ByteOrder.Laws.{read_u32_back}
use scbl.Rmc.{
  Request, Response, Packet, request, response, with_length, request_protocol_bytes,
  request_to_bytes, response_protocol_bytes, result_to_bytes, response_to_bytes, packet_to_bytes,
}
use scbl.Rmc.Decode.{read_request, request_from_bytes, response_from_bytes, packet_from_bytes}
use scbl.Rmc.Fields.{
  IsRequestId, IsWireResult, request_protocol_back, response_protocol_back, result_back,
}

abbrev pub request_body : Request → List ℕ
request_body r =
    request_protocol_bytes r.protocol_id
    ++ (to_le_bytes 4 r.call_id ++ (to_le_bytes 4 r.method_id ++ r.parameters))

abbrev pub response_body : Response → List ℕ
response_body r = response_protocol_bytes r.protocol_id ++ result_to_bytes r.result

-- Fields in range, and a body whose length fits the length field.
pub record IsWireRequest (r : Request) : Type 0 where
  pub id : IsRequestId r.protocol_id
  pub call : r.call_id < 2 ^ 32
  pub method : r.method_id < 2 ^ 32
  pub size : length (request_body r) < 2 ^ 32

pub record IsWireResponse (r : Response) : Type 0 where
  pub id : r.protocol_id < 2 ^ 16
  pub result : IsWireResult r.result
  pub size : length (response_body r) < 2 ^ 32

abbrev pub IsWirePacket : Packet → Type 0
IsWirePacket (request r) = IsWireRequest r
IsWirePacket (response r) = IsWireResponse r

-- The length field before a body.
pub length_back :
    (bo : ByteOrder) (body : List ℕ)
    → length body < 2 ^ 32
    → (bo.read_u32 (with_length body) ≡ some (length body, body))
      × (length (with_length body) - 4 ≡ length body)
unfolding with_length
length_back bo body h =
    let fits : length body % 2 ^ 32 ≡ length body = omega arith in
    (rw fits (read_u32_back bo (length body) body h), omega arith)

-- The first byte of the body tells a request from a response.
request_kind :
    (id : ℕ)
    → IsRequestId id
    → (b : ℕ) × (bs : List ℕ) × (request_protocol_bytes id ≡ b ∷ bs) × (128 ≤ b) × (b < 256)
unfolding request_protocol_bytes
request_kind id (inl small) =
    let narrow : ltb id 255 ≡ true = lt→ltb _ _ (omega arith) in
    let fits : id % 256 ≡ id = omega arith in
    (id + 128, [], rw (narrow, fits, bit_or-128 id (omega arith)) refl, omega arith, omega arith)
request_kind id (inr (big, word)) =
    (255, to_le_bytes 2 id, rw (le→ltb id 255 big) refl, omega arith, omega arith)

response_kind :
    (id : ℕ)
    → id < 2 ^ 16
    → (b : ℕ) × (bs : List ℕ) × (response_protocol_bytes id ≡ b ∷ bs) × (b < 128)
unfolding response_protocol_bytes
response_kind id h = elim (Bool-cases (ltb id 127)) [
  | inl narrow ↦ (id % 256, [], rw narrow refl, ground arith)
  | inr wide ↦ (127, (bit_and id 255 % 256) ∷ (id / 256 % 256) ∷ [], rw wide refl, omega arith)
]

kind_byte :
    (front rest : List ℕ) (b : ℕ) (bs : List ℕ)
    → front ≡ b ∷ bs
    → (get_or (with_length (front ++ rest)) 4 0 ≡ b)
      × (ltb (length (with_length (front ++ rest))) 5 ≡ false)
unfolding with_length
kind_byte front rest b bs e = rw e (refl, le→ltb _ _ (omega arith))

module _ (bo : ByteOrder) where
  pub request_from_bytes-to_bytes :
      (r : Request) → IsWireRequest r → request_from_bytes bo (request_to_bytes r) ≡ ok r
  unfolding request_from_bytes request_to_bytes read_request
  request_from_bytes-to_bytes r w =
      let sized = length_back bo (request_body r) w.size in
      let enough : ltb (length (request_body r)) (length (request_body r)) ≡ false =
        le→ltb _ _ (omega arith) in
      rw (
        sized.0,
        sized.1,
        enough,
        request_protocol_back bo r.protocol_id _ w.id,
        read_u32_back bo r.call_id _ w.call,
        read_u32_back bo r.method_id _ w.method,
      )

  pub response_from_bytes-to_bytes :
      (r : Response) → IsWireResponse r → response_from_bytes bo (response_to_bytes r) ≡ ok r
  unfolding response_from_bytes response_to_bytes
  response_from_bytes-to_bytes r w = rw (
    (length_back bo (response_body r) w.size).0,
    response_protocol_back bo r.protocol_id _ w.id,
    result_back bo r.result w.result,
  )

  -- A request or a response in range is read back from its bytes, as what it was. A request is in
  -- range with a protocol id below 127 or from 255 to 65535, a response with a 16-bit protocol id
  -- and a method id whose bit 15 is clear; ids and codes have 32 bits and a body less than 4 GiB.
  pub packet_from_bytes-to_bytes :
      (p : Packet) → IsWirePacket p → packet_from_bytes bo (packet_to_bytes p) ≡ ok p
  unfolding packet_from_bytes packet_to_bytes request_to_bytes response_to_bytes
  packet_from_bytes-to_bytes (request r) w =
      let (b, bs, e, high, byte) = request_kind r.protocol_id w.id in
      let kind =
        kind_byte (request_protocol_bytes r.protocol_id)
          (to_le_bytes 4 r.call_id ++ (to_le_bytes 4 r.method_id ++ r.parameters)) b bs e in
      let top : (bit_and b 128 == 0) ≡ false = ground (arith, bit_and-128 b byte) in
      let back = request_from_bytes-to_bytes r w in rw (kind.1, kind.0, top, back)
  packet_from_bytes-to_bytes (response r) w =
      let (b, bs, e, low) = response_kind r.protocol_id w.id in
      let kind =
        kind_byte (response_protocol_bytes r.protocol_id) (result_to_bytes r.result) b bs e in
      let top : (bit_and b 128 == 0) ≡ true = ground (arith, bit_and-128 b (omega arith)) in
      let back = response_from_bytes-to_bytes r w in rw (kind.1, kind.0, top, back)
