-- ===== src/Rmc/Answers.antt =====
-- What `RVSecHandler::handle` answers to a request that came from the network.
use scbl.Prelude.{
  ℕ, ◌+◌, ◌-◌, ◌^◌, ◌≤◌, ◌<◌, ◌≡◌, refl, List, [], length, Outcome, ok, err, IsBytes, length-append,
  arith,
}
use scbl.Prelude.Maps.{lookup}
use scbl.Prelude.Words.{IsClear}
use scbl.ByteOrder.{ByteOrder}
use scbl.Client.{World}
use scbl.Packet.Context.{Context}
use scbl.Rmc.{
  Error, to_error_code, Request, CallResult, returned, failed, request, response_to_bytes,
  response_protocol_bytes, result_to_bytes, response_data_to_bytes, response_error_to_bytes,
}
use scbl.Rmc.Decode.{response_from_bytes, packet_from_bytes}
use scbl.Rmc.Handler.{Registry, call_protocol, to_result, handle_decoded, handle}
use scbl.Rmc.Received.{packet_from_bytes-IsReceived}
use scbl.Rmc.Fields.{IsWireResult}
use scbl.Rmc.RoundTrip.{IsWireResponse, response_from_bytes-to_bytes}

error_code-lt : (e : Error) → to_error_code e < 2 ^ 32
unfolding to_error_code
error_code-lt e = ground arith

-- A response within 4 GiB.
response-IsWire :
    (id : ℕ) (result : CallResult) (content : List ℕ)
    → id < 2 ^ 16
    → IsWireResult result
    → length (result_to_bytes result) ≤ 9 + length content
    → length content < 2 ^ 32 - 12
    → IsWireResponse (record { protocol_id = id; result = result })
unfolding response_protocol_bytes
response-IsWire id result content i w le small = record {
  id = i;
  result = w;
  size = ground (arith, length-append (response_protocol_bytes id) (result_to_bytes result));
}

module _ (bo : ByteOrder) (registry : Registry) (ctx : Context) where
  answer-back :
      (world world' : World) (bs : List ℕ) (r : Request) (answer : Outcome Error (List ℕ))
      (result : CallResult)
      → packet_from_bytes bo bs ≡ ok (request r)
      → call_protocol (lookup r.protocol_id registry) ctx world r ≡ (world', answer)
      → to_result r answer ≡ ok result
      → IsWireResponse (record { protocol_id = r.protocol_id; result = result })
      → (reply : List ℕ) × (handle bo registry ctx world bs ≡ (world', ok reply))
        × (response_from_bytes bo reply
            ≡ ok (record { protocol_id = r.protocol_id; result = result }))
  unfolding handle handle_decoded
  answer-back world world' bs r answer result e called made w = (
    response_to_bytes (record { protocol_id = r.protocol_id; result = result }),
    rw (e, called, made) refl,
    response_from_bytes-to_bytes bo (record { protocol_id = r.protocol_id; result = result }) w,
  )

  -- A request whose protocol returns `content` is answered by bytes that decode to a response with
  -- its protocol, call and method and with `content`, where bit 15 of the method is clear and
  -- `content` is shorter than 4 GiB by 12 bytes.
  pub handle-returned :
      (world world' : World) (bs : List ℕ) (r : Request) (content : List ℕ)
      → IsBytes bs
      → packet_from_bytes bo bs ≡ ok (request r)
      → IsClear 15 r.method_id
      → call_protocol (lookup r.protocol_id registry) ctx world r ≡ (world', ok content)
      → length content < 2 ^ 32 - 12
      → (reply : List ℕ) × (handle bo registry ctx world bs ≡ (world', ok reply))
        × (response_from_bytes bo reply
            ≡ ok (record {
              protocol_id = r.protocol_id;
              result =
                  returned
                    (record { call_id = r.call_id; method_id = r.method_id; content = content });
            }))
  unfolding to_result
  handle-returned world world' bs r content h e clear called small =
      let w = packet_from_bytes-IsReceived bo bs r h e in
      answer-back world world' bs r (ok content) _ e called refl (
        response-IsWire r.protocol_id _ content w.id (w.call, w.method, clear)
          (unfold result_to_bytes response_data_to_bytes in omega arith) small)

  -- A request whose protocol fails with `e`, or is not registered, is answered by bytes that decode
  -- to an error response with its protocol and call and the code of `e`.
  pub handle-failed :
      (world world' : World) (bs : List ℕ) (r : Request) (error : Error)
      → IsBytes bs
      → packet_from_bytes bo bs ≡ ok (request r)
      → call_protocol (lookup r.protocol_id registry) ctx world r ≡ (world', err error)
      → (reply : List ℕ) × (handle bo registry ctx world bs ≡ (world', ok reply))
        × (response_from_bytes bo reply
            ≡ ok (record {
              protocol_id = r.protocol_id;
              result = failed (record { error_code = to_error_code error; call_id = r.call_id });
            }))
  unfolding to_result
  handle-failed world world' bs r error h e called =
      let w = packet_from_bytes-IsReceived bo bs r h e in
      answer-back world world' bs r (err error) _ e called refl (
        response-IsWire r.protocol_id _ [] w.id (error_code-lt error, w.call)
          (unfold result_to_bytes response_error_to_bytes in omega arith) (omega arith))
