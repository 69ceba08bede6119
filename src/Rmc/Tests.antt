-- ===== src/Rmc/Tests.antt =====
-- The source's own tests of the codec.
use scbl.Prelude.{ℕ, ◌^◌, ◌<◌, ◌≡◌, refl, inl, List, [], ◌∷◌, length, ok, err, arith}
use scbl.Prelude.Maps.{lookup, insert}
use scbl.ByteOrder.{little_endian}
use scbl.Client.{World, new_client}
use scbl.Packet.Context.{Context}
use scbl.Rmc.{
  unknown_protocol, to_error_code, Request, returned, failed, request, request_to_bytes,
  request_protocol_bytes, with_length, response_to_bytes, response_protocol_bytes, result_to_bytes,
  response_data_to_bytes, response_error_to_bytes, packet_to_bytes,
}
use scbl.Rmc.Decode.{
  read_request_protocol, read_request, request_from_bytes, response_from_bytes, packet_from_bytes,
}
use scbl.Rmc.Handler.{Protocol, register_protocol, call_protocol, handle}
use scbl.Rmc.RoundTrip.{IsWireRequest, request_body, packet_from_bytes-to_bytes}
use scbl.Rmc.Answers.{handle-returned, handle-failed}
use scbl.Rmc.Ids.{request_id_truncated}

-- `test_response`, whose text is "Hello".
hello :
    response_to_bytes (record {
      protocol_id = 1;
      result =
          returned
            (record { call_id = 2; method_id = 3; content = 72 ∷ 101 ∷ 108 ∷ 108 ∷ 111 ∷ [] });
    })
    ≡ 15 ∷ 0 ∷ 0 ∷ 0 ∷ 1 ∷ 1 ∷ 2 ∷ 0 ∷ 0 ∷ 0 ∷ 3 ∷ 128 ∷ 0 ∷ 0 ∷ 72 ∷ 101 ∷ 108 ∷ 108 ∷ 111 ∷ []
unfolding response_to_bytes with_length response_protocol_bytes result_to_bytes
    response_data_to_bytes
hello = refl

failure :
    response_to_bytes
      (record { protocol_id = 1; result = failed (record { call_id = 2; error_code = 3 }) })
    ≡ 10 ∷ 0 ∷ 0 ∷ 0 ∷ 1 ∷ 0 ∷ 3 ∷ 0 ∷ 0 ∷ 0 ∷ 2 ∷ 0 ∷ 0 ∷ 0 ∷ []
unfolding response_to_bytes with_length response_protocol_bytes result_to_bytes
    response_error_to_bytes
failure = refl

abbrev login_request : Request
login_request = record {
  protocol_id = 10;
  call_id = 2;
  method_id = 3;
  parameters = 119 ∷ 118 ∷ 0 ∷ [];
}

login_request-IsWire : IsWireRequest login_request
unfolding request_protocol_bytes
login_request-IsWire = record {
  id = inl (omega arith);
  call = omega arith;
  method = omega arith;
  size = omega arith;
}

packet_from_bytes-to_bytes_example :
    packet_from_bytes little_endian (packet_to_bytes (request login_request))
    ≡ ok (request login_request)
packet_from_bytes-to_bytes_example =
    packet_from_bytes-to_bytes little_endian (request login_request) login_request-IsWire

-- The bytes of the request.
abbrev login_bytes : List ℕ
login_bytes = 12 ∷ 0 ∷ 0 ∷ 0 ∷ 138 ∷ 2 ∷ 0 ∷ 0 ∷ 0 ∷ 3 ∷ 0 ∷ 0 ∷ 0 ∷ 119 ∷ 118 ∷ 0 ∷ []

login_decoded : packet_from_bytes little_endian login_bytes ≡ ok (request login_request)
unfolding packet_from_bytes request_from_bytes read_request read_request_protocol
login_decoded = refl

abbrev client : World
client = record {
  ci = new_client (record { ip = 0x7f000001; port = 3074 }) 77 0;
  client_registry = record { clients = []; connection_id_session_ids = [] };
  socket = [];
}

-- A protocol that returns the parameters it is called with.
abbrev echo : Protocol
echo = record { id = 10; handle = λ ctx ci r. (ci, ok r.parameters) }

abbrev keys : Context
keys = record { access_key = []; crypto_key = []; ticket_key = [] }

echo_called :
    call_protocol (lookup 10 (register_protocol [] echo)) keys client login_request
    ≡ (client, ok (119 ∷ 118 ∷ 0 ∷ []))
unfolding call_protocol lookup register_protocol insert
echo_called = refl

handle-returned_example :
    (reply : List ℕ) × (handle little_endian (register_protocol [] echo) keys client login_bytes
      ≡ (client, ok reply))
    × (response_from_bytes little_endian reply
        ≡ ok (record {
          protocol_id = 10;
          result = returned (record { call_id = 2; method_id = 3; content = 119 ∷ 118 ∷ 0 ∷ [] });
        }))
handle-returned_example =
    handle-returned little_endian (register_protocol [] echo) keys client client login_bytes
      login_request (119 ∷ 118 ∷ 0 ∷ []) (omega arith) login_decoded (omega arith) echo_called
      (omega arith)

nobody_called :
    call_protocol (lookup 10 []) keys client login_request ≡ (client, err unknown_protocol)
unfolding call_protocol lookup
nobody_called = refl

handle-failed_example :
    (reply : List ℕ) × (handle little_endian [] keys client login_bytes ≡ (client, ok reply))
    × (response_from_bytes little_endian reply
        ≡ ok (record {
          protocol_id = 10;
          result = failed (record { error_code = to_error_code unknown_protocol; call_id = 2 });
        }))
handle-failed_example =
    handle-failed little_endian [] keys client client login_bytes login_request unknown_protocol
      (omega arith) login_decoded nobody_called

size_200 : length (request_body (record login_request { protocol_id = 200 })) < 2 ^ 32
unfolding request_protocol_bytes
size_200 = omega arith

request_id_truncated_example :
    request_from_bytes little_endian (request_to_bytes (record login_request { protocol_id = 200 }))
    ≡ ok (record login_request { protocol_id = 72 })
request_id_truncated_example =
    request_id_truncated little_endian (record login_request { protocol_id = 200 }) (omega arith)
      (omega arith) (omega arith) (omega arith) size_200
