-- ===== src/ErrorCode/Transport.antt =====
-- server/quazal/src/rmc/result.rs: `TransportError` and its codes.
use scbl.Prelude.{ℕ, List, [], ◌∷◌, arith}
use scbl.ErrorCode.Primitive.{IsNumbered, try_from_primitive}

pub data TransportError : Type 0 where
  unknown connection_failure invalid_url invalid_key invalid_url_type : TransportError
  duplicate_endpoint io_error timeout connection_reset incorrect_remote_authentication :
      TransportError
  server_request_error decompression_failure reliable_send_buffer_full_fatal u_pn_p_cannot_init
        u_pn_p_cannot_add_mapping :
      TransportError
  nat_pmp_cannot_init nat_pmp_cannot_add_mapping unsupported_nat dns_error proxy_error :
      TransportError
  data_remaining no_buffer not_found temporary_server_error permanent_server_error : TransportError
  service_unavailable reliable_send_buffer_full invalid_station invalid_sub_stream_id
        packet_buffer_full :
      TransportError
  nat_traversal_error nat_check_error : TransportError

unfoldable pub transport_code : TransportError → ℕ
transport_code unknown = 1
transport_code connection_failure = 2
transport_code invalid_url = 3
transport_code invalid_key = 4
transport_code invalid_url_type = 5
transport_code duplicate_endpoint = 6
transport_code io_error = 7
transport_code timeout = 8
transport_code connection_reset = 9
transport_code incorrect_remote_authentication = 10
transport_code server_request_error = 11
transport_code decompression_failure = 12
transport_code reliable_send_buffer_full_fatal = 13
transport_code u_pn_p_cannot_init = 14
transport_code u_pn_p_cannot_add_mapping = 15
transport_code nat_pmp_cannot_init = 16
transport_code nat_pmp_cannot_add_mapping = 17
transport_code unsupported_nat = 19
transport_code dns_error = 20
transport_code proxy_error = 21
transport_code data_remaining = 22
transport_code no_buffer = 23
transport_code not_found = 24
transport_code temporary_server_error = 25
transport_code permanent_server_error = 26
transport_code service_unavailable = 27
transport_code reliable_send_buffer_full = 28
transport_code invalid_station = 29
transport_code invalid_sub_stream_id = 30
transport_code packet_buffer_full = 31
transport_code nat_traversal_error = 32
transport_code nat_check_error = 33

abbrev pub transport_errors : List TransportError
transport_errors =
    unknown ∷ connection_failure ∷ invalid_url ∷ invalid_key ∷ invalid_url_type ∷ duplicate_endpoint
    ∷ io_error ∷ timeout ∷ connection_reset ∷ incorrect_remote_authentication ∷ server_request_error
    ∷ decompression_failure ∷ reliable_send_buffer_full_fatal ∷ u_pn_p_cannot_init
    ∷ u_pn_p_cannot_add_mapping ∷ nat_pmp_cannot_init ∷ nat_pmp_cannot_add_mapping ∷ unsupported_nat
    ∷ dns_error ∷ proxy_error ∷ data_remaining ∷ no_buffer ∷ not_found ∷ temporary_server_error
    ∷ permanent_server_error ∷ service_unavailable ∷ reliable_send_buffer_full ∷ invalid_station
    ∷ invalid_sub_stream_id ∷ packet_buffer_full ∷ nat_traversal_error ∷ nat_check_error ∷ []

pub transport_code-IsNumbered : IsNumbered transport_code transport_errors
unfolding transport_code try_from_primitive
transport_code-IsNumbered = record { word = λ e. ground arith; back = λ e. ground arith }
