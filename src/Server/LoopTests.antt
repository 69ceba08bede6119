-- ===== src/Server/LoopTests.antt =====
-- The server's loop, sessions and answers at concrete packets.
use scbl.Prelude.{
  ℕ, zero, suc, ◌+◌, ◌%◌, ◌≡◌, refl, true, false, List, [], ◌∷◌, none, some, length, ok, arith,
}
use scbl.Prelude.Maps.{lookup, insert, keys, mem, IsId}
use scbl.Client.{ClientInfo, new_client}
use scbl.Packet.{QPacket, connect, stream_type_to_u8, packet_type_to_u8, contains, insert_flag}
use scbl.Packet.Context.{key}
use scbl.Packet.Checksum.{calc_checksum_from_data}
use scbl.Packet.RoundTrip.{IsWire}
use scbl.Packet.Encode.{
  to_bytes, to_data_bytes, type_fields, pack_payload, seal_payload, vport_to_bytes, size_field,
}
use scbl.Fragment.{differs, reset_fragment_state, finish_fragmented_payload}
use scbl.Fragment.Invariant.{new_client-Inv}
use scbl.Fragment.Assembly.{receive}
use scbl.Server.{
  Server, new_server, emit, sent, prepare, chunks, send_chunks, send_response, send_packet,
  complete_response, data_response,
}
use scbl.Server.Steps.{answer, handle_packet}
use scbl.Server.Login.{login-registers}
use scbl.Server.Delivery.{chunk_with_id, chunks-reassembled}
use scbl.Server.Numbers.{Sends, answer-Sends}
use scbl.Server.Tests.{bare, env, local, hello}

abbrev hello_bytes : List ℕ
hello_bytes = 33 ∷ 33 ∷ 96 ∷ 0 ∷ 0 ∷ 0 ∷ 0 ∷ 0 ∷ 1 ∷ 0 ∷ 0 ∷ 0 ∷ 0 ∷ 0 ∷ 0 ∷ 0 ∷ 163 ∷ []

hello-IsWire : IsWire hello
hello-IsWire = record {
  source_port = omega arith;
  destination_port = omega arith;
  flag_bits = omega arith;
  session_byte = omega arith;
  signature_word = omega arith;
  sequence_word = omega arith;
  conn_fits = omega arith;
  fragment_fits = tt;
}

abbrev greeting : QPacket
greeting = record hello { packet_type = connect; signature = 77; conn_signature = some 5 }

greeting-IsWire : IsWire greeting
greeting-IsWire = record {
  source_port = omega arith;
  destination_port = omega arith;
  flag_bits = omega arith;
  session_byte = omega arith;
  signature_word = omega arith;
  sequence_word = omega arith;
  conn_fits = omega arith;
  fragment_fits = tt;
}

no_ack : contains 12 1 ≡ false
unfolding contains
no_ack = refl

login-registers_example :
    (s1 : Server) × (s2 : Server) × (ci : ClientInfo) × (handle_packet bare env new_server hello
        local
      ≡ ok s1)
    × (handle_packet bare env s1 greeting local ≡ ok s2)
    × (lookup 77 s2.client_registry.clients ≡ some ci)
    × (ci.client_signature ≡ some 5)
    × (lookup 77 s2.new_clients ≡ none)
login-registers_example =
    login-registers bare (omega arith, omega arith) env env new_server hello greeting local 5
      (omega arith) (omega arith) hello-IsWire refl no_ack greeting-IsWire refl no_ack refl refl
      refl

-- 1001 bytes.
abbrev filled : ℕ → List ℕ
filled zero = []
filled (suc n) = 7 ∷ filled n

two_chunks : length (chunks (length (filled 1001)) (filled 1001)) ≡ 2
unfolding chunks
two_chunks = refl

unclaimed : differs (new_client local 77 0).packet_fragment_final_sequence 102 ≡ true
unfolding differs new_client
unclaimed = refl

one_arrives : (k : ℕ) → IsId 1 k → mem k (keys {V = ℕ} ((1, 5) ∷ [])) ≡ true
one_arrives zero i = absurd (omega arith)
one_arrives (suc zero) i = refl
one_arrives (suc (suc k)) i = absurd (omega arith)

chunks-reassembled_example :
    let sent = chunk_with_id (chunks (length (filled 1001)) (filled 1001)) in
    let ci = receive sent 102 (new_client local 77 0) ((1, 5) ∷ []) in
    finish_fragmented_payload (λ n. true) ci 102 (sent 0) 7
    ≡ (reset_fragment_state ci, ok (filled 1001))
chunks-reassembled_example =
    chunks-reassembled (filled 1001) 1 102 5 (λ n. true) (new_client local 77 0) 1 [] 7
      (omega arith) two_chunks (omega arith) (omega arith) (new_client-Inv local 77 0) unclaimed
      (omega arith) one_arrives (omega arith) (λ n. refl)

abbrev seven : List ℕ
seven = 33 ∷ 33 ∷ 114 ∷ 0 ∷ 0 ∷ 0 ∷ 0 ∷ 0 ∷ 1 ∷ 0 ∷ 0 ∷ 3 ∷ 0 ∷ 1 ∷ 120 ∷ 7 ∷ 56 ∷ []

abbrev after_seven : Server × ClientInfo
after_seven =
    (emit new_server (sent local seven), record (new_client local 77 0) { server_sequence_id = 2 })

answered : answer bare new_server hello local (new_client local 77 0) (ok (7 ∷ [])) ≡ ok after_seven
unfolding answer chunks send_chunks send_response send_packet prepare complete_response
    data_response to_bytes to_data_bytes type_fields pack_payload seal_payload vport_to_bytes
    size_field contains insert_flag insert key calc_checksum_from_data stream_type_to_u8
    packet_type_to_u8 new_server new_client
answered = refl

one_chunk : chunks 1 (7 ∷ []) ≡ (7 ∷ []) ∷ []
unfolding chunks
one_chunk = refl

answer-Sends_example :
    Sends bare new_server after_seven.0 local
      (chunk_with_id (chunks 1 (7 ∷ [])))
      (((new_client local 77 0).server_sequence_id + 65535 + length (chunks 1 (7 ∷ []))) % 65536)
      (length (chunks 1 (7 ∷ [])))
    × (after_seven.1.server_sequence_id
        ≡ (((new_client local 77 0).server_sequence_id + 65535 + length (chunks 1 (7 ∷ []))) % 65536
            + 1)
          % 65536)
answer-Sends_example =
    answer-Sends bare new_server local hello (new_client local 77 0) (7 ∷ []) after_seven
      (rw one_chunk (omega arith)) (unfold new_client in omega arith) answered
