-- ===== src/Packet/RoundTrip.antt =====
-- A packet that `to_bytes` wrote is read back by `from_reader`, whatever follows it.
use scbl.Prelude.{
  ℕ, ◌^◌, ◌<◌, ◌≤◌, length-append, ◌≡◌, sym, true, List, [], ◌∷◌, ◌++◌, append_assoc, length,
  Outcome, ok, ◌>>=◌, >>=-eq-ok, >>=_assoc, ok-injective, arith,
}
use scbl.ByteOrder.{ByteOrder, to_le_bytes}
use scbl.Packet.{Error, QPacket, has_conn_signature, is_data, contains, has_size}
use scbl.Packet.Context.{Context, key, Zlib}
use scbl.Packet.Checksum.{calc_checksum_from_data}
use scbl.Packet.Encode.{
  vport_to_bytes, type_flag, size_field, layout, pack_payload, seal_payload, to_data_bytes,
  to_bytes,
}
use scbl.Packet.Decode.{open_payload, from_reader, Head, read_head, read_payload}
use scbl.ByteOrder.Laws.{read_u8_cons, read_u16_back, read_u32_back}
use scbl.Packet.Fields.{
  Fits, conn_bytes, fragment_bytes, vport_back, type_flag_type, type_flag_flags, type_flag-IsByte,
  packet_type_back, flags_back, read_exact-append, conn_signature_back, fragment_id_back,
  payload_size_back, type_fields_bytes,
}

-- The ranges of the fields: what their Rust types and the four bits of a port allow, and an
-- optional field exactly where the kind of packet has it.
pub record IsWire (p : QPacket) : Type 0 where
  pub source_port : p.source.port < 16
  pub destination_port : p.destination.port < 16
  pub flag_bits : p.flags < 16
  pub session_byte : p.session_id < 256
  pub signature_word : p.signature < 2 ^ 32
  pub sequence_word : p.sequence < 2 ^ 16
  pub conn_fits : Fits (has_conn_signature p.packet_type) (2 ^ 32) p.conn_signature
  pub fragment_fits : Fits (is_data p.packet_type) 256 p.fragment_id

-- What the reader makes of a header followed by a payload: it opens the payload.
abbrev pub reopened :
    Zlib → Context → QPacket → List ℕ → ℕ → List ℕ → Outcome Error (QPacket × List ℕ)
reopened z ctx p sealed sum rest =
    open_payload z ctx p.packet_type p.source.stream_type sealed >>= λ r.
    ok (record p { payload = r.0; use_compression = r.1; checksum = sum }, rest)

module _ (bo : ByteOrder) (z : Zlib) (ctx : Context) (p : QPacket) (w : IsWire p) where
  abbrev pub written : List ℕ → List ℕ
  written = layout p (conn_bytes p.conn_signature ++ fragment_bytes p.fragment_id)

  abbrev fields_of : List ℕ → List ℕ
  fields_of sealed =
      (conn_bytes p.conn_signature ++ fragment_bytes p.fragment_id)
      ++ (size_field p sealed ++ sealed)

  abbrev rest_of : List ℕ → List ℕ
  rest_of sealed =
      vport_to_bytes p.destination
      ++ (type_flag p
          ∷ p.session_id
          ∷ (to_le_bytes 4 p.signature ++ (to_le_bytes 2 p.sequence ++ fields_of sealed)))

  -- The checksum that is appended.
  abbrev pub written_sum : List ℕ → ℕ
  written_sum sealed =
      calc_checksum_from_data bo (key ctx p.destination.stream_type) (written sealed)

  abbrev pub head : Head
  head = record {
    source = p.source;
    destination = p.destination;
    packet_type = p.packet_type;
    flags = p.flags;
    session_id = p.session_id;
    signature = p.signature;
    sequence = p.sequence;
  }

  pub read_head_back :
      (rest : List ℕ)
      → read_head bo (
          vport_to_bytes p.source
          ++ (vport_to_bytes p.destination
              ++ (type_flag p
                  ∷ p.session_id
                  ∷ (to_le_bytes 4 p.signature ++ (to_le_bytes 2 p.sequence ++ rest)))))
        ≡ ok (head, rest)
  unfolding read_head
  read_head_back rest = rw (
    vport_back bo p.source _ w.source_port,
    vport_back bo p.destination _ w.destination_port,
    read_u8_cons bo (type_flag p) _ (type_flag-IsByte p w.flag_bits),
    type_flag_type p w.flag_bits,
    packet_type_back p.packet_type,
    type_flag_flags p w.flag_bits,
    flags_back p.flags w.flag_bits,
    read_u8_cons bo p.session_id _ w.session_byte,
    read_u32_back bo p.signature _ w.signature_word,
    read_u16_back bo p.sequence _ w.sequence_word,
  )

  from_reader-layout :
      (sealed : List ℕ) (sum : ℕ) (rest : List ℕ)
      → contains p.flags has_size ≡ true
      → length sealed < 65536
      → sum < 256
      → from_reader bo z ctx (
          vport_to_bytes p.source
          ++ (vport_to_bytes p.destination
              ++ (type_flag p
                  ∷ p.session_id
                  ∷ (to_le_bytes 4 p.signature
                      ++ (to_le_bytes 2 p.sequence
                          ++ (conn_bytes p.conn_signature
                              ++ (fragment_bytes p.fragment_id
                                  ++ (size_field p sealed ++ (sealed ++ (sum ∷ rest))))))))))
        ≡ reopened z ctx p sealed sum rest
  unfolding from_reader read_payload
  from_reader-layout sealed sum rest sized small byte =
      rw
        (
          read_head_back _,
          conn_signature_back bo p.packet_type p.conn_signature _ w.conn_fits,
          fragment_id_back bo p.packet_type p.fragment_id _ w.fragment_fits,
          payload_size_back bo p sealed _ sized small,
          read_exact-append sealed,
        )
        (simp (>>=_assoc, read_u8_cons bo sum rest byte))

  from_reader-appended :
      (sealed : List ℕ) (sum : ℕ) (rest : List ℕ)
      → contains p.flags has_size ≡ true
      → length sealed < 65536
      → sum < 256
      → from_reader bo z ctx ((written sealed ++ (sum ∷ [])) ++ rest)
        ≡ reopened z ctx p sealed sum rest
  from_reader-appended sealed sum rest sized small byte =
      simp append_assoc (from_reader-layout sealed sum rest sized small byte)

  written_sum-lt : (sealed : List ℕ) → written_sum sealed < 256
  unfolding calc_checksum_from_data
  written_sum-lt sealed = omega arith

  pub from_reader-written :
      (sealed rest : List ℕ)
      → contains p.flags has_size ≡ true
      → length sealed < 65536
      → from_reader bo z ctx ((written sealed ++ (written_sum sealed ∷ [])) ++ rest)
        ≡ reopened z ctx p sealed (written_sum sealed) rest
  from_reader-written sealed rest sized small =
      from_reader-appended sealed (written_sum sealed) rest sized small (written_sum-lt sealed)

  -- The sealed payload is no longer than the packet.
  pub length-written : (sealed : List ℕ) → length sealed ≤ length (written sealed)
  length-written sealed = ground (
    arith,
    length-append (vport_to_bytes p.source) (rest_of sealed),
    length-append (vport_to_bytes p.destination) (
        type_flag p
        ∷ p.session_id
        ∷ (to_le_bytes 4 p.signature ++ (to_le_bytes 2 p.sequence ++ fields_of sealed))),
    length-append (conn_bytes p.conn_signature ++ fragment_bytes p.fragment_id)
        (size_field p sealed ++ sealed),
    length-append (size_field p sealed) sealed,
  )

  -- The bytes that `to_data_bytes` returns, part by part.
  to_data_bytes-eq-ok :
      (bytes : List ℕ)
      → to_data_bytes z ctx p ≡ ok bytes
      → (packed sealed : List ℕ) × (pack_payload z p.use_compression p.payload ≡ ok packed)
        × (seal_payload ctx p packed ≡ ok sealed)
        × (bytes ≡ written sealed)
  unfolding to_data_bytes
  to_data_bytes-eq-ok bytes e =
      let fields = type_fields_bytes p.packet_type _ _ w.conn_fits w.fragment_fits in
      let (packed, hp, e') =
        >>=-eq-ok (pack_payload z p.use_compression p.payload) _ (rw fields at e) in
      let (sealed, hs, result) = >>=-eq-ok (seal_payload ctx p packed) _ e' in
      (packed, sealed, hp, hs, sym (ok-injective result))

  pub to_data_bytes-written :
      (packed sealed : List ℕ)
      → pack_payload z p.use_compression p.payload ≡ ok packed
      → seal_payload ctx p packed ≡ ok sealed
      → to_data_bytes z ctx p ≡ ok (written sealed)
  unfolding to_data_bytes
  to_data_bytes-written packed sealed hp hs =
      rw (type_fields_bytes p.packet_type _ _ w.conn_fits w.fragment_fits, hp, hs)

  pub to_bytes-eq-ok :
      (bs : List ℕ)
      → to_bytes bo z ctx p ≡ ok bs
      → (packed sealed : List ℕ) × (pack_payload z p.use_compression p.payload ≡ ok packed)
        × (seal_payload ctx p packed ≡ ok sealed)
        × (bs ≡ written sealed ++ (written_sum sealed ∷ []))
  unfolding to_bytes
  to_bytes-eq-ok bs e =
      let (bytes, hd, result) = >>=-eq-ok (to_data_bytes z ctx p) _ e in
      let (packed, sealed, hp, hs, same) = to_data_bytes-eq-ok bytes hd in
      (packed, sealed, hp, hs, rw same at (sym (ok-injective result)))
