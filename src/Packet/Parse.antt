-- ===== src/Packet/Parse.antt =====
-- `parse` over what `to_bytes` wrote: the checksum is right and the packet comes back.
use scbl.Prelude.{
  ℕ, ◌-◌, ◌<◌, ◌≡◌, ◌==◌, ==_iff, refl, ap, ◌∙◌, Bool, true, false, ◌&&◌, not, List, [], ◌∷◌, ◌++◌,
  take, length, is_empty, length-append, take-append, ok, err, if◌then◌else◌, IsBytes, arith,
}
use scbl.ByteOrder.{ByteOrder}
use scbl.Packet.{invalid_checksum, QPacket, contains, has_size}
use scbl.Packet.Context.{Context, key, Zlib}
use scbl.Packet.Checksum.{calc_checksum_from_data}
use scbl.Packet.Encode.{pack_payload, seal_payload, to_bytes, calc_checksum}
use scbl.Packet.Decode.{open_payload, from_reader, validate, parse}
use scbl.Packet.Payload.{
  IsCompressible, is_sealed, unpack-pack, pack-IsBytes, open-seal, open-seal_plain,
}
use scbl.Packet.RoundTrip.{
  IsWire, written, written_sum, from_reader-written, length-written, to_bytes-eq-ok,
  to_data_bytes-written,
}

take_front : (bs rest : List ℕ) → take (length (bs ++ rest) - length rest) (bs ++ rest) ≡ bs
take_front bs rest =
    let n : length (bs ++ rest) - length rest ≡ length bs = omega (arith, length-append bs rest) in
    rw n (take-append (length bs) bs rest refl)

module _ (bo : ByteOrder) (z : Zlib) (ctx : Context) where
  -- `validate` compares the checksum over all bytes but the last.
  pub validate-snoc :
      (q : QPacket) (body : List ℕ) (last : ℕ)
      → validate bo z ctx q (body ++ (last ∷ [])) ≡ (
          if q.checksum == calc_checksum_from_data bo (key ctx q.destination.stream_type) body
          then ok tt
          else err invalid_checksum)
  unfolding validate
  validate-snoc q [] last = refl
  validate-snoc q (b ∷ bs) last =
      let n : length (bs ++ (last ∷ [])) ≡ length (b ∷ bs) =
        omega (arith, length-append bs (last ∷ [])) in
      rw (n, take-append (length (b ∷ bs)) (b ∷ bs) (last ∷ []) refl)

  parse-from_reader :
      (q : QPacket) (body rest : List ℕ)
      → from_reader bo z ctx ((body ++ (q.checksum ∷ [])) ++ rest) ≡ ok (q, rest)
      → q.checksum ≡ calc_checksum_from_data bo (key ctx q.destination.stream_type) body
      → parse bo z ctx ((body ++ (q.checksum ∷ [])) ++ rest) ≡ ok (q, rest)
  unfolding parse
  parse-from_reader q body rest e sum = rw (
    e,
    take_front (body ++ (q.checksum ∷ [])) rest,
    validate-snoc q body q.checksum,
    (==_iff _ _).1 sum,
  )

module _ (bo : ByteOrder) (z : Zlib) (ctx : Context) (p : QPacket) (w : IsWire p) where
  parse-reopened :
      (sealed rest : List ℕ) (payload : List ℕ) (use_compression : Bool)
      → contains p.flags has_size ≡ true
      → length sealed < 65536
      → open_payload z ctx p.packet_type p.source.stream_type sealed ≡ ok (payload, use_compression)
      → parse bo z ctx
          ((written bo z ctx p w sealed ++ (written_sum bo z ctx p w sealed ∷ [])) ++ rest)
        ≡ ok (
          record p {
            payload = payload;
            use_compression = use_compression;
            checksum = written_sum bo z ctx p w sealed;
          },
          rest,
        )
  parse-reopened sealed rest payload use_compression sized small opened =
      parse-from_reader bo z ctx _ (written bo z ctx p w sealed) rest
        (from_reader-written bo z ctx p w sealed rest sized small ∙ rw opened) refl

  small_sealed :
      (bs sealed : List ℕ)
      → bs ≡ written bo z ctx p w sealed ++ (written_sum bo z ctx p w sealed ∷ [])
      → length bs < 65536
      → length sealed < 65536
  small_sealed bs sealed e h = omega (
    arith,
    ap length e,
    length-append (written bo z ctx p w sealed) (written_sum bo z ctx p w sealed ∷ []),
    length-written bo z ctx p w sealed,
  )

  calc_checksum_written :
      (sealed packed : List ℕ)
      → pack_payload z p.use_compression p.payload ≡ ok packed
      → seal_payload ctx p packed ≡ ok sealed
      → calc_checksum bo z ctx p ≡ ok (written_sum bo z ctx p w sealed)
  unfolding calc_checksum
  calc_checksum_written sealed packed hp hs =
      rw (to_data_bytes-written bo z ctx p w packed sealed hp hs)

-- A packet of an RVSec stream that is no SYN, with a size field, is parsed back from its bytes,
-- whatever follows them: `parse` accepts the checksum and returns every field, with the checksum
-- that `calc_checksum` gives and with `use_compression` off for an empty payload. The fields are in
-- their ranges, the bytes fit a datagram, and a compressed payload is one that can be undone.
pub parse-to_bytes :
    (bo : ByteOrder) (z : Zlib) (ctx : Context) (p : QPacket) (bs rest : List ℕ)
    → IsWire p
    → contains p.flags has_size ≡ true
    → is_sealed p.packet_type p.source.stream_type ≡ true
    → IsBytes p.payload
    → (p.use_compression ≡ true → IsCompressible z p.payload)
    → length bs < 65536
    → to_bytes bo z ctx p ≡ ok bs
    → (sum : ℕ) × (calc_checksum bo z ctx p ≡ ok sum)
      × (parse bo z ctx (bs ++ rest)
          ≡ ok (
            record p {
              use_compression = not (is_empty p.payload) && p.use_compression;
              checksum = sum;
            },
            rest,
          ))
parse-to_bytes bo z ctx p bs rest w sized sealing bytes undo small e =
    let (packed, sealed, hp, hs, same) = to_bytes-eq-ok bo z ctx p w bs e in
    let (opened, _) =
      open-seal z ctx p packed sealed sealing (pack-IsBytes z _ _ packed bytes hp) hs in
    (
      written_sum bo z ctx p w sealed,
      calc_checksum_written bo z ctx p w sealed packed hp hs,
      rw same (
          parse-reopened bo z ctx p w sealed rest p.payload _ sized
            (small_sealed bo z ctx p w bs sealed same small)
            (opened ∙ unpack-pack z _ _ packed undo hp)),
    )

-- On every other stream, and for a SYN, the reader does not take off the compression byte that
-- `to_data_bytes` puts before a payload: the packet that is parsed back carries the packed payload.
pub parse-to_bytes_plain :
    (bo : ByteOrder) (z : Zlib) (ctx : Context) (p : QPacket) (bs rest : List ℕ)
    → IsWire p
    → contains p.flags has_size ≡ true
    → is_sealed p.packet_type p.source.stream_type ≡ false
    → length bs < 65536
    → to_bytes bo z ctx p ≡ ok bs
    → (packed : List ℕ) × (sum : ℕ) × (pack_payload z p.use_compression p.payload ≡ ok packed)
      × (calc_checksum bo z ctx p ≡ ok sum)
      × (parse bo z ctx (bs ++ rest)
          ≡ ok (record p { payload = packed; use_compression = false; checksum = sum }, rest))
parse-to_bytes_plain bo z ctx p bs rest w sized plain small e =
    let (packed, sealed, hp, hs, same) = to_bytes-eq-ok bo z ctx p w bs e in
    let (opened, _) = open-seal_plain z ctx p packed sealed plain hs in
    (
      packed,
      written_sum bo z ctx p w sealed,
      hp,
      calc_checksum_written bo z ctx p w sealed packed hp hs,
      rw same (
          parse-reopened bo z ctx p w sealed rest packed false sized
            (small_sealed bo z ctx p w bs sealed same small) opened),
    )
