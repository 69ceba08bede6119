-- ===== src/Packet/Payload.antt =====
-- The payload: packing behind the compression byte, enciphering, and both taken back.
use scbl.Prelude.{
  ℕ, ◌+◌, ◌/◌, ◌%◌, ◌≤◌, ◌≡◌, ◌≢◌, ◌==◌, refl, sym, ◌∙◌, Bool, true, false, ◌&&◌, not, List, [],
  ◌∷◌, length, is_empty, ok, IsBytes, ok-injective, arith,
}
use scbl.Rc4.Keystream.{crypt_key_twice}
use scbl.Packet.{QPacket, PacketType, StreamType, is_syn, is_rv_sec}
use scbl.Packet.Context.{Context, Zlib}
use scbl.Packet.Encode.{pack_payload, seal_payload, crypt}
use scbl.Packet.Decode.{
  unpack_payload, open_payload, decompress_payload, max_decompressed_packet_bytes,
}

-- The packets whose payload is enciphered and has the compression byte taken off by the reader.
abbrev pub is_sealed : PacketType → StreamType → Bool
is_sealed packet_type stream_type = not (is_syn packet_type) && is_rv_sec stream_type

-- What compression needs to be undone: the compression byte is not 0 as a `u8`, and the payload is
-- within the limit of the reader.
pub record IsCompressible (z : Zlib) (payload : List ℕ) : Type 0 where
  pub ratio : (length payload / length (z.compress payload) + 1) % 256 ≢ 0
  pub within : length payload ≤ max_decompressed_packet_bytes

module _ (z : Zlib) where
  abbrev ratio_byte : List ℕ → ℕ
  ratio_byte payload = (length payload / length (z.compress payload) + 1) % 256

  pack_compressed :
      (x : ℕ) (xs : List ℕ)
      → pack_payload z true (x ∷ xs) ≡ ok (ratio_byte (x ∷ xs) ∷ z.compress (x ∷ xs))
  unfolding pack_payload
  pack_compressed x xs =
      let nonempty : (length (z.compress (x ∷ xs)) == 0) ≡ false =
        ground (arith, z.compress_nonempty (x ∷ xs)) in
      rw nonempty

  -- Packing never panics.
  pub pack_total :
      (use_compression : Bool) (payload : List ℕ)
      → (packed : List ℕ) × (pack_payload z use_compression payload ≡ ok packed)
  unfolding pack_payload
  pack_total use_compression [] = ([], refl)
  pack_total false (x ∷ xs) = (0 ∷ x ∷ xs, refl)
  pack_total true (x ∷ xs) = (ratio_byte (x ∷ xs) ∷ z.compress (x ∷ xs), pack_compressed x xs)

  -- A compressed payload behind a byte that is not 0 is decompressed.
  unpack_compressed :
      (x : ℕ) (xs : List ℕ)
      → IsCompressible z (x ∷ xs)
      → unpack_payload z (ratio_byte (x ∷ xs) ∷ z.compress (x ∷ xs)) ≡ ok (x ∷ xs, true)
  unfolding unpack_payload decompress_payload
  unpack_compressed x xs c =
      let marked : (ratio_byte (x ∷ xs) == 0) ≡ false = ground (arith, c.ratio) in
      rw (marked, z.decompress-compress (x ∷ xs) max_decompressed_packet_bytes c.within)

  -- Unpacking gives the payload back, and says whether it had been compressed.
  pub unpack-pack :
      (use_compression : Bool) (payload packed : List ℕ)
      → (use_compression ≡ true → IsCompressible z payload)
      → pack_payload z use_compression payload ≡ ok packed
      → unpack_payload z packed ≡ ok (payload, not (is_empty payload) && use_compression)
  unfolding pack_payload unpack_payload
  unpack-pack use_compression [] packed c e = rw (sym (ok-injective e))
  unpack-pack false (x ∷ xs) packed c e = rw (sym (ok-injective e))
  unpack-pack true (x ∷ xs) packed c e =
      rw (sym (ok-injective (sym (pack_compressed x xs) ∙ e))) (unpack_compressed x xs (c refl))

  pub pack-IsBytes :
      (use_compression : Bool) (payload packed : List ℕ)
      → IsBytes payload
      → pack_payload z use_compression payload ≡ ok packed
      → IsBytes packed
  unfolding pack_payload
  pack-IsBytes use_compression [] packed h e = rw (sym (ok-injective e)) tt
  pack-IsBytes false (x ∷ xs) packed h e = rw (sym (ok-injective e)) (omega arith, h)
  pack-IsBytes true (x ∷ xs) packed h e =
      rw (sym (ok-injective (sym (pack_compressed x xs) ∙ e)))
        (omega arith, z.compress-IsBytes (x ∷ xs) h)

module _ (z : Zlib) (ctx : Context) where
  -- What `from_reader` makes of a payload that `to_data_bytes` sealed for the same types.
  pub open-seal :
      (p : QPacket) (packed sealed : List ℕ)
      → is_sealed p.packet_type p.source.stream_type ≡ true
      → IsBytes packed
      → seal_payload ctx p packed ≡ ok sealed
      → (open_payload z ctx p.packet_type p.source.stream_type sealed ≡ unpack_payload z packed)
        × (length sealed ≡ length packed)
  unfolding seal_payload open_payload crypt
  open-seal p packed sealed s h e =
      let back = crypt_key_twice ctx.crypto_key packed sealed h (rw s at e) in
      (rw (s, back.0), back.1)

  -- Where nothing is enciphered the reader leaves the payload as it came.
  pub open-seal_plain :
      (p : QPacket) (packed sealed : List ℕ)
      → is_sealed p.packet_type p.source.stream_type ≡ false
      → seal_payload ctx p packed ≡ ok sealed
      → (open_payload z ctx p.packet_type p.source.stream_type sealed ≡ ok (packed, false))
        × (sealed ≡ packed)
  unfolding seal_payload open_payload
  open-seal_plain p packed sealed s e =
      let same : packed ≡ sealed = ok-injective (rw s at e) in (rw (s, same), sym same)
