-- ===== src/Packet/Context.antt =====
-- server/quazal/src/config.rs: the part of a service's `Context` that the packet code reads, and
-- the third-party calls of the packet code. `compress_to_vec_zlib(_, 6)` and
-- `decompress_to_vec_zlib_with_limit` belong to the crate miniz_oxide and are an interface.
use scbl.Prelude.{
  ℕ, ◌+◌, ◌%◌, ◌^◌, ◌<◌, ◌≤◌, ◌≡◌, List, [], ◌∷◌, Option, none, some, length, leb, IsBytes,
  if◌then◌else◌, arith,
}
use scbl.Packet.{StreamType, d_o, rv, rv_sec, sbmgmt, nat, session_discovery, nat_echo, routing}

pub record Context : Type 0 where
  pub access_key : List ℕ
  pub crypto_key : List ℕ
  pub ticket_key : List ℕ

-- The sum of the bytes as a wrapping `u32`.
unfoldable pub sum_u32 : ℕ → List ℕ → ℕ
sum_u32 acc [] = acc
sum_u32 acc (b ∷ bs) = sum_u32 ((acc + b) % 2 ^ 32) bs

-- `Context::key`.
unfoldable pub key : Context → StreamType → ℕ
unfolding sum_u32
key ctx d_o = 0
key ctx rv = 0
key ctx rv_sec = sum_u32 0 ctx.access_key
key ctx sbmgmt = 0
key ctx nat = 0
key ctx session_discovery = 0
key ctx nat_echo = 0
key ctx routing = 0

-- A decompression that would exceed its limit fails; what was compressed comes back within it.
pub record Zlib : Type 0 where
  pub compress : List ℕ → List ℕ
  pub decompress : List ℕ → ℕ → Option (List ℕ)
  pub decompress-compress :
      (bs : List ℕ) (limit : ℕ) → length bs ≤ limit → decompress (compress bs) limit ≡ some bs
  pub decompress-le :
      (bs out : List ℕ) (limit : ℕ) → decompress bs limit ≡ some out → length out ≤ limit
  pub compress_nonempty : (bs : List ℕ) → 0 < length (compress bs)
  pub compress-IsBytes : (bs : List ℕ) → IsBytes bs → IsBytes (compress bs)

-- A codec that stores its input behind one byte, for tests and witnesses.
abbrev pub unstore : List ℕ → ℕ → Option (List ℕ)
unstore [] limit = none
unstore (b ∷ bs) limit = if leb (length bs) limit then some bs else none

pub unstore-le : (bs out : List ℕ) (limit : ℕ) → unstore bs limit ≡ some out → length out ≤ limit
unstore-le [] out limit e = cc
unstore-le (b ∷ bs) out limit e = ground arith

pub unstore_back :
    (bs : List ℕ) (limit : ℕ) → length bs ≤ limit → unstore (120 ∷ bs) limit ≡ some bs
unstore_back bs limit h = ground arith

pub nonempty_stored : (bs : List ℕ) → 0 < length (120 ∷ bs)
nonempty_stored bs = omega arith

pub stored-IsBytes : (bs : List ℕ) → IsBytes bs → IsBytes (120 ∷ bs)
stored-IsBytes bs h = (omega arith, h)

abbrev pub stored : Zlib
stored = record {
  compress = λ bs. 120 ∷ bs;
  decompress = unstore;
  decompress-compress = unstore_back;
  decompress-le = unstore-le;
  compress_nonempty = nonempty_stored;
  compress-IsBytes = stored-IsBytes;
}
