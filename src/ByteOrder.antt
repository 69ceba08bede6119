-- ===== src/ByteOrder.antt =====
-- Little-endian numbers in byte lists: the standard library's `to_le_bytes`, and the reading side
-- of the `byteorder` crate, which the server uses and does not contain, as an interface.
pub mod Laws
use scbl.Prelude.{
  ℕ, zero, suc, ◌+◌, ◌*◌, ◌/◌, ◌%◌, ◌^◌, ◌<◌, ◌≡◌, List, [], ◌∷◌, ◌++◌, Option, none, some, length,
  take, drop, leb, if◌then◌else◌, length-append, take-append, drop-append, arith,
}

-- The `n` bytes of `v`, the lowest first.
abbrev pub to_le_bytes : ℕ → ℕ → List ℕ
to_le_bytes zero v = []
to_le_bytes (suc n) v = (v % 256) ∷ to_le_bytes n (v / 256)

abbrev pub from_le_bytes : List ℕ → ℕ
from_le_bytes [] = 0
from_le_bytes (b ∷ bs) = b + 256 * from_le_bytes bs

-- A reader of `n` bytes takes them from the front, and fails on a shorter input.
abbrev pub Reads : ℕ → (List ℕ → Option (ℕ × List ℕ)) → Type 0
Reads n f =
    ((front rest : List ℕ)
      → length front ≡ n
      → f (front ++ rest) ≡ some (from_le_bytes front, rest))
    × ((bs : List ℕ) → length bs < n → f bs ≡ none)

-- `ReadBytesExt` over a cursor, which is the list of the bytes that are left. `none` is an
-- `UnexpectedEof`.
pub record ByteOrder : Type 0 where
  pub read_u8 : List ℕ → Option (ℕ × List ℕ)
  pub read_u16 : List ℕ → Option (ℕ × List ℕ)
  pub read_u32 : List ℕ → Option (ℕ × List ℕ)
  pub read_u64 : List ℕ → Option (ℕ × List ℕ)
  pub read_u8-Reads : Reads 1 read_u8
  pub read_u16-Reads : Reads 2 read_u16
  pub read_u32-Reads : Reads 4 read_u32
  pub read_u64-Reads : Reads 8 read_u64

-- A reader that meets the interface, for tests and witnesses.
abbrev pub take_le : ℕ → List ℕ → Option (ℕ × List ℕ)
take_le n bs = if leb n (length bs) then some (from_le_bytes (take n bs), drop n bs) else none

pub take_le-Reads : (n : ℕ) → Reads n (take_le n)
take_le-Reads n = (
  λ front rest h.
      ground
        (arith, length-append front rest, take-append n front rest h, drop-append n front rest h),
  λ bs h. ground arith,
)

abbrev pub little_endian : ByteOrder
little_endian = record {
  read_u8 = take_le 1;
  read_u16 = take_le 2;
  read_u32 = take_le 4;
  read_u64 = take_le 8;
  read_u8-Reads = take_le-Reads 1;
  read_u16-Reads = take_le-Reads 2;
  read_u32-Reads = take_le-Reads 4;
  read_u64-Reads = take_le-Reads 8;
}
