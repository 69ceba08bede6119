-- ===== src/Stream.antt =====
-- server/quazal/src/rmc/basic.rs: `ReadStream` and `WriteStream`, and the encodings of numbers,
-- arrays, buffers, collections and strings. A reader takes the bytes that are left; a write to a
-- vector never fails, so a writer is the bytes that it appends.
pub mod Laws
pub mod Limits
pub mod Collections
mod Tests
use scbl.Prelude.{
  ℕ, zero, suc, ◌+◌, ◌*◌, ◌%◌, ◌^◌, ltb, leb, ◌==◌, Bool, not, List, [], ◌∷◌, ◌++◌, length, take,
  drop, is_empty, Option, Outcome, ok, err, ok_or, map_err, ◌>>=◌, if◌then◌else◌,
}
use scbl.ByteOrder.{ByteOrder, to_le_bytes}

abbrev pub max_length_prefixed_bytes : ℕ
max_length_prefixed_bytes = 1024 * 1024

abbrev pub max_collection_items : ℕ
max_collection_items = 65536

-- `FromStreamError`. The values inside the parsing errors are only logged.
pub data FromStreamError : Type 0 where
  io : FromStreamError
  missing_bytes : ℕ → FromStreamError
  parse_int parse_station_url parse_c_string utf8 : FromStreamError
  length_limit_exceeded : ℕ → ℕ → FromStreamError
  allocation_failed : ℕ → FromStreamError

-- `FromStream::from_stream`.
abbrev pub Reader {ℓ} : Type ℓ → Type ℓ
Reader A = List ℕ → Outcome FromStreamError (A × List ℕ)

-- `for _ in 0..len`, which stops at the first error.
unfoldable pub read_items {ℓ} : {A : Type ℓ} → Reader A → ℕ → Reader (List A)
read_items read zero rdr = ok ([], rdr)
read_items read (suc n) rdr =
    read rdr >>= λ item. read_items read n item.1 >>= λ rest. ok (item.0 ∷ rest.0, rest.1)

module _ (bo : ByteOrder) where
  unfoldable pub read_u8 : Reader ℕ
  read_u8 rdr = ok_or (bo.read_u8 rdr) io

  unfoldable pub read_u16 : Reader ℕ
  read_u16 rdr = ok_or (bo.read_u16 rdr) io

  unfoldable pub read_u32 : Reader ℕ
  read_u32 rdr = ok_or (bo.read_u32 rdr) io

  unfoldable pub read_u64 : Reader ℕ
  read_u64 rdr = ok_or (bo.read_u64 rdr) io

  unfoldable pub read_bool : Reader Bool
  unfolding read_u8
  read_bool rdr = read_u8 rdr >>= λ b. ok (not (b.0 == 0), b.1)

-- `can_reserve` says which numbers of items `try_reserve_exact` grants, for the size of the items of the
-- vector: these are bytes.
module _ (can_reserve : ℕ → Bool) where
  unfoldable pub read_n_bytes : ℕ → Reader (List ℕ)
  read_n_bytes l rdr =
      if ltb max_length_prefixed_bytes l
      then err (length_limit_exceeded l max_length_prefixed_bytes)
      else if not (can_reserve l)
      then err (allocation_failed l)
      else if leb l (length rdr)
      then ok (take l rdr, drop l rdr)
      else err (missing_bytes l)

  -- `[u8; N]`.
  unfoldable pub read_array : ℕ → Reader (List ℕ)
  read_array n rdr = read_n_bytes n rdr >>= λ buf. if length buf.0 == n then ok buf else err io

module _ (bo : ByteOrder) (can_reserve : ℕ → Bool) where
  unfoldable pub buf_u8 : Reader (List ℕ)
  buf_u8 rdr = read_u8 bo rdr >>= λ l. read_n_bytes can_reserve l.0 l.1

  unfoldable pub buf_u16 : Reader (List ℕ)
  buf_u16 rdr = read_u16 bo rdr >>= λ l. read_n_bytes can_reserve l.0 l.1

  unfoldable pub buf_u32 : Reader (List ℕ)
  buf_u32 rdr = read_u32 bo rdr >>= λ l. read_n_bytes can_reserve l.0 l.1

  -- `Vec<T>`; here `can_reserve` is that of the items which `read` reads, and counts them.
  unfoldable pub read_vec {ℓ} : {A : Type ℓ} → Reader A → Reader (List A)
  read_vec read rdr = read_u32 bo rdr >>= λ len.
      if ltb max_collection_items len.0
      then err (length_limit_exceeded len.0 max_collection_items)
      else if not (can_reserve len.0)
      then err (allocation_failed len.0)
      else read_items read len.0 len.1

-- `CString::from_vec_with_nul`: the bytes before the only zero, which stands at the end.
unfoldable pub from_vec_with_nul : List ℕ → Outcome FromStreamError (List ℕ)
from_vec_with_nul [] = err parse_c_string
from_vec_with_nul (b ∷ bs) =
    let rest = from_vec_with_nul bs in
    if b == 0
    then (if is_empty bs then ok [] else err parse_c_string)
    else (rest >>= λ text. ok (b ∷ text))

module _ (bo : ByteOrder) (can_reserve : ℕ → Bool) where
  unfoldable pub read_c_string : Reader (List ℕ)
  unfolding from_vec_with_nul
  read_c_string rdr = read_u16 bo rdr >>= λ len.
      if len.0 == 0
      then ok ([], len.1)
      else (read_n_bytes can_reserve len.0 len.1 >>= λ buf.
          from_vec_with_nul buf.0 >>= λ text. ok (text, buf.1))

unfoldable pub write_bool : Bool → List ℕ
write_bool b = if b then 1 ∷ [] else 0 ∷ []

unfoldable pub write_buf_u8 : List ℕ → List ℕ
write_buf_u8 bytes = (length bytes % 256) ∷ bytes

unfoldable pub write_buf_u16 : List ℕ → List ℕ
write_buf_u16 bytes = to_le_bytes 2 (length bytes % 65536) ++ bytes

unfoldable pub write_buf_u32 : List ℕ → List ℕ
write_buf_u32 bytes = to_le_bytes 4 (length bytes % 2 ^ 32) ++ bytes

unfoldable pub write_items {ℓ} : {A : Type ℓ} → (A → List ℕ) → List A → List ℕ
write_items write [] = []
write_items write (item ∷ items) = write item ++ write_items write items

unfoldable pub write_vec {ℓ} : {A : Type ℓ} → (A → List ℕ) → List A → List ℕ
write_vec write items = to_le_bytes 4 (length items % 2 ^ 32) ++ write_items write items

-- `String::to_stream`; `data.len() as u16 + 1` wraps, as it does without overflow checks.
unfoldable pub write_string : List ℕ → List ℕ
write_string [] = to_le_bytes 2 0
write_string (b ∷ text) =
    to_le_bytes 2 ((length (b ∷ text) % 65536 + 1) % 65536) ++ ((b ∷ text) ++ (0 ∷ []))
