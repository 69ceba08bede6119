-- ===== src/Stream/Tests.antt =====
-- The stream laws at concrete streams.
use scbl.Prelude.{ℕ, ◌≤◌, ◌<◌, ◌≡◌, refl, true, [], ◌∷◌, ◌++◌, length, ok, arith}
use scbl.ByteOrder.{little_endian}
use scbl.ByteOrder.Laws.{read_u8_cons}
use scbl.Stream.{
  max_collection_items, read_items, read_u8, read_u32, read_n_bytes, read_vec, buf_u32, write_vec,
}
use scbl.Stream.Laws.{ReadsBack, read_vec-write_vec}
use scbl.Stream.Collections.{write_number}
use scbl.Stream.Limits.{length-read_vec}

byte_back : (b : ℕ) → b < 256 → ReadsBack (read_u8 little_endian) (λ b. b ∷ []) b
unfolding read_u8
byte_back b h rest = rw (read_u8_cons little_endian b rest h)

read_vec-write_vec_example :
    read_vec little_endian
      (λ n. true)
      (read_u8 little_endian)
      (write_vec (λ b. b ∷ []) (3 ∷ 200 ∷ []) ++ (9 ∷ []))
    ≡ ok (3 ∷ 200 ∷ [], 9 ∷ [])
read_vec-write_vec_example =
    read_vec-write_vec little_endian (λ n. true) (λ n. refl) (read_u8 little_endian) (λ b. b ∷ [])
      (3 ∷ 200 ∷ []) (9 ∷ []) (byte_back 3 (omega arith), (byte_back 200 (omega arith), tt))
      (omega arith)

two_items :
    read_vec little_endian (λ n. true) (read_u8 little_endian) (2 ∷ 0 ∷ 0 ∷ 0 ∷ 3 ∷ 200 ∷ 9 ∷ [])
    ≡ ok (3 ∷ 200 ∷ [], 9 ∷ [])
unfolding read_vec read_u8 read_u32 read_items
two_items = refl

length-read_vec_example : length {A = ℕ} (3 ∷ 200 ∷ []) ≤ max_collection_items
length-read_vec_example =
    length-read_vec little_endian (λ n. true) (read_u8 little_endian)
      (2 ∷ 0 ∷ 0 ∷ 0 ∷ 3 ∷ 200 ∷ 9 ∷ []) (3 ∷ 200 ∷ []) (9 ∷ []) two_items

two_bytes :
    buf_u32 little_endian (λ n. true) (2 ∷ 0 ∷ 0 ∷ 0 ∷ 3 ∷ 200 ∷ 9 ∷ []) ≡ ok (3 ∷ 200 ∷ [], 9 ∷ [])
unfolding buf_u32 read_u32 read_n_bytes
two_bytes = refl

number_back : ReadsBack (read_u8 little_endian) (write_number 1) 3
unfolding write_number
number_back = byte_back 3 (omega arith)

other_back : ReadsBack (read_u8 little_endian) (write_number 1) 200
unfolding write_number
other_back = byte_back 200 (omega arith)
