-- ===== src/Packet/Checksum.antt =====
-- server/quazal/src/prudp/packet.rs: `calc_checksum_from_data`.
use scbl.Prelude.{
  ℕ, zero, suc, ◌+◌, ◌-◌, ◌/◌, ◌%◌, ◌^◌, List, [], ◌∷◌, none, some, length, take, drop,
}
use scbl.ByteOrder.{ByteOrder, to_le_bytes}

-- A fold of wrapping `u8` additions.
unfoldable pub sum_u8 : ℕ → List ℕ → ℕ
sum_u8 acc [] = acc
sum_u8 acc (b ∷ bs) = sum_u8 ((acc + b) % 256) bs

module _ (bo : ByteOrder) where
  -- Little-endian words are read until the cursor is at its end, for at most `fuel` words.
  unfoldable pub sum_words : ℕ → ℕ → List ℕ → ℕ
  sum_words zero acc rdr = acc
  sum_words (suc fuel) acc rdr = elim (bo.read_u32 rdr) [
    | none ↦ acc
    | some (x, rest) ↦ sum_words fuel ((acc + x) % 2 ^ 32) rest
  ]

  -- A quarter of the length is fuel enough: each word takes four bytes.
  unfoldable pub calc_checksum_from_data : ℕ → List ℕ → ℕ
  unfolding sum_words sum_u8
  calc_checksum_from_data key bytes =
      let l = length bytes - length bytes % 4 in
      let tmp = sum_words (l / 4) 0 (take l bytes) in
      let data_sum = sum_u8 0 (to_le_bytes 4 tmp) in
      let trailer_sum = sum_u8 0 (drop l bytes) in
      ((data_sum + key % 256) % 256 + trailer_sum) % 256
