-- ===== src/Stream/Laws.antt =====
-- What was written to a stream is read back, whatever follows it.
use scbl.Prelude.{
  ℕ, ◌+◌, ◌%◌, ◌^◌, ◌≤◌, ◌<◌, ◌≡◌, refl, ltb, le→ltb, leb, le→leb, ◌==◌, Bool, true, false, List,
  [], ◌∷◌, ◌++◌, append_assoc, length, take-append, drop-append, length-append, All, ok, arith,
}
use scbl.ByteOrder.{ByteOrder, to_le_bytes}
use scbl.ByteOrder.Laws.{read_u16_back, read_u32_back}
use scbl.Stream.{
  Reader, max_length_prefixed_bytes, max_collection_items, read_items, read_u16, read_u32,
  read_n_bytes, buf_u32, read_vec, from_vec_with_nul, read_c_string, write_buf_u32, write_items,
  write_vec, write_string,
}

-- `read` reads back what `write` writes for `a`.
abbrev pub ReadsBack {ℓ} : {A : Type ℓ} → Reader A → (A → List ℕ) → A → Type ℓ
ReadsBack read write a = (rest : List ℕ) → read (write a ++ rest) ≡ ok (a, rest)

module _ (can_reserve : ℕ → Bool) (room : (size : ℕ) → can_reserve size ≡ true) where
  pub read_n_bytes-append :
      (xs rest : List ℕ)
      → length xs ≤ max_length_prefixed_bytes
      → read_n_bytes can_reserve (length xs) (xs ++ rest) ≡ ok (xs, rest)
  unfolding read_n_bytes
  read_n_bytes-append xs rest h =
      let within : ltb max_length_prefixed_bytes (length xs) ≡ false = le→ltb _ _ h in
      let there : leb (length xs) (length (xs ++ rest)) ≡ true =
        le→leb _ _ (omega (arith, length-append xs rest)) in
      rw (
        within,
        room (length xs),
        there,
        take-append (length xs) xs rest refl,
        drop-append (length xs) xs rest refl,
      )

pub read_items-write_items :
    {A : Type 0} (read : Reader A) (write : A → List ℕ) (items : List A) (rest : List ℕ)
    → All (ReadsBack read write) items
    → read_items read (length items) (write_items write items ++ rest) ≡ ok (items, rest)
unfolding read_items write_items
read_items-write_items read write [] rest h = refl
read_items-write_items read write (item ∷ items) rest h = rw (
  append_assoc (write item) (write_items write items) rest,
  h.0 (write_items write items ++ rest),
  read_items-write_items read write items rest h.1,
)

-- The bytes of a string without a zero, and the zero behind them.
pub from_vec_with_nul-append :
    (text : List ℕ)
    → All (λ b. (b == 0) ≡ false) text
    → from_vec_with_nul (text ++ (0 ∷ [])) ≡ ok text
unfolding from_vec_with_nul
from_vec_with_nul-append [] h = refl
from_vec_with_nul-append (b ∷ text) h = rw (h.0, from_vec_with_nul-append text h.1)

module _ (bo : ByteOrder) (can_reserve : ℕ → Bool)
    (room : (size : ℕ) → can_reserve size ≡ true) where
  -- A buffer of at most 1 MiB behind its 32-bit length is read back, if the allocation is granted.
  pub buf_u32-write_buf_u32 :
      (bytes rest : List ℕ)
      → length bytes ≤ max_length_prefixed_bytes
      → buf_u32 bo can_reserve (write_buf_u32 bytes ++ rest) ≡ ok (bytes, rest)
  unfolding buf_u32 write_buf_u32 read_u32
  buf_u32-write_buf_u32 bytes rest h =
      let fits : length bytes % 2 ^ 32 ≡ length bytes = omega arith in
      rw (
        fits,
        append_assoc (to_le_bytes 4 (length bytes)) bytes rest,
        read_u32_back bo (length bytes) (bytes ++ rest) (omega (arith, h)),
        read_n_bytes-append can_reserve room bytes rest h,
      )

  -- A collection of at most 65536 items, each of which is read back, is read back, if the allocation
  -- is granted.
  pub read_vec-write_vec :
      {A : Type 0} (read : Reader A) (write : A → List ℕ) (items : List A) (rest : List ℕ)
      → All (ReadsBack read write) items
      → length items ≤ max_collection_items
      → read_vec bo can_reserve read (write_vec write items ++ rest) ≡ ok (items, rest)
  unfolding read_vec write_vec read_u32
  read_vec-write_vec read write items rest h small =
      let fits : length items % 2 ^ 32 ≡ length items = omega arith in
      let within : ltb max_collection_items (length items) ≡ false = le→ltb _ _ small in
      rw (
        fits,
        append_assoc (to_le_bytes 4 (length items)) (write_items write items) rest,
        read_u32_back bo (length items) (write_items write items ++ rest) (omega (arith, small)),
        within,
        room (length items),
        read_items-write_items read write items rest h,
      )

  -- A string of fewer than 65535 bytes without a zero is read back, if the allocation is granted.
  pub read_c_string-write_string :
      (text rest : List ℕ)
      → All (λ b. (b == 0) ≡ false) text
      → length text < 65535
      → read_c_string bo can_reserve (write_string text ++ rest) ≡ ok (text, rest)
  unfolding read_c_string write_string read_u16
  read_c_string-write_string [] rest h small = rw (read_u16_back bo 0 rest (omega arith))
  read_c_string-write_string (b ∷ text) rest h small =
      let n : ℕ = length (b ∷ text) in
      let fits : (length (b ∷ text) % 65536 + 1) % 65536 ≡ length ((b ∷ text) ++ (0 ∷ [])) =
        omega (arith, small, length-append text (0 ∷ [])) in
      let some_text : (length ((b ∷ text) ++ (0 ∷ [])) == 0) ≡ false = ground arith in
      rw (
        fits,
        append_assoc (to_le_bytes 2 (length ((b ∷ text) ++ (0 ∷ [])))) ((b ∷ text) ++ (0 ∷ []))
            rest,
        read_u16_back bo (length ((b ∷ text) ++ (0 ∷ []))) (((b ∷ text) ++ (0 ∷ [])) ++ rest)
            (omega (arith, small, length-append text (0 ∷ []))),
        some_text,
        read_n_bytes-append can_reserve room ((b ∷ text) ++ (0 ∷ [])) rest
            (omega (arith, small, length-append text (0 ∷ []))),
        from_vec_with_nul-append (b ∷ text) h,
      )
