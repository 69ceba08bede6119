-- ===== src/Types/RoundTrip.antt =====
-- The values of remote calls are read back from their bytes.
use scbl.Prelude.{
  ℕ, ◌%◌, ◌^◌, ◌<◌, ◌≡◌, ◌==◌, refl, sym, Bool, true, false, List, [], ◌∷◌, ◌++◌, append_assoc,
  length, All, Outcome, ok, err, panic, Bool-cases, inl, inr, ==_iff, arith,
}
use scbl.ByteOrder.{ByteOrder, to_le_bytes}
use scbl.ByteOrder.Laws.{read_u8_cons, read_u32_back, read_u64_back}
use scbl.ErrorCode.{Error, error_to_u32, error_try_from}
use scbl.ErrorCode.RoundTrip.{error_try_from-error_to_u32, error_to_u32-error_try_from}
use scbl.ErrorCode.Range.{error_to_u32-IsQuazal}
use scbl.Stream.{read_u8, read_u32, read_u64, read_bool, write_bool}
use scbl.Stream.Laws.{ReadsBack, read_c_string-write_string, read_items-write_items}
use scbl.Types.{
  QResult, ok_result, error, unknown, q_result_code, write_q_result, error_or_unknown, q_result_of,
  read_q_result, Variant, i64, f64, bool, string, date_time, u64, write_variant, read_string,
  read_tagged, read_variant, read_property_variant, read_q_list, write_property_variant,
  write_q_list,
}
use scbl.Stream.{write_string, write_items}

-- A code that no other variant stands for.
abbrev pub IsResult : QResult → Type 0
IsResult ok_result = Unit {0}
IsResult (error e) = Unit {0}
IsResult (unknown code) =
    (code < 2 ^ 32) × ((code == 0x1_0001) ≡ false) × (error_try_from code ≡ err code)

q_result_back : (r : QResult) → IsResult r → q_result_of (q_result_code r) ≡ r
unfolding q_result_of q_result_code error_or_unknown
q_result_back ok_result h = refl
q_result_back (error e) h =
    let other : (error_to_u32 e == 0x1_0001) ≡ false = ground (arith, error_to_u32-IsQuazal e) in
    rw (other, error_try_from-error_to_u32 e) refl
q_result_back (unknown code) h = rw (h.1, h.2) refl

q_result_code-lt : (r : QResult) → IsResult r → q_result_code r < 2 ^ 32
unfolding q_result_code
q_result_code-lt ok_result h = omega arith
q_result_code-lt (error e) h = (error_to_u32-IsQuazal e).1
q_result_code-lt (unknown code) h = h.0

-- A result is read back from its four bytes: success, every Quazal error, and a code that stands for
-- neither.
pub read_q_result-write_q_result :
    (bo : ByteOrder) (r : QResult) → IsResult r → ReadsBack (read_q_result bo) write_q_result r
unfolding read_q_result write_q_result read_u32
read_q_result-write_q_result bo r h rest =
    rw (read_u32_back bo (q_result_code r) rest (q_result_code-lt r h), q_result_back r h) refl

code_of_error :
    (code : ℕ) (e : Outcome ℕ Error)
    → code < 2 ^ 32
    → error_try_from code ≡ e
    → q_result_code (error_or_unknown code e) ≡ code
unfolding q_result_code error_or_unknown
code_of_error code (ok e) h found = error_to_u32-error_try_from code e h found
code_of_error code (err c) h found = refl
code_of_error code panic h found = refl

-- Whatever 32-bit code is read as a result, the result has that code.
pub q_result_code-q_result_of : (code : ℕ) → code < 2 ^ 32 → q_result_code (q_result_of code) ≡ code
unfolding q_result_of q_result_code
q_result_code-q_result_of code h = elim (Bool-cases (code == 0x1_0001)) [
  | inl hit ↦ rw hit (sym ((==_iff code 0x1_0001).0 hit))
  | inr miss ↦ rw miss (code_of_error code (error_try_from code) h refl)
]

module _ (bo : ByteOrder) (can_reserve : ℕ → Bool) (valid : List ℕ → Bool)
    (room : (size : ℕ) → can_reserve size ≡ true) where
  -- A value in range: a word of 64 bits, or a text in UTF-8 of fewer than 65535 bytes without a zero.
  abbrev pub IsVariant : Variant → Type 0
  IsVariant Variant.none = Unit {0}
  IsVariant (i64 v) = v < 2 ^ 64
  IsVariant (f64 v) = v < 2 ^ 64
  IsVariant (bool v) = Unit {0}
  IsVariant (string v) = All (λ b. (b == 0) ≡ false) v × (length v < 65535) × (valid v ≡ true)
  IsVariant (date_time v) = v < 2 ^ 64
  IsVariant (u64 v) = v < 2 ^ 64

  bool_back : (v : Bool) (rest : List ℕ) → read_bool bo (write_bool v ++ rest) ≡ ok (v, rest)
  unfolding read_bool write_bool read_u8
  bool_back true rest = rw (read_u8_cons bo 1 rest (omega arith)) refl
  bool_back false rest = rw (read_u8_cons bo 0 rest (omega arith)) refl

  variant_back :
      (v : Variant) → IsVariant v → ReadsBack (read_variant bo can_reserve valid) write_variant v
  unfolding read_variant read_tagged write_variant read_u8 read_u64 read_string
  variant_back Variant.none h rest = rw (read_u8_cons bo 0 rest (omega arith)) refl
  variant_back (i64 v) h rest =
      rw (read_u8_cons bo 1 (to_le_bytes 8 v ++ rest) (omega arith), read_u64_back bo v rest h) refl
  variant_back (f64 v) h rest =
      rw (read_u8_cons bo 2 (to_le_bytes 8 v ++ rest) (omega arith), read_u64_back bo v rest h) refl
  variant_back (bool v) h rest =
      rw (read_u8_cons bo 3 (write_bool v ++ rest) (omega arith), bool_back v rest) refl
  variant_back (string v) h rest =
      rw
        (
          read_u8_cons bo 4 (write_string v ++ rest) (omega arith),
          read_c_string-write_string bo can_reserve room v rest h.0 h.1,
          h.2,
        )
        refl
  variant_back (date_time v) h rest =
      rw (read_u8_cons bo 5 (to_le_bytes 8 v ++ rest) (omega arith), read_u64_back bo v rest h) refl
  variant_back (u64 v) h rest =
      rw (read_u8_cons bo 6 (to_le_bytes 8 v ++ rest) (omega arith), read_u64_back bo v rest h) refl

  abbrev pub IsPropertyVariant : ℕ × Variant → Type 0
  IsPropertyVariant (id, value) = (id < 2 ^ 32) × IsVariant value

  property_variant_back :
      (p : ℕ × Variant)
      → IsPropertyVariant p
      → ReadsBack (read_property_variant bo can_reserve valid) write_property_variant p
  unfolding read_property_variant write_property_variant read_u32
  property_variant_back (id, value) h rest =
      rw
        (
          append_assoc (to_le_bytes 4 id) (write_variant value) rest,
          read_u32_back bo id (write_variant value ++ rest) h.0,
          variant_back value h.1 rest,
        )
        refl

  All-back :
      (ps : List (ℕ × Variant))
      → All IsPropertyVariant ps
      → All (ReadsBack (read_property_variant bo can_reserve valid) write_property_variant) ps
  All-back [] h = tt
  All-back (p ∷ ps) h = (property_variant_back p h.0, All-back ps h.1)

  -- A list of properties is read back from its bytes: each has a 32-bit id and a value of any of the
  -- seven kinds, a word of 64 bits or a text in UTF-8 of fewer than 65535 bytes without a zero, there
  -- are fewer than 2 ^ 32 of them, and every allocation is granted.
  pub read_q_list-write_q_list :
      (ps : List (ℕ × Variant))
      → All IsPropertyVariant ps
      → length ps < 2 ^ 32
      → ReadsBack
          (read_q_list bo can_reserve (read_property_variant bo can_reserve valid))
          (write_q_list write_property_variant)
          ps
  unfolding read_q_list write_q_list read_u32
  read_q_list-write_q_list ps h many rest =
      let fits : length ps % 2 ^ 32 ≡ length ps = omega (arith, many) in
      rw (
        fits,
        append_assoc (to_le_bytes 4 (length ps)) (write_items write_property_variant ps) rest,
        read_u32_back bo (length ps) (write_items write_property_variant ps ++ rest) many,
        room (length ps),
        read_items-write_items (read_property_variant bo can_reserve valid) write_property_variant
            ps rest (All-back ps h),
      )
