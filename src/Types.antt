-- ===== src/Types.antt =====
-- server/quazal/src/rmc/types.rs: the values of remote calls and their encodings. A text is the list
-- of its bytes, an `i64` or an `f64` its 64 bits.
pub mod RoundTrip
pub mod Property
pub mod Url
pub mod UrlLaws
pub mod Date
mod Tests
use scbl.Prelude.{
  ℕ, ◌%◌, ◌/◌, ◌^◌, ◌==◌, Bool, List, [], ◌∷◌, ◌++◌, length, Outcome, ok, err, panic, ◌>>=◌,
  bit_and, if◌then◌else◌,
}
use scbl.ByteOrder.{ByteOrder, to_le_bytes}
use scbl.ErrorCode.{Error, error_to_u32, error_try_from}
use scbl.Stream.{
  Reader, FromStreamError, io, utf8, read_u8, read_u32, read_u64, read_bool, read_c_string,
  read_items, write_bool, write_string, write_items,
}

-- `QResult`.
pub data QResult : Type 0 where
  ok_result : QResult
  error : Error → QResult
  unknown : ℕ → QResult

unfoldable pub q_result_code : QResult → ℕ
q_result_code ok_result = 0x1_0001
q_result_code (error e) = error_to_u32 e
q_result_code (unknown code) = code

unfoldable pub write_q_result : QResult → List ℕ
unfolding q_result_code
write_q_result r = to_le_bytes 4 (q_result_code r)

-- `map_or_else`.
unfoldable pub error_or_unknown : ℕ → Outcome ℕ Error → QResult
error_or_unknown code (ok e) = error e
error_or_unknown code (err c) = unknown code
error_or_unknown code panic = unknown code

unfoldable pub q_result_of : ℕ → QResult
unfolding error_or_unknown
q_result_of code =
    if code == 0x1_0001 then ok_result else error_or_unknown code (error_try_from code)

unfoldable pub read_q_result : ByteOrder → Reader QResult
unfolding q_result_of
read_q_result bo rdr = read_u32 bo rdr >>= λ code. ok (q_result_of code.0, code.1)

-- `DateTime`: the fields that `Debug` takes out of the word.
pub record DateFields : Type 0 where
  pub second : ℕ
  pub minute : ℕ
  pub hour : ℕ
  pub day : ℕ
  pub month : ℕ
  pub year : ℕ

unfoldable pub date_fields : ℕ → DateFields
date_fields w = record {
  second = bit_and w 31;
  minute = bit_and (w / 2 ^ 6) 31;
  hour = bit_and (w / 2 ^ 12) 15;
  day = bit_and (w / 2 ^ 17) 15;
  month = bit_and (w / 2 ^ 22) 7;
  year = w / 2 ^ 26;
}

pub data Variant : Type 0 where
  none : Variant
  i64 : ℕ → Variant
  f64 : ℕ → Variant
  bool : Bool → Variant
  string : List ℕ → Variant
  date_time : ℕ → Variant
  u64 : ℕ → Variant

unfoldable pub write_variant : Variant → List ℕ
write_variant none = 0 ∷ []
write_variant (i64 v) = 1 ∷ to_le_bytes 8 v
write_variant (f64 v) = 2 ∷ to_le_bytes 8 v
write_variant (bool v) = 3 ∷ write_bool v
write_variant (string v) = 4 ∷ write_string v
write_variant (date_time v) = 5 ∷ to_le_bytes 8 v
write_variant (u64 v) = 6 ∷ to_le_bytes 8 v

-- `valid` is the test of `CString::into_string` for UTF-8.
module _ (bo : ByteOrder) (can_reserve : ℕ → Bool) (valid : List ℕ → Bool) where
  -- `String`.
  unfoldable pub read_string : Reader (List ℕ)
  read_string rdr =
      read_c_string bo can_reserve rdr >>= λ text. if valid text.0 then ok text else err utf8

  abbrev map_read : {A : Type 0} → (A → Variant) → Reader A → Reader Variant
  map_read make read rdr = read rdr >>= λ v. ok (make v.0, v.1)

  -- The value behind the tag.
  unfoldable pub read_tagged : ℕ → Reader Variant
  unfolding read_string
  read_tagged tag =
      if tag == 0
      then (λ rdr. ok (none, rdr))
      else if tag == 1
      then map_read i64 (read_u64 bo)
      else if tag == 2
      then map_read f64 (read_u64 bo)
      else if tag == 3
      then map_read bool (read_bool bo)
      else if tag == 4
      then map_read string read_string
      else if tag == 5
      then map_read date_time (read_u64 bo)
      else if tag == 6
      then map_read u64 (read_u64 bo)
      else (λ rdr. err io)

  unfoldable pub read_variant : Reader Variant
  unfolding read_tagged
  read_variant rdr = read_u8 bo rdr >>= λ tag. read_tagged tag.0 tag.1

  -- `PropertyVariant`.
  unfoldable pub read_property_variant : Reader (ℕ × Variant)
  unfolding read_variant
  read_property_variant rdr =
      read_u32 bo rdr >>= λ id. read_variant id.1 >>= λ value. ok ((id.0, value.0), value.1)

unfoldable pub write_property_variant : ℕ × Variant → List ℕ
unfolding write_variant
write_property_variant (id, value) = to_le_bytes 4 id ++ write_variant value

-- `QList<T>`: `Vec::with_capacity` aborts where the memory is not there.
unfoldable pub read_q_list : {A : Type 0} → ByteOrder → (ℕ → Bool) → Reader A → Reader (List A)
read_q_list bo can_reserve read rdr =
    read_u32 bo rdr >>= λ len. if can_reserve len.0 then read_items read len.0 len.1 else panic

unfoldable pub write_q_list : {A : Type 0} → (A → List ℕ) → List A → List ℕ
write_q_list write items = to_le_bytes 4 (length items % 2 ^ 32) ++ write_items write items
