-- ===== src/Types/Date.antt =====
-- What `Debug` shows of a packed date.
use scbl.Prelude.{ℕ, ◌+◌, ◌*◌, ◌/◌, ◌%◌, ◌^◌, ◌<◌, ◌≡◌, refl, bit_and, arith}
use scbl.Prelude.Words.{bit_and_low}
use scbl.Prelude.Shifts.{bit_and-zero}
use scbl.Types.{DateFields, date_fields}

bit_and-31 : (a : ℕ) → bit_and a 31 ≡ a % 32
bit_and-31 a = omega (
  arith,
  bit_and_low a 31,
  bit_and_low (a / 2) 15,
  bit_and_low (a / 2 / 2) 7,
  bit_and_low (a / 2 / 2 / 2) 3,
  bit_and_low (a / 2 / 2 / 2 / 2) 1,
  bit_and-zero (a / 2 / 2 / 2 / 2 / 2),
)

bit_and-15 : (a : ℕ) → bit_and a 15 ≡ a % 16
bit_and-15 a = omega (
  arith,
  bit_and_low a 15,
  bit_and_low (a / 2) 7,
  bit_and_low (a / 2 / 2) 3,
  bit_and_low (a / 2 / 2 / 2) 1,
  bit_and-zero (a / 2 / 2 / 2 / 2),
)

bit_and-7 : (a : ℕ) → bit_and a 7 ≡ a % 8
bit_and-7 a = omega (
  arith,
  bit_and_low a 7,
  bit_and_low (a / 2) 3,
  bit_and_low (a / 2 / 2) 1,
  bit_and-zero (a / 2 / 2 / 2),
)

-- A date as the shifts of the code lay it out: six bits for the second and the minute, five for the
-- hour and the day, four for the month, and the year above them.
abbrev pub packed : DateFields → ℕ
packed d =
    d.second
    + d.minute * 2 ^ 6
    + d.hour * 2 ^ 12
    + d.day * 2 ^ 17
    + d.month * 2 ^ 22
    + d.year * 2 ^ 26

-- The date that is shown has the year, and of each other field one bit less than the field is wide:
-- the second and the minute modulo 32, the hour and the day modulo 16, the month modulo 8.
pub date_fields-packed :
    (d : DateFields)
    → d.second < 64
    → d.minute < 64
    → d.hour < 32
    → d.day < 32
    → d.month < 16
    → date_fields (packed d) ≡ record {
      second = d.second % 32;
      minute = d.minute % 32;
      hour = d.hour % 16;
      day = d.day % 16;
      month = d.month % 8;
      year = d.year;
    }
unfolding date_fields
date_fields-packed d s m h day mo =
    let w = packed d in
    let e1 : bit_and w 31 ≡ d.second % 32 = omega (arith, bit_and-31 w, s) in
    let e2 : bit_and (w / 2 ^ 6) 31 ≡ d.minute % 32 = omega (arith, bit_and-31 (w / 2 ^ 6), s, m) in
    let e3 : bit_and (w / 2 ^ 12) 15 ≡ d.hour % 16 =
      omega (arith, bit_and-15 (w / 2 ^ 12), s, m, h) in
    let e4 : bit_and (w / 2 ^ 17) 15 ≡ d.day % 16 =
      omega (arith, bit_and-15 (w / 2 ^ 17), s, m, h, day) in
    let e5 : bit_and (w / 2 ^ 22) 7 ≡ d.month % 8 =
      omega (arith, bit_and-7 (w / 2 ^ 22), s, m, h, day, mo) in
    let e6 : w / 2 ^ 26 ≡ d.year = omega (arith, s, m, h, day, mo) in
    rw (e1, e2, e3, e4, e5, e6) refl
