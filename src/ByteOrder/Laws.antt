-- ===== src/ByteOrder/Laws.antt =====
-- Reading what was written, and what a successful read says of its input.
use scbl.Prelude.{
  ℕ, zero, suc, ◌*◌, ◌/◌, ◌^◌, ◌<◌, ◌≡◌, refl, ap, ◌∙◌, List, ◌++◌, Option, some, length, take,
  drop, length-take, take-append-drop, length-drop, ◌+◌, ◌≤◌, [], ◌∷◌, arith, IsBytes,
}
use native.Mathlib.Decide.{dec_lt}
use native.Mathlib.Nat.{pow-suc}
use mathlib.Core.Path.{subst₂}
use scbl.ByteOrder.{ByteOrder, to_le_bytes, from_le_bytes, Reads}

pub length-to_le_bytes : (n v : ℕ) → length (to_le_bytes n v) ≡ n
length-to_le_bytes zero v = refl
length-to_le_bytes (suc n) v = ap suc (length-to_le_bytes n (v / 256))

pub to_le_bytes-IsBytes : (n v : ℕ) → IsBytes (to_le_bytes n v)
to_le_bytes-IsBytes zero v = tt
to_le_bytes-IsBytes (suc n) v = (omega arith, to_le_bytes-IsBytes n (v / 256))

pub from_le_bytes-to_le_bytes : (n v : ℕ) → v < 256 ^ n → from_le_bytes (to_le_bytes n v) ≡ v
from_le_bytes-to_le_bytes zero v h = omega arith
from_le_bytes-to_le_bytes (suc n) v h =
    omega (arith, from_le_bytes-to_le_bytes n (v / 256) (omega arith))

-- A reader of `n` bytes reads back a number of `n` bytes.
pub read-to_le_bytes :
    (n : ℕ) (f : List ℕ → Option (ℕ × List ℕ)) (v : ℕ) (rest : List ℕ)
    → Reads n f
    → v < 256 ^ n
    → f (to_le_bytes n v ++ rest) ≡ some (v, rest)
read-to_le_bytes n f v rest r h =
    r.0 (to_le_bytes n v) rest (length-to_le_bytes n v)
    ∙ ap (λ w. some (w, rest)) (from_le_bytes-to_le_bytes n v h)

pub from_le_bytes-lt : (bs : List ℕ) → IsBytes bs → from_le_bytes bs < 256 ^ length bs
from_le_bytes-lt [] h = omega arith
from_le_bytes-lt (b ∷ bs) h = omega (arith, pow-suc 256 (length bs), from_le_bytes-lt bs h.1, h.0)

IsBytes-take-drop : (n : ℕ) (bs : List ℕ) → IsBytes bs → IsBytes (take n bs) × IsBytes (drop n bs)
IsBytes-take-drop zero bs h = (tt, h)
IsBytes-take-drop (suc n) [] h = (tt, tt)
IsBytes-take-drop (suc n) (b ∷ bs) h =
    let (front, rest) = IsBytes-take-drop n bs h.1 in ((h.0, front), rest)

pub IsBytes-drop : (n : ℕ) (bs : List ℕ) → IsBytes bs → IsBytes (drop n bs)
IsBytes-drop n bs h = (IsBytes-take-drop n bs h).1

-- What a successful read of `n` bytes from bytes returns: a number of `n` bytes, and the bytes
-- behind them.
pub record IsRead (n v : ℕ) (bs rest : List ℕ) : Type 0 where
  pub bound : v < 256 ^ n
  pub bytes : IsBytes rest
  pub taken : length rest + n ≡ length bs

module _ (n : ℕ) (f : List ℕ → Option (ℕ × List ℕ)) (r : Reads n f) (bs : List ℕ)
    (h : IsBytes bs) where
  read-long : n ≤ length bs → f bs ≡ some (from_le_bytes (take n bs), drop n bs)
  read-long le =
      rw (take-append-drop n bs) at (r.0 (take n bs) (drop n bs) (omega (arith, length-take n bs)))

  taken-IsRead : n ≤ length bs → IsRead n (from_le_bytes (take n bs)) bs (drop n bs)
  taken-IsRead le =
      let same : length (take n bs) ≡ n = omega (arith, length-take n bs) in
      record {
        bound = rw same at (from_le_bytes-lt (take n bs) (IsBytes-take-drop n bs h).0);
        bytes = (IsBytes-take-drop n bs h).1;
        taken = omega (arith, length-drop n bs);
      }

  -- A reader returns a number of `n` bytes where there are that many, and fails otherwise.
  pub from_reads-IsRead : (v : ℕ) (rest : List ℕ) → f bs ≡ some (v, rest) → IsRead n v bs rest
  from_reads-IsRead v rest e = elim (dec_lt (length bs) n) [
    | yes short ↦ cc (r.1 bs short)
    | no enough ↦
        let le : n ≤ length bs = omega arith in
        let value : from_le_bytes (take n bs) ≡ v = cc (read-long le) in
        let left : drop n bs ≡ rest = cc (read-long le) in
        subst₂ (λ w t. IsRead n w bs t) value left (taken-IsRead le)
  ]

module _ (bo : ByteOrder) where
  pub read_u8_cons : (b : ℕ) (rest : List ℕ) → b < 256 → bo.read_u8 (b ∷ rest) ≡ some (b, rest)
  read_u8_cons b rest h =
      let one : b + 256 * 0 ≡ b = omega arith in
      bo.read_u8-Reads.0 (b ∷ []) rest refl ∙ ap (λ (v : ℕ). some (v, rest)) one

  pub read_u32_back :
      (v : ℕ) (rest : List ℕ) → v < 2 ^ 32 → bo.read_u32 (to_le_bytes 4 v ++ rest) ≡ some (v, rest)
  read_u32_back v rest h = read-to_le_bytes 4 bo.read_u32 v rest bo.read_u32-Reads h

  pub read_u64_back :
      (v : ℕ) (rest : List ℕ) → v < 2 ^ 64 → bo.read_u64 (to_le_bytes 8 v ++ rest) ≡ some (v, rest)
  read_u64_back v rest h = read-to_le_bytes 8 bo.read_u64 v rest bo.read_u64-Reads h

  pub read_u16_back :
      (v : ℕ) (rest : List ℕ) → v < 2 ^ 16 → bo.read_u16 (to_le_bytes 2 v ++ rest) ≡ some (v, rest)
  read_u16_back v rest h = read-to_le_bytes 2 bo.read_u16 v rest bo.read_u16-Reads h
