-- ===== src/Rc4/Keystream.antt =====
-- `crypt_key` is its own inverse, and keeps the length.
use scbl.Prelude.{
  ℕ, suc, ◌<◌, ◌≡◌, refl, ap, ap₂, List, [], ◌∷◌, length, IsBytes, ok, sym, >>=-eq-ok, ok-injective,
}
use scbl.Prelude.Bits.{bit_xor_cancel, bit_xor-IsByte}
use scbl.Prelude.{◌≤◌, le→leb, arith}
use scbl.Rc4.{Rc4, schedule, count_from, new, next, zip_xor, crypt_key}
use scbl.Rc4.Permutation.{IsValid, new-IsValid, next-IsValid, next-IsByte}

pub length-zip_xor : (r : Rc4) (bs : List ℕ) → length (zip_xor r bs) ≡ length bs
unfolding zip_xor
length-zip_xor r [] = refl
length-zip_xor r (b ∷ bs) = ap suc (length-zip_xor (next r).1 bs)

zip_xor_cancel : (r : Rc4) (bs : List ℕ) → IsValid r → IsBytes bs → zip_xor r (zip_xor r bs) ≡ bs
unfolding zip_xor
zip_xor_cancel r [] v h = refl
zip_xor_cancel r (b ∷ bs) v h =
    ap₂ ◌∷◌ (bit_xor_cancel (next r).0 b (next-IsByte r v) h.0)
      (zip_xor_cancel (next r).1 bs (next-IsValid r v) h.1)

pub zip_xor-IsBytes : (r : Rc4) (bs : List ℕ) → IsValid r → IsBytes bs → IsBytes (zip_xor r bs)
unfolding zip_xor
zip_xor-IsBytes r [] v h = tt
zip_xor-IsBytes r (b ∷ bs) v h = (
  bit_xor-IsByte (next r).0 b (next-IsByte r v) h.0,
  zip_xor-IsBytes (next r).1 bs (next-IsValid r v) h.1,
)

-- What `crypt_key` returns when the key has a length that `Rc4::new` accepts.
pub crypt_key-eq-ok :
    {E : Type 0} (key bytes sealed : List ℕ)
    → crypt_key {E = E} key bytes ≡ ok sealed
    → (r : Rc4) × IsValid r × (new {E = E} key ≡ ok r) × (sealed ≡ zip_xor r bytes)
unfolding crypt_key
crypt_key-eq-ok {E} key bytes sealed e =
    let (r, started, result) = >>=-eq-ok (new {E = E} key) (λ rc4. ok (zip_xor rc4 bytes)) e in
    (r, new-IsValid key r started, started, sym (ok-injective result))

-- Enciphering twice under one key gives the bytes back, and enciphering gives as many bytes.
pub crypt_key_twice :
    {E : Type 0} (key bytes sealed : List ℕ)
    → IsBytes bytes
    → crypt_key {E = E} key bytes ≡ ok sealed
    → (crypt_key {E = E} key sealed ≡ ok bytes) × (length sealed ≡ length bytes) × IsBytes sealed
unfolding crypt_key
crypt_key_twice {E} key bytes sealed h e =
    let (r, v, started, result) = crypt_key-eq-ok key bytes sealed e in
    (
      rw (started, result) (ap ok (zip_xor_cancel r bytes v h)),
      rw result (length-zip_xor r bytes),
      rw result (zip_xor-IsBytes r bytes v h),
    )

-- The keys that `Rc4::new` accepts.
abbrev pub IsKey : List ℕ → Type 0
IsKey key = (0 < length key) × (length key ≤ 256)

abbrev started : List ℕ → Rc4
started key = record { i = 0; j = 0; state = schedule 256 0 0 key (count_from 0 256) }

pub crypt_key_total :
    {E : Type 0} (key bytes : List ℕ)
    → IsKey key
    → (sealed : List ℕ) × (crypt_key {E = E} key bytes ≡ ok sealed)
unfolding crypt_key new
crypt_key_total [] bytes h = absurd (omega arith)
crypt_key_total (k ∷ key) bytes h =
    (zip_xor (started (k ∷ key)) bytes, rw (le→leb (length (k ∷ key)) 256 h.1))
