-- ===== src/Rc4.antt =====
-- server/quazal/src/prudp/packet.rs: the RC4 cipher (`Rc4`, `Rc4::new`, `Iterator::next`) and
-- `crypt_key`. A `u8` is a number below 256 and wraps by `% 256`; the array `[u8; 256]` is a list.
pub mod Permutation
pub mod Keystream
mod Tests
use scbl.Prelude.{
  ℕ, zero, suc, ◌+◌, ◌%◌, bit_xor, List, [], ◌∷◌, ◌&&◌, not, length, get_or, set, leb, is_empty,
  if◌then◌else◌, Outcome, ok, panic, ◌>>=◌,
}

pub record Rc4 : Type 0 where
  pub i : ℕ
  pub j : ℕ
  pub state : List ℕ

-- n, n + 1, … over `count` places: what `enumerate` writes into the state.
unfoldable pub count_from : ℕ → ℕ → List ℕ
count_from n zero = []
count_from n (suc count) = n ∷ count_from (suc n) count

abbrev pub index : List ℕ → ℕ → ℕ
index xs i = get_or xs i 0

-- `slice::swap`.
unfoldable pub swap : List ℕ → ℕ → ℕ → List ℕ
swap xs i j = set (set xs i (index xs j)) j (index xs i)

-- `a.wrapping_add(b)` on `u8`.
abbrev pub wrapping_add : ℕ → ℕ → ℕ
wrapping_add a b = (a + b) % 256

-- The loop `for i in 0..256` of the key schedule, from round `i` on with `rounds` left.
unfoldable pub schedule : ℕ → ℕ → ℕ → List ℕ → List ℕ → List ℕ
unfolding swap
schedule zero i j key state = state
schedule (suc rounds) i j key state =
    let j' = wrapping_add (wrapping_add j (index state i)) (index key (i % length key)) in
    schedule rounds (suc i) j' key (swap state i j')

-- `Rc4::new`; the assertion on the key's length panics.
unfoldable pub new {κ} : {E : Type κ} → List ℕ → Outcome E Rc4
new key =
    if not (is_empty key) && leb (length key) 256
    then ok (record { i = 0; j = 0; state = schedule 256 0 0 key (count_from 0 256) })
    else panic

-- `Rc4::next`: the next byte of the keystream. It never ends.
unfoldable pub next : Rc4 → ℕ × Rc4
unfolding swap
next r =
    let i = wrapping_add r.i 1 in
    let j = wrapping_add r.j (index r.state i) in
    let state = swap r.state i j in
    let k = index state (wrapping_add (index state i) (index state j)) in
    (k, record { i = i; j = j; state = state })

-- `rc4.zip(data).map(|(a, b)| a ^ b)`.
unfoldable pub zip_xor : Rc4 → List ℕ → List ℕ
unfolding next
zip_xor r [] = []
zip_xor r (b ∷ bs) = bit_xor (next r).0 b ∷ zip_xor (next r).1 bs

unfoldable pub crypt_key {κ} : {E : Type κ} → List ℕ → List ℕ → Outcome E (List ℕ)
crypt_key key bytes = new key >>= λ rc4. ok (zip_xor rc4 bytes)
