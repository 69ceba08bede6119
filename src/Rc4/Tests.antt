-- ===== src/Rc4/Tests.antt =====
-- Published RC4 vectors.
use scbl.Prelude.{ℕ, ◌≡◌, refl, List, [], ◌∷◌, length, IsBytes, ok, arith}
use scbl.Rc4.{Rc4, crypt_key, new, zip_xor, schedule, count_from}
use scbl.Rc4.Permutation.{IsValid, new-IsValid}
use scbl.Rc4.Keystream.{crypt_key_twice}

-- "Plaintext" under "Key".
abbrev plaintext : List ℕ
plaintext = 0x50 ∷ 0x6c ∷ 0x61 ∷ 0x69 ∷ 0x6e ∷ 0x74 ∷ 0x65 ∷ 0x78 ∷ 0x74 ∷ []

abbrev ciphertext : List ℕ
ciphertext = 0xbb ∷ 0xf3 ∷ 0x16 ∷ 0xe8 ∷ 0xd9 ∷ 0x40 ∷ 0xaf ∷ 0x0a ∷ 0xd3 ∷ []

plaintext_vector : crypt_key {E = Unit {0}} (0x4b ∷ 0x65 ∷ 0x79 ∷ []) plaintext ≡ ok ciphertext
unfolding crypt_key new zip_xor schedule count_from
plaintext_vector = refl

abbrev keyed : Rc4
keyed = record { i = 0; j = 0; state = schedule 256 0 0 (75 ∷ 101 ∷ 121 ∷ []) (count_from 0 256) }

new-keyed : new {E = Unit {0}} (75 ∷ 101 ∷ 121 ∷ []) ≡ ok keyed
unfolding new
new-keyed = refl

keyed-IsValid : IsValid keyed
keyed-IsValid = new-IsValid {E = Unit {0}} (75 ∷ 101 ∷ 121 ∷ []) keyed new-keyed

crypt_key_twice_example :
    (crypt_key {E = Unit {0}} (0x4b ∷ 0x65 ∷ 0x79 ∷ []) ciphertext ≡ ok plaintext)
    × (length ciphertext ≡ length plaintext)
    × IsBytes ciphertext
crypt_key_twice_example =
    crypt_key_twice {E = Unit {0}} (0x4b ∷ 0x65 ∷ 0x79 ∷ []) plaintext ciphertext (omega arith)
      plaintext_vector
