-- ===== src/Kerberos/Tests.antt =====
-- A ticket sealed in a box that hides nothing.
use scbl.Prelude.{ℕ, ◌≡◌, refl, true, List, [], ◌∷◌, some, ok, arith}
use scbl.ByteOrder.{little_endian}
use scbl.Kerberos.{SecretBox, KerberosTicketInternal, seal, open_ticket}
use scbl.Kerberos.Laws.{IsTicket, open_ticket-seal}

abbrev open_letter : SecretBox
open_letter = record {
  seal_box = λ message nonce key. message;
  open_box = λ message nonce key. some message;
  open_box-seal_box = λ message nonce key. refl;
}

abbrev sixteen : List ℕ
sixteen = 1 ∷ 2 ∷ 3 ∷ 4 ∷ 5 ∷ 6 ∷ 7 ∷ 8 ∷ 9 ∷ 10 ∷ 11 ∷ 12 ∷ 13 ∷ 14 ∷ 15 ∷ 16 ∷ []

abbrev nonce : List ℕ
nonce =
    1 ∷ 1 ∷ 1 ∷ 1 ∷ 1 ∷ 1 ∷ 1 ∷ 1 ∷ 1 ∷ 1 ∷ 1 ∷ 1 ∷ 1 ∷ 1 ∷ 1 ∷ 1 ∷ 1 ∷ 1 ∷ 1 ∷ 1 ∷ 1 ∷ 1 ∷ 1 ∷ 1
    ∷ []

abbrev ticket : KerberosTicketInternal
ticket = record { principle_id = 100; valid_until = 1_700_000_000; session_key = sixteen }

ticket-IsTicket : IsTicket ticket
ticket-IsTicket = record { principal = omega arith; until = omega arith; key_size = refl }

open_ticket-seal_example :
    open_ticket open_letter little_endian
      (λ n. true)
      (seal open_letter ticket nonce sixteen)
      sixteen
    ≡ ok ticket
open_ticket-seal_example =
    open_ticket-seal little_endian (λ n. true) (λ n. refl) open_letter ticket nonce sixteen
      ticket-IsTicket refl
