-- ===== src/Fragment/Tests.antt =====
-- The source's own tests of reassembly.
use scbl.Prelude.{ℕ, zero, suc, ◌≤◌, ◌≡◌, refl, List, [], ◌∷◌, ◌++◌, length, true, ok, err, arith}
use scbl.Prelude.Maps.{lookup, insert, keys, mem, IsId}
use scbl.Client.{SocketAddr, ClientInfo, new_client}
use scbl.Fragment.{
  cache_fragment, finish_fragmented_payload, expire_fragment_state, start_group, differs,
  store_fragment, add_fragment, check_group, check_total, assemble, reset_fragment_state,
  max_payload_size, checked_add, missing_id,
}
use scbl.Fragment.Invariant.{Inv, new_client-Inv, cache_fragment-Inv}
use scbl.Fragment.Collect.{joined}
use scbl.Fragment.Assembly.{receive, reassembles}

abbrev local : SocketAddr
local = record { ip = 0x7f000001; port = 3074 }

abbrev client : ClientInfo
client = new_client local 77 0

reassembles_real_sender_order :
    (finish_fragmented_payload
      (λ n. true)
      (cache_fragment (cache_fragment client 1 101 (98 ∷ []) 5).0 2 100 (97 ∷ []) 6).0
      102
      (99 ∷ [])
      7).1
    ≡ ok (97 ∷ 98 ∷ 99 ∷ [])
unfolding new_client cache_fragment finish_fragmented_payload expire_fragment_state start_group
    store_fragment add_fragment check_group check_total assemble lookup insert checked_add
reassembles_real_sender_order = refl

rejects_missing_fragment :
    (finish_fragmented_payload
      (λ n. true)
      (cache_fragment client 2 100 (97 ∷ []) 6).0
      102
      (99 ∷ [])
      7).1
    ≡ err missing_id
unfolding new_client cache_fragment finish_fragmented_payload expire_fragment_state start_group
    store_fragment add_fragment check_group check_total assemble lookup insert checked_add
rejects_missing_fragment = refl

cache_fragment-Inv_example : Inv (cache_fragment client 1 101 (98 ∷ []) 5).0
cache_fragment-Inv_example = cache_fragment-Inv client 1 101 (98 ∷ []) 5 (new_client-Inv local 77 0)

-- "abc" in three chunks, of which the second one arrives first.
abbrev letter : ℕ → List ℕ
letter zero = 99 ∷ []
letter (suc zero) = 98 ∷ []
letter (suc (suc k)) = 97 ∷ []

letter-small : (k : ℕ) → IsId 2 k → length (letter k) ≤ max_payload_size
letter-small zero i = omega arith
letter-small (suc zero) i = omega arith
letter-small (suc (suc k)) i = omega arith

both_arrive : (k : ℕ) → IsId 2 k → mem k (keys {V = ℕ} ((1, 5) ∷ (2, 6) ∷ [])) ≡ true
both_arrive zero i = absurd (omega arith)
both_arrive (suc zero) i = refl
both_arrive (suc (suc zero)) i = refl
both_arrive (suc (suc (suc k))) i = absurd (omega arith)

no_group : differs client.packet_fragment_final_sequence 102 ≡ true
unfolding differs new_client
no_group = refl

reassembles_example :
    finish_fragmented_payload
      (λ n. true)
      (receive letter 102 client ((1, 5) ∷ (2, 6) ∷ []))
      102
      (99 ∷ [])
      7
    ≡ (
      reset_fragment_state (receive letter 102 client ((1, 5) ∷ (2, 6) ∷ [])),
      ok (joined letter 2 ++ (99 ∷ [])),
    )
reassembles_example =
    reassembles letter 2 102 5 (λ n. true) client 1 ((2, 6) ∷ []) (99 ∷ []) 7 (omega arith)
      (omega arith) letter-small (omega arith) (omega arith) (new_client-Inv local 77 0) no_group
      (omega arith) both_arrive (omega arith) (λ n. refl)
