-- ===== src/Fragment/Frame.antt =====
-- The fragment functions leave the client's signature alone.
use scbl.Prelude.{
  ℕ, ◌+◌, ◌%◌, ◌≡◌, ◌==◌, ◌∙◌, refl, ltb, Bool, ◌||◌, List, Option, none, some, Bool-cases, inl,
  inr, arith,
}
use scbl.Prelude.Maps.{lookup, keys}
use scbl.Client.{ClientInfo}
use scbl.Fragment.{
  max_inbound_fragments, reset_fragment_state, expire_fragment_state, start_group, add_fragment,
  store_fragment, cache_fragment, checked_add, max_key, check_group, check_total, assemble,
  finish_fragmented_payload,
}

expire-signature :
    (ci : ClientInfo) (now : ℕ)
    → (expire_fragment_state ci now).client_signature ≡ ci.client_signature
unfolding expire_fragment_state reset_fragment_state
expire-signature ci now = ground arith

start-signature :
    (ci : ClientInfo) (s now : ℕ) → (start_group ci s now).client_signature ≡ ci.client_signature
unfolding start_group reset_fragment_state
start-signature ci s now = ground arith

store-signature :
    (ci : ClientInfo) (id : ℕ) (payload : List ℕ) (old : Option (List ℕ))
    → (store_fragment ci id payload old).0.client_signature ≡ ci.client_signature
unfolding store_fragment add_fragment checked_add
store-signature ci id payload none = ground arith
store-signature ci id payload (some c) = refl

pub cache-signature :
    (ci : ClientInfo) (id sequence : ℕ) (payload : List ℕ) (now : ℕ)
    → (cache_fragment ci id sequence payload now).0.client_signature ≡ ci.client_signature
unfolding cache_fragment
cache-signature ci id sequence payload now =
    let ci1 = expire_fragment_state ci now in
    let ci2 = start_group ci1 ((sequence + id) % 65536) now in
    elim (Bool-cases ((id == 0) || ltb max_inbound_fragments id)) [
      | inl outside ↦ rw outside (expire-signature ci now)
      | inr inside ↦ rw inside (
          store-signature ci2 id payload (lookup id ci2.packet_fragments)
          ∙ start-signature ci1 ((sequence + id) % 65536) now
          ∙ expire-signature ci now)
    ]

check-signature :
    (can_reserve : ℕ → Bool) (ci : ClientInfo) (payload : List ℕ) (highest : Option ℕ)
    → (check_group can_reserve ci payload highest).0.client_signature ≡ ci.client_signature
unfolding check_group check_total assemble reset_fragment_state
check-signature can_reserve ci payload none = refl
check-signature can_reserve ci payload (some highest) = ground arith

pub finish-signature :
    (can_reserve : ℕ → Bool) (ci : ClientInfo) (sequence : ℕ) (payload : List ℕ) (now : ℕ)
    → (finish_fragmented_payload can_reserve ci sequence payload now).0.client_signature
      ≡ ci.client_signature
unfolding finish_fragmented_payload
finish-signature can_reserve ci sequence payload now =
    let ci1 = expire_fragment_state ci now in
    ground (
      arith,
      expire-signature ci now,
      check-signature can_reserve ci1 payload (max_key (keys ci1.packet_fragments)),
    )
