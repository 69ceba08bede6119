-- ===== src/Fragment/Assembly.antt =====
-- The reassembly of a whole message, whatever the order in which its fragments arrive.
use scbl.Prelude.{
  ℕ, ◌+◌, ◌-◌, ◌%◌, ◌^◌, ◌≤◌, ◌<◌, ◌≡◌, ◌==◌, ltb, lt→ltb, le→ltb, Bool, true, false, ◌||◌, not,
  List, [], ◌∷◌, ◌++◌, some, length, is_empty, All, refl, subst, ok, arith,
}
use scbl.Prelude.Maps.{keys, mem, IsId}
use scbl.Prelude.Pigeonhole.{length-le_of_IsId, length-ge_of_full}
use native.Mathlib.Decide.{ℕ_discrete}
use scbl.Client.{ClientInfo}
use scbl.Fragment.{
  max_payload_size, max_inbound_message_bytes, max_inbound_fragments, fragment_assembly_timeout,
  reset_fragment_state, differs, cache_fragment, checked_add, assemble, check_total, check_group,
  finish_fragmented_payload,
}
use scbl.Fragment.Invariant.{Inv}
use scbl.Fragment.Collect.{joined, length-keys, max_key_lem, collect-joined, total_bytes_le}
use scbl.Fragment.Arrivals.{Group, expire_started, cache-Group, first-Group}

-- The fragments of a message arrive: the ids with the times of their arrival.
unfoldable pub receive : (ℕ → List ℕ) → ℕ → ClientInfo → List (ℕ × ℕ) → ClientInfo
receive chunk s ci [] = ci
receive chunk s ci ((id, now) ∷ rest) =
    receive chunk s (cache_fragment ci id ((s + 65536 - id) % 65536) (chunk id) now).0 rest

-- An arrival in time of one of the `n` ids.
abbrev pub IsArrival : ℕ → ℕ → ℕ × ℕ → Type 0
IsArrival n start (id, now) = IsId n id × (now - start ≤ fragment_assembly_timeout)

arrived :
    (k id : ℕ) (order : List (ℕ × ℕ)) (held : List ℕ)
    → mem k (id ∷ keys order) ≡ true
    → mem id held ≡ true
    → (mem k (keys order) || mem k held) ≡ true
arrived k id order held e there = elim (ℕ_discrete id k) [
  | yes same ↦ (let here = subst (λ (j : ℕ). mem j held ≡ true) same there in ground (arith, here))
  | no other ↦ ground (arith, other)
]

differs_same :
    (ci : ClientInfo) (s : ℕ)
    → ci.packet_fragment_final_sequence ≡ some s
    → differs ci.packet_fragment_final_sequence s ≡ false
unfolding differs
differs_same ci s e = let same : differs (some s) s ≡ false = ground arith in simp (e, same)

not_empty : (m : List (ℕ × List ℕ)) → 1 ≤ length m → is_empty m ≡ false
not_empty [] h = absurd (omega arith)
not_empty (e ∷ m) h = refl

module _ (chunk : ℕ → List ℕ) (n s start : ℕ) where
  module _ (many : n ≤ 255) (small : (k : ℕ) → IsId n k → length (chunk k) ≤ max_payload_size) where
    receive-Group :
        (ci : ClientInfo) (order : List (ℕ × ℕ))
        → s < 65536
        → Group chunk n s start ci
        → All (IsArrival n start) order
        → let ci' = receive chunk s ci order in
          Group chunk n s start ci'
          × ((j : ℕ)
              → mem j (keys ci'.packet_fragments)
                ≡ (mem j (keys order) || mem j (keys ci.packet_fragments)))
    unfolding receive
    receive-Group ci [] h g a = (g, λ j. refl)
    receive-Group ci ((id, now) ∷ rest) h g a =
        let one = cache-Group chunk n s start many small ci id now h a.0.1 g a.0.0 in
        let all =
          receive-Group (cache_fragment ci id ((s + 65536 - id) % 65536) (chunk id) now).0 rest h
            one.0 a.1 in
        (all.0, λ j. ground (arith, all.1 j, one.1 j))

    full_length :
        (ci : ClientInfo)
        → Group chunk n s start ci
        → ((k : ℕ) → IsId n k → mem k (keys ci.packet_fragments) ≡ true)
        → length ci.packet_fragments ≡ n
    full_length ci g full = omega (
      arith,
      length-keys ci.packet_fragments,
      length-le_of_IsId n (keys ci.packet_fragments) g.ids g.inv.distinct,
      length-ge_of_full n (keys ci.packet_fragments) full,
    )

    -- None of the checks on a complete group fails.
    assembles :
        (can_reserve : ℕ → Bool) (ci : ClientInfo) (last : List ℕ)
        → Group chunk n s start ci
        → ((k : ℕ) → IsId n k → mem k (keys ci.packet_fragments) ≡ true)
        → length last ≤ max_payload_size
        → ((size : ℕ) → can_reserve size ≡ true)
        → check_group can_reserve ci last (some n)
          ≡ (reset_fragment_state ci, ok (joined chunk n ++ last))
    unfolding check_group check_total checked_add assemble
    assembles can_reserve ci last g full short room =
        let len = full_length ci g full in
        let count : (ltb max_inbound_fragments n || not (length ci.packet_fragments == n)) ≡ false =
          ground (arith, len, many) in
        let bytes = total_bytes_le chunk 1000 n ci.packet_fragments g.agrees g.ids small in
        let held : ci.packet_fragment_bytes ≤ 255000 =
          omega (arith, bytes, len, length-keys ci.packet_fragments, g.inv.counted, many) in
        let sum : ltb (ci.packet_fragment_bytes + length last) (2 ^ 64) ≡ true =
          lt→ltb _ _ (omega (arith, held, short)) in
        let fits : ltb max_inbound_message_bytes (ci.packet_fragment_bytes + length last) ≡ false =
          le→ltb _ _ (omega (arith, held, short)) in
        let joins = collect-joined chunk ci.packet_fragments n g.agrees full in
        rw (count, sum, fits, room (ci.packet_fragment_bytes + length last), joins)

    -- A complete group is assembled by the last fragment.
    finish-Group :
        (can_reserve : ℕ → Bool) (ci : ClientInfo) (last : List ℕ) (now : ℕ)
        → 1 ≤ n
        → Group chunk n s start ci
        → ((k : ℕ) → IsId n k → mem k (keys ci.packet_fragments) ≡ true)
        → now - start ≤ fragment_assembly_timeout
        → length last ≤ max_payload_size
        → ((size : ℕ) → can_reserve size ≡ true)
        → finish_fragmented_payload can_reserve ci s last now
          ≡ (reset_fragment_state ci, ok (joined chunk n ++ last))
    unfolding finish_fragmented_payload check_group check_total assemble
    finish-Group can_reserve ci last now some_id g full soon short room =
        let kept = expire_started ci start now g.started soon in
        let len = full_length ci g full in
        let big : ltb max_inbound_message_bytes (length last) ≡ false =
          le→ltb _ _ (omega (arith, short)) in
        let some_left = not_empty ci.packet_fragments (omega (arith, len, some_id)) in
        let same = differs_same ci s g.final in
        let highest =
          max_key_lem n (keys ci.packet_fragments) g.ids (full n (omega (arith, some_id))) in
        rw (big, kept, some_left, same, highest) (assembles can_reserve ci last g full short room)

  -- A message of 1 to 255 chunks and a last one, each of at most 1000 bytes, is delivered whole by its
  -- last fragment, in whatever order and however often its other fragments arrived before, each of
  -- them at least once: the chunks are joined from the highest id down, and the group is reset. The
  -- first of the fragments finds no group of the same final sequence, all arrive within ten seconds
  -- from it on, and every allocation is granted.
  pub reassembles :
      (can_reserve : ℕ → Bool) (ci : ClientInfo) (id : ℕ) (order : List (ℕ × ℕ)) (last : List ℕ)
      (now : ℕ)
      → 1 ≤ n
      → n ≤ 255
      → ((k : ℕ) → IsId n k → length (chunk k) ≤ max_payload_size)
      → length last ≤ max_payload_size
      → s < 65536
      → Inv ci
      → differs ci.packet_fragment_final_sequence s ≡ true
      → All (IsArrival n start) ((id, start) ∷ order)
      → ((k : ℕ) → IsId n k → mem k (keys ((id, start) ∷ order)) ≡ true)
      → now - start ≤ fragment_assembly_timeout
      → ((size : ℕ) → can_reserve size ≡ true)
      → let ci' = receive chunk s ci ((id, start) ∷ order) in
        finish_fragmented_payload can_reserve ci' s last now
        ≡ (reset_fragment_state ci', ok (joined chunk n ++ last))
  unfolding receive
  reassembles can_reserve ci id order last now some_id many small short h v other a full soon room =
      let first = first-Group chunk n s start many small ci id h v other a.0.0 in
      let all =
        receive-Group many small
          (cache_fragment ci id ((s + 65536 - id) % 65536) (chunk id) start).0 order h first.0
          a.1 in
      finish-Group many small can_reserve _ last now some_id all.0
        (λ k i. rw (all.1 k) (arrived k id order _ (full k i) first.1)) soon short room
