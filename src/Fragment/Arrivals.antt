-- ===== src/Fragment/Arrivals.antt =====
-- The arrival of the fragments of one message, cut into `n` chunks of at most 1000 bytes and a last
-- one, with sequence numbers that lead up to `s`, within ten seconds from `start` on.
use scbl.Prelude.{
  ℕ, ◌+◌, ◌-◌, ◌%◌, ◌^◌, ◌≤◌, ◌<◌, ◌≡◌, ◌==◌, ltb, lt→ltb, le→ltb, ok, true, false, ◌||◌, List,
  Option, none, some, length, All, refl, Bool-cases, inl, inr, arith,
}
use scbl.Prelude.Maps.{
  lookup, insert, keys, mem, IsId, lookup_absent, lookup_held, keys-insert_new, Distinct-insert_new,
  All-insert_new,
}
use scbl.Prelude.Pigeonhole.{length-le_of_IsId}
use scbl.Client.{ClientInfo}
use scbl.Fragment.{
  max_payload_size, max_inbound_message_bytes, max_inbound_fragments, fragment_assembly_timeout,
  expire_fragment_state, is_expired, differs, reset_fragment_state, start_group, add_fragment,
  store_fragment, cache_fragment, checked_add,
}
use scbl.Fragment.Invariant.{Inv, expire-Inv, start_group-Inv, stored-Inv}
use scbl.Fragment.Collect.{Agrees, insert-Agrees, total_bytes_le}

-- What `add_fragment` makes of a chunk that fits.
with_fragment : ClientInfo → ℕ → List ℕ → ClientInfo
with_fragment ci id payload = record ci {
  packet_fragments = insert id payload ci.packet_fragments;
  packet_fragment_bytes = ci.packet_fragment_bytes + length payload;
}

add_fragment_fits :
    (ci : ClientInfo) (id : ℕ) (payload : List ℕ)
    → ci.packet_fragment_bytes + length payload ≤ 255000
    → add_fragment ci id payload (checked_add ci.packet_fragment_bytes (length payload))
      ≡ (with_fragment ci id payload, ok true)
unfolding add_fragment checked_add with_fragment
add_fragment_fits ci id payload h =
    let sum : ltb (ci.packet_fragment_bytes + length payload) (2 ^ 64) ≡ true =
      lt→ltb _ _ (omega (arith, h)) in
    let size : ltb max_inbound_message_bytes (ci.packet_fragment_bytes + length payload) ≡ false =
      le→ltb _ _ (omega (arith, h)) in
    rw (sum, size)

-- A group that is not older than ten seconds stays.
pub expire_started :
    (ci : ClientInfo) (start now : ℕ)
    → ci.packet_fragment_started_at ≡ some start
    → now - start ≤ fragment_assembly_timeout
    → expire_fragment_state ci now ≡ ci
unfolding expire_fragment_state is_expired
expire_started ci start now e soon =
    let young : ltb fragment_assembly_timeout (now - start) ≡ false = le→ltb _ _ soon in
    simp (e, young)

pub start_group_same :
    (ci : ClientInfo) (s now : ℕ)
    → ci.packet_fragment_final_sequence ≡ some s
    → start_group ci s now ≡ ci
unfolding start_group differs
start_group_same ci s now e = let same : differs (some s) s ≡ false = ground arith in simp (e, same)

expire-differs :
    (ci : ClientInfo) (s now : ℕ)
    → differs ci.packet_fragment_final_sequence s ≡ true
    → differs (expire_fragment_state ci now).packet_fragment_final_sequence s ≡ true
unfolding expire_fragment_state
expire-differs ci s now e = elim (Bool-cases (is_expired ci.packet_fragment_started_at now)) [
  | inl old ↦ rw (old, expire_fragment_state) (unfold differs reset_fragment_state in refl)
  | inr fresh ↦ rw (fresh, expire_fragment_state) e
]

module _ (chunk : ℕ → List ℕ) (n s start : ℕ) where
  -- The group of the message, as far as it has arrived.
  pub record Group (ci : ClientInfo) : Type 0 where
    pub inv : Inv ci
    pub final : ci.packet_fragment_final_sequence ≡ some s
    pub started : ci.packet_fragment_started_at ≡ some start
    pub ids : All (IsId n) (keys ci.packet_fragments)
    pub agrees : Agrees chunk ci.packet_fragments

  -- The ids that are held afterwards are those held before and `id`.
  abbrev pub Adds : ℕ → ClientInfo → ClientInfo → Type 0
  Adds id ci ci' =
      (j : ℕ) → mem j (keys ci'.packet_fragments) ≡ ((id == j) || mem j (keys ci.packet_fragments))

  module _ (many : n ≤ 255) (small : (k : ℕ) → IsId n k → length (chunk k) ≤ max_payload_size) where
    -- A new chunk fits.
    fits :
        (ci : ClientInfo) (id : ℕ)
        → Group ci
        → IsId n id
        → lookup id ci.packet_fragments ≡ none
        → ci.packet_fragment_bytes + length (chunk id) ≤ 255000
    fits ci id g i absent =
        let new = lookup_absent id ci.packet_fragments absent in
        let count =
          length-le_of_IsId n (keys (insert id (chunk id) ci.packet_fragments))
            (All-insert_new (IsId n) id (chunk id) ci.packet_fragments new i g.ids)
            (Distinct-insert_new id (chunk id) ci.packet_fragments new g.inv.distinct) in
        let grown = (keys-insert_new id (chunk id) ci.packet_fragments 0 new).1 in
        let bytes = total_bytes_le chunk 1000 n ci.packet_fragments g.agrees g.ids small in
        omega (arith, count, grown, bytes, small id i, g.inv.counted)

    stored-Group :
        (ci : ClientInfo) (id : ℕ)
        → Group ci
        → IsId n id
        → lookup id ci.packet_fragments ≡ none
        → Group (with_fragment ci id (chunk id)) × Adds id ci (with_fragment ci id (chunk id))
    unfolding with_fragment
    stored-Group ci id g i absent =
        let new = lookup_absent id ci.packet_fragments absent in
        (
          record {
            inv =
                stored-Inv ci id s (ci.packet_fragment_bytes + length (chunk id)) (chunk id) g.inv
                  g.final (omega (arith, i, many)) absent refl
                  (omega (arith, fits ci id g i absent));
            final = g.final;
            started = g.started;
            ids = All-insert_new (IsId n) id (chunk id) ci.packet_fragments new i g.ids;
            agrees = insert-Agrees chunk id ci.packet_fragments g.agrees;
          },
          λ j. (keys-insert_new id (chunk id) ci.packet_fragments j new).0,
        )

    pub store-Group :
        (ci : ClientInfo) (id : ℕ) (existing : Option (List ℕ))
        → Group ci
        → IsId n id
        → lookup id ci.packet_fragments ≡ existing
        → let ci' = (store_fragment ci id (chunk id) existing).0 in Group ci' × Adds id ci ci'
    unfolding store_fragment
    store-Group ci id (some old) g i there =
        (g, λ j. ground (arith, lookup_held id old ci.packet_fragments there))
    store-Group ci id none g i absent =
        let added = add_fragment_fits ci id (chunk id) (fits ci id g i absent) in
        rw added (stored-Group ci id g i absent)

    empty-Group :
        (ci : ClientInfo)
        → Inv ci
        → differs ci.packet_fragment_final_sequence s ≡ true
        → Group (start_group ci s start)
    empty-Group ci v other =
        let inv = start_group-Inv ci s start v in
        record {
          inv = inv.0;
          final = inv.1;
          started = unfold start_group in rw (other, start_group) refl;
          ids = unfold start_group in rw (other, start_group) tt;
          agrees = unfold start_group in rw (other, start_group) tt;
        }

    -- A fragment of the message in assembly.
    pub cache-Group :
        (ci : ClientInfo) (id now : ℕ)
        → s < 65536
        → now - start ≤ fragment_assembly_timeout
        → Group ci
        → IsId n id
        → let ci' = (cache_fragment ci id ((s + 65536 - id) % 65536) (chunk id) now).0 in
          Group ci' × Adds id ci ci'
    unfolding cache_fragment
    cache-Group ci id now h soon g i =
        let kept = expire_started ci start now g.started soon in
        let final : ((s + 65536 - id) % 65536 + id) % 65536 ≡ s = omega (arith, i) in
        let inside : ((id == 0) || ltb max_inbound_fragments id) ≡ false = ground (arith, i) in
        let same = start_group_same ci s now g.final in
        rw (inside, kept, final, same) (store-Group ci id (lookup id ci.packet_fragments) g i refl)

    -- The first of them to arrive discards what is left of another message.
    pub first-Group :
        (ci : ClientInfo) (id : ℕ)
        → s < 65536
        → Inv ci
        → differs ci.packet_fragment_final_sequence s ≡ true
        → IsId n id
        → let ci' = (cache_fragment ci id ((s + 65536 - id) % 65536) (chunk id) start).0 in
          Group ci' × (mem id (keys ci'.packet_fragments) ≡ true)
    unfolding cache_fragment
    first-Group ci id h v other i =
        let final : ((s + 65536 - id) % 65536 + id) % 65536 ≡ s = omega (arith, i) in
        let inside : ((id == 0) || ltb max_inbound_fragments id) ≡ false = ground (arith, i) in
        let ci' = start_group (expire_fragment_state ci start) s start in
        let g =
          empty-Group (expire_fragment_state ci start) (expire-Inv ci start v)
            (expire-differs ci s start other) in
        let r = store-Group ci' id (lookup id ci'.packet_fragments) g i refl in
        rw (inside, final) (r.0, ground (arith, r.1 id))
