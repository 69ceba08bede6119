-- ===== src/Fragment/Invariant.antt =====
-- The invariant of a group of fragments, kept by every operation on it: distinct ids from 1 to 255,
-- a byte count that is the sum of the chunks and at most 256 KiB, and a start time for each group.
use scbl.Prelude.{
  ℕ, ◌+◌, ◌%◌, ◌≤◌, ◌≡◌, ◌==◌, ltb, Bool, false, ◌||◌, List, [], ◌∷◌, Option, none, some, length,
  All, refl, Bool-cases, inl, inr, arith,
}
use scbl.Prelude.Maps.{
  lookup, insert, keys, mem, Distinct, IsId, lookup_absent, Distinct-insert_new, All-insert_new,
}
use scbl.Client.{ClientInfo, SocketAddr, new_client}
use scbl.Fragment.{
  max_inbound_message_bytes, max_inbound_fragments, reset_fragment_state, expire_fragment_state,
  is_expired, differs, start_group, add_fragment, store_fragment, cache_fragment, checked_add,
  max_key, check_group, check_total, assemble, finish_fragmented_payload,
}

-- The bytes of all chunks.
unfoldable pub total_bytes : List (ℕ × List ℕ) → ℕ
total_bytes [] = 0
total_bytes ((k, chunk) ∷ m) = length chunk + total_bytes m

total_bytes-insert :
    (k : ℕ) (chunk : List ℕ) (m : List (ℕ × List ℕ))
    → mem k (keys m) ≡ false
    → total_bytes (insert k chunk m) ≡ total_bytes m + length chunk
unfolding insert total_bytes
total_bytes-insert k chunk [] e = omega arith
total_bytes-insert k chunk ((j, c) ∷ m) e = ground (arith, total_bytes-insert k chunk m)

-- A group has a start time exactly if it has a final sequence.
abbrev pub IsTimed : Option ℕ → Option ℕ → Type 0
IsTimed none none = Unit {0}
IsTimed none (some t) = ⊥
IsTimed (some s) none = ⊥
IsTimed (some s) (some t) = Unit {0}

-- Fragments are retained only for a group.
abbrev pub IsNamed : List (ℕ × List ℕ) → Option ℕ → Type 0
IsNamed [] s = Unit {0}
IsNamed (f ∷ fs) none = ⊥
IsNamed (f ∷ fs) (some s) = Unit {0}

pub record Inv (ci : ClientInfo) : Type 0 where
  pub ids : All (IsId 255) (keys ci.packet_fragments)
  pub distinct : Distinct (keys ci.packet_fragments)
  pub counted : ci.packet_fragment_bytes ≡ total_bytes ci.packet_fragments
  pub bounded : ci.packet_fragment_bytes ≤ max_inbound_message_bytes
  pub timed : IsTimed ci.packet_fragment_final_sequence ci.packet_fragment_started_at
  pub named : IsNamed ci.packet_fragments ci.packet_fragment_final_sequence

pub new_client-Inv : (a : SocketAddr) (signature now : ℕ) → Inv (new_client a signature now)
unfolding new_client total_bytes
new_client-Inv a signature now = record {
  ids = tt;
  distinct = tt;
  counted = refl;
  bounded = omega arith;
  timed = tt;
  named = tt;
}

pub reset-Inv : (ci : ClientInfo) → Inv (reset_fragment_state ci)
unfolding reset_fragment_state total_bytes
reset-Inv ci = record {
  ids = tt;
  distinct = tt;
  counted = refl;
  bounded = omega arith;
  timed = tt;
  named = tt;
}

pub expire-Inv : (ci : ClientInfo) (now : ℕ) → Inv ci → Inv (expire_fragment_state ci now)
unfolding expire_fragment_state
expire-Inv ci now v = elim (Bool-cases (is_expired ci.packet_fragment_started_at now)) [
  | inl old ↦ rw old (reset-Inv ci)
  | inr fresh ↦ rw fresh v
]

pub differs-eq-false : (o : Option ℕ) (s : ℕ) → differs o s ≡ false → o ≡ some s
unfolding differs
differs-eq-false none s e = cc
differs-eq-false (some r) s e = ground arith

-- After `start_group` the group has its final sequence.
pub start_group-Inv :
    (ci : ClientInfo) (s now : ℕ)
    → Inv ci
    → Inv (start_group ci s now) × ((start_group ci s now).packet_fragment_final_sequence ≡ some s)
unfolding start_group total_bytes
start_group-Inv ci s now v = elim (Bool-cases (differs ci.packet_fragment_final_sequence s)) [
  | inl other ↦ rw other (
    record {
      ids = tt;
      distinct = tt;
      counted = refl;
      bounded = omega arith;
      timed = tt;
      named = tt;
    },
    refl,
  )
  | inr same ↦ rw same (v, differs-eq-false ci.packet_fragment_final_sequence s same)
]

insert-IsNamed :
    (k s : ℕ) (chunk : List ℕ) (m : List (ℕ × List ℕ)) → IsNamed (insert k chunk m) (some s)
unfolding insert
insert-IsNamed k s chunk [] = tt
insert-IsNamed k s chunk ((j, c) ∷ m) = ground arith

checked_add-eq-some : (a b total : ℕ) → checked_add a b ≡ some total → total ≡ a + b
unfolding checked_add
checked_add-eq-some a b total e = ground arith

-- A new fragment within the limit.
pub stored-Inv :
    (ci : ClientInfo) (id s total : ℕ) (payload : List ℕ)
    → Inv ci
    → ci.packet_fragment_final_sequence ≡ some s
    → IsId 255 id
    → lookup id ci.packet_fragments ≡ none
    → total ≡ ci.packet_fragment_bytes + length payload
    → total ≤ max_inbound_message_bytes
    → Inv (record ci {
      packet_fragments = insert id payload ci.packet_fragments;
      packet_fragment_bytes = total;
    })
stored-Inv ci id s total payload v e i absent sum small =
    let new = lookup_absent id ci.packet_fragments absent in
    record {
      ids = All-insert_new (IsId 255) id payload ci.packet_fragments new i v.ids;
      distinct = Distinct-insert_new id payload ci.packet_fragments new v.distinct;
      counted = omega (arith, total_bytes-insert id payload ci.packet_fragments new, v.counted);
      bounded = small;
      timed = v.timed;
      named = rw e (insert-IsNamed id s payload ci.packet_fragments);
    }

add_fragment-Inv :
    (ci : ClientInfo) (id s : ℕ) (payload : List ℕ) (sum : Option ℕ)
    → Inv ci
    → ci.packet_fragment_final_sequence ≡ some s
    → IsId 255 id
    → lookup id ci.packet_fragments ≡ none
    → checked_add ci.packet_fragment_bytes (length payload) ≡ sum
    → Inv (add_fragment ci id payload sum).0
unfolding add_fragment
add_fragment-Inv ci id s payload none v e i absent sum = v
add_fragment-Inv ci id s payload (some total) v e i absent sum =
    elim (Bool-cases (ltb max_inbound_message_bytes total)) [
      | inl big ↦ rw big v
      | inr small ↦ rw small (
          stored-Inv ci id s total payload v e i absent
            (checked_add-eq-some ci.packet_fragment_bytes (length payload) total sum)
            (ground arith))
    ]

pub store_fragment-Inv :
    (ci : ClientInfo) (id s : ℕ) (payload : List ℕ) (old : Option (List ℕ))
    → Inv ci
    → ci.packet_fragment_final_sequence ≡ some s
    → IsId 255 id
    → lookup id ci.packet_fragments ≡ old
    → Inv (store_fragment ci id payload old).0
unfolding store_fragment
store_fragment-Inv ci id s payload (some old) v e i there = v
store_fragment-Inv ci id s payload none v e i absent =
    add_fragment-Inv ci id s payload (checked_add ci.packet_fragment_bytes (length payload)) v e i
      absent refl

-- Caching a fragment keeps the invariant, whatever it answers: distinct ids from 1 to 255, a byte
-- count that is the sum of the chunks and at most 256 KiB, a start time exactly where there is a
-- final sequence, and fragments only where there is one.
pub cache_fragment-Inv :
    (ci : ClientInfo) (id sequence : ℕ) (payload : List ℕ) (now : ℕ)
    → Inv ci
    → Inv (cache_fragment ci id sequence payload now).0
unfolding cache_fragment
cache_fragment-Inv ci id sequence payload now v =
    let v' = expire-Inv ci now v in
    elim (Bool-cases ((id == 0) || ltb max_inbound_fragments id)) [
      | inl outside ↦ rw outside v'
      | inr inside ↦ rw inside (
          let s : ℕ = (sequence + id) % 65536 in
          let started = start_group-Inv (expire_fragment_state ci now) s now v' in
          store_fragment-Inv (start_group (expire_fragment_state ci now) s now) id s payload _
            started.0 started.1 (ground arith) refl)
    ]

check_group-Inv :
    (can_reserve : ℕ → Bool) (ci : ClientInfo) (payload : List ℕ) (highest : Option ℕ)
    → Inv ci
    → Inv (check_group can_reserve ci payload highest).0
unfolding check_group check_total assemble
check_group-Inv can_reserve ci payload none v = v
check_group-Inv can_reserve ci payload (some highest) v = ground (arith, reset-Inv ci)

-- The last fragment of a message keeps the same invariant, whatever it answers.
pub finish-Inv :
    (can_reserve : ℕ → Bool) (ci : ClientInfo) (sequence : ℕ) (payload : List ℕ) (now : ℕ)
    → Inv ci
    → Inv (finish_fragmented_payload can_reserve ci sequence payload now).0
unfolding finish_fragmented_payload
finish-Inv can_reserve ci sequence payload now v =
    let v' = expire-Inv ci now v in
    ground (
      arith,
      check_group-Inv can_reserve (expire_fragment_state ci now) payload
          (max_key (keys (expire_fragment_state ci now).packet_fragments)) v',
    )
