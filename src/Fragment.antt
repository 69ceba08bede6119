-- ===== src/Fragment.antt =====
-- server/quazal/src/prudp.rs: the reassembly of fragmented messages, `reset_fragment_state`,
-- `expire_fragment_state`, `cache_fragment` and `finish_fragmented_payload`. A call returns the
-- changed `ClientInfo` beside its result. One reading of the clock serves a whole call.
pub mod Invariant
pub mod Collect
pub mod Arrivals
pub mod Assembly
pub mod Frame
mod Tests
use scbl.Prelude.{
  ℕ, zero, suc, ◌+◌, ◌*◌, ◌-◌, ◌%◌, ◌^◌, ltb, ◌==◌, Bool, true, false, ◌&&◌, ◌||◌, not, List, [],
  ◌∷◌, ◌++◌, Option, none, some, length, is_empty, Outcome, ok, err, ok_or, ◌>>=◌, if◌then◌else◌,
}
use scbl.Prelude.Maps.{lookup, insert, keys}
use scbl.Client.{ClientInfo}
use Prim.Native.Nat.{max}

abbrev pub max_payload_size : ℕ
max_payload_size = 1000

abbrev pub max_inbound_message_bytes : ℕ
max_inbound_message_bytes = 256 * 1024

abbrev pub max_inbound_fragments : ℕ
max_inbound_fragments = 255

-- Ten seconds in nanoseconds.
abbrev pub fragment_assembly_timeout : ℕ
fragment_assembly_timeout = 10 * 1_000_000_000

-- The texts of the errors, in the order of the source.
pub data FragmentError : Type 0 where
  id_outside_limit conflicting_duplicate byte_count_overflow message_exceeds_limit : FragmentError
  final_exceeds_limit sequence_mismatch empty_group missing_id : FragmentError
  total_overflow reassembled_exceeds_limit allocation_failed : FragmentError

unfoldable pub reset_fragment_state : ClientInfo → ClientInfo
reset_fragment_state ci = record ci {
  packet_fragments = [];
  packet_fragment_bytes = 0;
  packet_fragment_final_sequence = none;
  packet_fragment_started_at = none;
}

-- `started.elapsed() > FRAGMENT_ASSEMBLY_TIMEOUT`, if there is a group.
unfoldable pub is_expired : Option ℕ → ℕ → Bool
is_expired none now = false
is_expired (some started) now = ltb fragment_assembly_timeout (now - started)

unfoldable pub expire_fragment_state : ClientInfo → ℕ → ClientInfo
unfolding is_expired reset_fragment_state
expire_fragment_state ci now =
    if is_expired ci.packet_fragment_started_at now then reset_fragment_state ci else ci

-- `ci.packet_fragment_final_sequence != Some(final_sequence)`.
unfoldable pub differs : Option ℕ → ℕ → Bool
differs none sequence = true
differs (some expected) sequence = not (expected == sequence)

-- `*existing == payload`.
unfoldable pub bytes_eq : List ℕ → List ℕ → Bool
bytes_eq [] [] = true
bytes_eq [] (y ∷ ys) = false
bytes_eq (x ∷ xs) [] = false
bytes_eq (x ∷ xs) (y ∷ ys) = (x == y) && bytes_eq xs ys

-- `usize::checked_add` on a 64-bit machine.
unfoldable pub checked_add : ℕ → ℕ → Option ℕ
checked_add a b = if ltb (a + b) (2 ^ 64) then some (a + b) else none

-- A fragment of another message than the one in assembly starts a new group.
unfoldable pub start_group : ClientInfo → ℕ → ℕ → ClientInfo
unfolding differs reset_fragment_state
start_group ci final_sequence now =
    if differs ci.packet_fragment_final_sequence final_sequence
    then record (reset_fragment_state ci) {
      packet_fragment_final_sequence = some final_sequence;
      packet_fragment_started_at = some now;
    }
    else ci

-- The part behind `checked_add`.
unfoldable pub add_fragment :
    ClientInfo → ℕ → List ℕ → Option ℕ → ClientInfo × Outcome FragmentError Bool
add_fragment ci fragment_id payload none = (ci, err byte_count_overflow)
add_fragment ci fragment_id payload (some total) =
    if ltb max_inbound_message_bytes total then (ci, err message_exceeds_limit) else (
      record ci {
        packet_fragments = insert fragment_id payload ci.packet_fragments;
        packet_fragment_bytes = total;
      },
      ok true,
    )

-- `existing` is what the map holds at the id.
unfoldable pub store_fragment :
    ClientInfo → ℕ → List ℕ → Option (List ℕ) → ClientInfo × Outcome FragmentError Bool
unfolding bytes_eq
store_fragment ci fragment_id payload (some existing) =
    (ci, if bytes_eq existing payload then ok false else err conflicting_duplicate)
store_fragment ci fragment_id payload none =
    add_fragment ci fragment_id payload (checked_add ci.packet_fragment_bytes (length payload))

unfoldable pub cache_fragment :
    ClientInfo → ℕ → ℕ → List ℕ → ℕ → ClientInfo × Outcome FragmentError Bool
cache_fragment ci fragment_id sequence payload now =
    let ci = expire_fragment_state ci now in
    if fragment_id == 0 || ltb max_inbound_fragments fragment_id
    then (ci, err id_outside_limit)
    else (let final_sequence = (sequence + fragment_id) % 65536 in
        let ci = start_group ci final_sequence now in
        store_fragment ci fragment_id payload (lookup fragment_id ci.packet_fragments))

-- `keys().max()`.
unfoldable pub max_key : List ℕ → Option ℕ
max_key [] = none
max_key (k ∷ ks) = some (elim (max_key ks) [ none ↦ k | some m ↦ max k m ])

-- `for fragment_id in (1..=highest).rev()`.
unfoldable pub collect_fragments : List (ℕ × List ℕ) → ℕ → Outcome FragmentError (List ℕ)
collect_fragments fragments zero = ok []
collect_fragments fragments (suc n) = ok_or (lookup (suc n) fragments) missing_id >>= λ chunk.
    collect_fragments fragments n >>= λ rest. ok (chunk ++ rest)

-- `can_reserve` says which allocations `try_reserve_exact` grants.
module _ (can_reserve : ℕ → Bool) where
  unfoldable pub assemble :
      ClientInfo → ℕ → ℕ → List ℕ → ClientInfo × Outcome FragmentError (List ℕ)
  unfolding reset_fragment_state collect_fragments
  assemble ci highest total final_payload = (
    reset_fragment_state ci,
    if can_reserve total
        then (collect_fragments ci.packet_fragments highest >>= λ chunks.
            ok (chunks ++ final_payload))
        else err allocation_failed,
  )

  -- The part behind `checked_add`.
  unfoldable pub check_total :
      ClientInfo → ℕ → List ℕ → Option ℕ → ClientInfo × Outcome FragmentError (List ℕ)
  check_total ci highest final_payload none = (ci, err total_overflow)
  check_total ci highest final_payload (some total) =
      if ltb max_inbound_message_bytes total
      then (ci, err reassembled_exceeds_limit)
      else assemble ci highest total final_payload

  -- The checks on the highest fragment id.
  unfoldable pub check_group :
      ClientInfo → List ℕ → Option ℕ → ClientInfo × Outcome FragmentError (List ℕ)
  check_group ci final_payload none = (ci, err empty_group)
  check_group ci final_payload (some highest) =
      if ltb max_inbound_fragments highest || not (length ci.packet_fragments == highest)
      then (ci, err missing_id)
      else check_total ci highest final_payload
          (checked_add ci.packet_fragment_bytes (length final_payload))

  unfoldable pub finish_fragmented_payload :
      ClientInfo → ℕ → List ℕ → ℕ → ClientInfo × Outcome FragmentError (List ℕ)
  unfolding max_key
  finish_fragmented_payload ci sequence final_payload now =
      let ci = expire_fragment_state ci now in
      if ltb max_inbound_message_bytes (length final_payload)
      then (ci, err final_exceeds_limit)
      else if is_empty ci.packet_fragments
      then (ci, ok final_payload)
      else if differs ci.packet_fragment_final_sequence sequence
      then (ci, err sequence_mismatch)
      else check_group ci final_payload (max_key (keys ci.packet_fragments))
