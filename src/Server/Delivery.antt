-- ===== src/Server/Delivery.antt =====
-- The chunks of an answer, as `handle_data` numbers them, and the reassembly of them by the code that
-- receives fragments.
use scbl.Prelude.{
  ℕ, zero, suc, ◌-◌, ◌*◌, ◌≤◌, ◌<◌, ◌≡◌, ◌==◌, Bool, true, List, [], ◌∷◌, ◌++◌, append-nil,
  append_assoc, length, length-drop, drop, All, if◌then◌else◌, ok, refl, sym, ap, ap₂, ◌∙◌,
  Bool-cases, inl, inr, arith,
}
use scbl.Prelude.Maps.{keys, mem, IsId}
use scbl.Client.{ClientInfo}
use scbl.Fragment.{
  max_payload_size, fragment_assembly_timeout, differs, reset_fragment_state,
  finish_fragmented_payload,
}
use scbl.Fragment.Invariant.{Inv}
use scbl.Fragment.Collect.{joined}
use scbl.Fragment.Assembly.{receive, IsArrival, reassembles}
use scbl.Server.{chunks}
use scbl.Server.Chunks.{concat, concat-chunks}

-- The chunk that is sent with a fragment id: the ids count down to 0.
unfoldable pub chunk_with_id : List (List ℕ) → ℕ → List ℕ
chunk_with_id [] id = []
chunk_with_id (chunk ∷ rest) id = if length rest == id then chunk else chunk_with_id rest id

joined_agree :
    (f g : ℕ → List ℕ) (n : ℕ) → ((k : ℕ) → IsId n k → f k ≡ g k) → joined f n ≡ joined g n
unfolding joined
joined_agree f g zero h = refl
joined_agree f g (suc n) h =
    ap₂ (λ a b. a ++ b) (h (suc n) (omega arith))
      (joined_agree f g n (λ k i. h k (omega (arith, i))))

pub first_chunk :
    (chunk : List ℕ) (rest : List (List ℕ)) (k : ℕ)
    → length rest ≡ k
    → chunk_with_id (chunk ∷ rest) k ≡ chunk
unfolding chunk_with_id
first_chunk chunk rest k h = ground (arith, h)

pub later_chunk :
    (chunk : List ℕ) (rest : List (List ℕ)) (k : ℕ)
    → k < length rest
    → chunk_with_id (chunk ∷ rest) k ≡ chunk_with_id rest k
unfolding chunk_with_id
later_chunk chunk rest k h = ground (arith, h)

-- The chunks from the highest id down, and the one with the id 0, are all of them in order.
joined-concat :
    (parts : List (List ℕ)) (n : ℕ)
    → length parts ≡ suc n
    → joined (chunk_with_id parts) n ++ chunk_with_id parts 0 ≡ concat parts
unfolding joined concat
joined-concat [] n e = absurd (omega arith)
joined-concat (chunk ∷ []) zero e = first_chunk chunk [] 0 refl ∙ sym (append-nil chunk)
joined-concat (chunk ∷ []) (suc n) e = absurd (omega arith)
joined-concat (chunk ∷ (other ∷ rest)) zero e = absurd (omega arith)
joined-concat (chunk ∷ (other ∷ rest)) (suc n) e =
    let parts = other ∷ rest in
    let here = first_chunk chunk parts (suc n) (omega (arith, e)) in
    let last = later_chunk chunk parts 0 (omega arith) in
    let ih = joined-concat parts n (omega (arith, e)) in
    let same =
      joined_agree (chunk_with_id (chunk ∷ parts)) (chunk_with_id parts) n
        (λ k i. later_chunk chunk parts k (omega (arith, i, e))) in
    ap₂ (λ a b. a ++ b) (ap₂ (λ a b. a ++ b) here same) last
    ∙ append_assoc chunk (joined (chunk_with_id parts) n) (chunk_with_id parts 0)
    ∙ ap (λ (q : List ℕ). chunk ++ q) ih

chunk_small :
    (parts : List (List ℕ)) (k : ℕ)
    → All (λ part. length part ≤ max_payload_size) parts
    → length (chunk_with_id parts k) ≤ max_payload_size
unfolding chunk_with_id
chunk_small [] k h = omega arith
chunk_small (chunk ∷ rest) k h = elim (Bool-cases (length rest == k)) [
  | inl hit ↦ rw hit h.0
  | inr miss ↦ rw miss (chunk_small rest k h.1)
]

-- How many chunks there are.
length-chunks :
    (fuel n : ℕ) (payload : List ℕ)
    → length payload ≤ fuel
    → length payload ≤ max_payload_size * n
    → length (chunks fuel payload) ≤ n
unfolding chunks
length-chunks zero n payload h k = omega arith
length-chunks (suc fuel) n [] h k = omega arith
length-chunks (suc fuel) zero (b ∷ payload) h k = absurd (omega arith)
length-chunks (suc fuel) (suc n) (b ∷ payload) h k =
    let left = length-drop max_payload_size (b ∷ payload) in
    let rest =
      length-chunks fuel n (drop max_payload_size (b ∷ payload)) (omega (arith, h, left))
        (omega (arith, k, left)) in
    omega (arith, rest)

-- An answer of more than 1000 and at most 256 000 bytes that is cut into chunks as `handle_data` cuts
-- it is put together again by `cache_fragment` and `finish_fragmented_payload`, in whatever order the
-- chunks before the last one arrive, each at least once: the payload comes back. There are `n` chunks
-- before the last one, which has the sequence number `s`, the others have those that lead up to it,
-- all arrive within ten seconds from the first one on, which finds no group of that final sequence,
-- and every allocation is granted.
pub chunks-reassembled :
    (payload : List ℕ) (n s start : ℕ) (can_reserve : ℕ → Bool) (ci : ClientInfo) (id : ℕ)
    (order : List (ℕ × ℕ)) (now : ℕ)
    → length payload ≤ 256 * max_payload_size
    → length (chunks (length payload) payload) ≡ suc n
    → 1 ≤ n
    → s < 65536
    → Inv ci
    → differs ci.packet_fragment_final_sequence s ≡ true
    → All (IsArrival n start) ((id, start) ∷ order)
    → ((k : ℕ) → IsId n k → mem k (keys ((id, start) ∷ order)) ≡ true)
    → now - start ≤ fragment_assembly_timeout
    → ((size : ℕ) → can_reserve size ≡ true)
    → let sent = chunk_with_id (chunks (length payload) payload) in
      let ci' = receive sent s ci ((id, start) ∷ order) in
      finish_fragmented_payload can_reserve ci' s (sent 0) now
      ≡ (reset_fragment_state ci', ok payload)
chunks-reassembled payload n s start can_reserve ci id order now size count many h v other a full
      soon room =
    let parts = chunks (length payload) payload in
    let cut = concat-chunks (length payload) payload (omega arith) in
    let few = length-chunks (length payload) 256 payload (omega arith) (omega (arith, size)) in
    let whole = joined-concat parts n count ∙ cut.0 in
    let ci' = receive (chunk_with_id parts) s ci ((id, start) ∷ order) in
    reassembles (chunk_with_id parts) n s start can_reserve ci id order (chunk_with_id parts 0) now
      many (omega (arith, few, count)) (λ k i. chunk_small parts k cut.1)
      (chunk_small parts 0 cut.1) h v other a full soon room
    ∙ ap (λ (q : List ℕ). (reset_fragment_state ci', ok q)) whole
