-- ===== src/Stream/Collections.antt =====
-- server/quazal/src/rmc/basic.rs: numbers, pairs and maps in streams. A `HashMap` is written in the
-- order in which it is iterated, which is the order of its association list here; its keys are
-- numbers.
use scbl.Prelude.{
  ℕ, zero, suc, ◌%◌, ◌^◌, ◌≤◌, ◌≡◌, ◌==◌, refl, ltb, le→ltb, Bool, true, false, not, List, [], ◌∷◌,
  ◌++◌, append_assoc, append-nil, length, All, ok, err, ◌>>=◌, if◌then◌else◌, Bool-cases, inl, inr,
  arith,
}
use scbl.Prelude.Maps.{insert, keys, mem}
use scbl.ByteOrder.{ByteOrder, to_le_bytes}
use scbl.ByteOrder.Laws.{read_u32_back}
use scbl.Stream.{length_limit_exceeded, allocation_failed, Reader, max_collection_items, read_u32}
use scbl.Stream.Laws.{ReadsBack}

-- `to_stream` of an unsigned number of `width` bytes.
unfoldable pub write_number : ℕ → ℕ → List ℕ
write_number width value = to_le_bytes width value

module _ {A B : Type 0} where
  -- A tuple of two.
  unfoldable pub read_pair : Reader A → Reader B → Reader (A × B)
  read_pair read_a read_b rdr = read_a rdr >>= λ a. read_b a.1 >>= λ b. ok ((a.0, b.0), b.1)

  unfoldable pub write_pair : (A → List ℕ) → (B → List ℕ) → A × B → List ℕ
  write_pair write_a write_b (a, b) = write_a a ++ write_b b

  -- A pair whose parts are read back is read back.
  pub read_pair-write_pair :
      (read_a : Reader A) (read_b : Reader B) (write_a : A → List ℕ) (write_b : B → List ℕ) (a : A)
      (b : B)
      → ReadsBack read_a write_a a
      → ReadsBack read_b write_b b
      → ReadsBack (read_pair read_a read_b) (write_pair write_a write_b) (a, b)
  unfolding read_pair write_pair
  read_pair-write_pair read_a read_b write_a write_b a b ha hb rest =
      rw (append_assoc (write_a a) (write_b b) rest, ha (write_b b ++ rest), hb rest)

module _ {V : Type 0} where
  -- `for _i in 0..n`, which inserts into the map read so far.
  unfoldable pub read_entries : Reader ℕ → Reader V → ℕ → List (ℕ × V) → Reader (List (ℕ × V))
  read_entries read_k read_v zero m rdr = ok (m, rdr)
  read_entries read_k read_v (suc n) m rdr =
      read_k rdr >>= λ k. read_v k.1 >>= λ v. read_entries read_k read_v n (insert k.0 v.0 m) v.1

  unfoldable pub read_map : ByteOrder → (ℕ → Bool) → Reader ℕ → Reader V → Reader (List (ℕ × V))
  read_map bo can_reserve read_k read_v rdr = read_u32 bo rdr >>= λ n.
      if ltb max_collection_items n.0
      then err (length_limit_exceeded n.0 max_collection_items)
      else if not (can_reserve n.0)
      then err (allocation_failed n.0)
      else read_entries read_k read_v n.0 [] n.1

  unfoldable pub write_entries : (ℕ → List ℕ) → (V → List ℕ) → List (ℕ × V) → List ℕ
  write_entries write_k write_v [] = []
  write_entries write_k write_v ((k, v) ∷ m) =
      write_k k ++ (write_v v ++ write_entries write_k write_v m)

  unfoldable pub write_map : (ℕ → List ℕ) → (V → List ℕ) → List (ℕ × V) → List ℕ
  write_map write_k write_v m = to_le_bytes 4 (length m % 2 ^ 32) ++ write_entries write_k write_v m

  insert-new :
      (k : ℕ) (v : V) (m : List (ℕ × V))
      → mem k (keys m) ≡ false
      → insert k v m ≡ m ++ ((k, v) ∷ [])
  unfolding insert
  insert-new k v [] e = refl
  insert-new k v ((j, w) ∷ m) e = elim (Bool-cases (j == k)) [
    | inl hit ↦ cc (rw hit at e)
    | inr miss ↦ rw (miss, insert-new k v m (rw miss at e))
  ]

  -- The keys that are still to be read are new to the map so far.
  abbrev pub AreNew : List (ℕ × V) → List (ℕ × V) → Type 0
  AreNew m [] = Unit {0}
  AreNew m ((k, v) ∷ rest) = (mem k (keys m) ≡ false) × AreNew (m ++ ((k, v) ∷ [])) rest

  module _ (read_k : Reader ℕ) (read_v : Reader V) (write_k : ℕ → List ℕ)
      (write_v : V → List ℕ) where
    read_entries-write_entries :
        (m entries : List (ℕ × V)) (rest : List ℕ)
        → All (λ e. ReadsBack read_k write_k e.0 × ReadsBack read_v write_v e.1) entries
        → AreNew m entries
        → read_entries read_k read_v
            (length entries)
            m
            (write_entries write_k write_v entries ++ rest)
          ≡ ok (m ++ entries, rest)
    unfolding read_entries write_entries
    read_entries-write_entries m [] rest h new = rw (append-nil m)
    read_entries-write_entries m ((k, v) ∷ entries) rest h new =
        let tail = write_entries write_k write_v entries in
        rw (
          append_assoc (write_k k) (write_v v ++ tail) rest,
          append_assoc (write_v v) tail rest,
          h.0.0 (write_v v ++ (tail ++ rest)),
          h.0.1 (tail ++ rest),
          insert-new k v m new.0,
          read_entries-write_entries (m ++ ((k, v) ∷ [])) entries rest h.1 new.1,
          append_assoc m ((k, v) ∷ []) entries,
        )

    -- A map of at most 65536 entries with distinct keys, each entry of which is read back, is read
    -- back, if the allocation is granted.
    pub read_map-write_map :
        (bo : ByteOrder) (can_reserve : ℕ → Bool) (m : List (ℕ × V)) (rest : List ℕ)
        → ((size : ℕ) → can_reserve size ≡ true)
        → All (λ e. ReadsBack read_k write_k e.0 × ReadsBack read_v write_v e.1) m
        → AreNew [] m
        → length m ≤ max_collection_items
        → read_map bo can_reserve read_k read_v (write_map write_k write_v m ++ rest) ≡ ok (m, rest)
    unfolding read_map write_map read_u32
    read_map-write_map bo can_reserve m rest room h new small =
        let fits : length m % 2 ^ 32 ≡ length m = omega arith in
        let within : ltb max_collection_items (length m) ≡ false = le→ltb _ _ small in
        rw (
          fits,
          append_assoc (to_le_bytes 4 (length m)) (write_entries write_k write_v m) rest,
          read_u32_back bo (length m) (write_entries write_k write_v m ++ rest)
              (omega (arith, small)),
          within,
          room (length m),
          read_entries-write_entries [] m rest h new,
        )
