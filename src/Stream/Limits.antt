-- ===== src/Stream/Limits.antt =====
-- What is read from a stream stays within the limits, whatever length the stream claims.
use scbl.Prelude.{
  ℕ, zero, suc, ◌≤◌, ◌≡◌, refl, ap, ltb, leb, Bool, List, length, length-take, ok, >>=-eq-ok,
  ok-injective, Bool-cases, inl, inr, arith, subst,
}
use scbl.ByteOrder.{ByteOrder}
use scbl.Stream.{
  Reader, max_length_prefixed_bytes, max_collection_items, read_items, read_u32, read_n_bytes,
  buf_u32, read_vec,
}

length-read_items :
    {A : Type 0} (read : Reader A) (n : ℕ) (rdr : List ℕ) (r : List A × List ℕ)
    → read_items read n rdr ≡ ok r
    → length r.0 ≡ n
unfolding read_items
length-read_items {A} read zero rdr r e =
    subst (λ (q : List A × List ℕ). length q.0 ≡ 0) (ok-injective e) refl
length-read_items {A} read (suc n) rdr r e =
    let (item, e1, f1) = >>=-eq-ok (read rdr) _ e in
    let (rest, e2, f2) = >>=-eq-ok (read_items read n item.1) _ f1 in
    subst (λ (q : List A × List ℕ). length q.0 ≡ suc n) (ok-injective f2)
      (ap suc (length-read_items read n item.1 rest e2))

read_n_bytes-le :
    (can_reserve : ℕ → Bool) (l : ℕ) (rdr : List ℕ) (r : List ℕ × List ℕ)
    → read_n_bytes can_reserve l rdr ≡ ok r
    → length r.0 ≤ max_length_prefixed_bytes
unfolding read_n_bytes
read_n_bytes-le can_reserve l rdr r e = elim (Bool-cases (ltb max_length_prefixed_bytes l)) [
  | inl over ↦ cc (rw over at e)
  | inr within ↦ elim (Bool-cases (can_reserve l)) [
    | inr refused ↦ cc (rw (within, refused) at e)
    | inl granted ↦ elim (Bool-cases (leb l (length rdr))) [
      | inr short ↦ cc (rw (within, granted, short) at e)
      | inl there ↦
          subst (λ (q : List ℕ × List ℕ). length q.0 ≤ max_length_prefixed_bytes)
            (ok-injective (rw (within, granted, there) at e)) (ground (arith, length-take l rdr))
    ]
  ]
]

module _ (bo : ByteOrder) (can_reserve : ℕ → Bool) where
  -- A collection that is read has at most 65536 items, whatever length stands before it.
  pub length-read_vec :
      {A : Type 0} (read : Reader A) (rdr : List ℕ) (items : List A) (rest : List ℕ)
      → read_vec bo can_reserve read rdr ≡ ok (items, rest)
      → length items ≤ max_collection_items
  unfolding read_vec
  length-read_vec read rdr items rest e =
      let (len, e1, f1) = >>=-eq-ok (read_u32 bo rdr) _ e in
      elim (Bool-cases (ltb max_collection_items len.0)) [
        | inl over ↦ cc (rw over at f1)
        | inr within ↦ elim (Bool-cases (can_reserve len.0)) [
          | inr refused ↦ cc (rw (within, refused) at f1)
          | inl granted ↦
              let count =
                length-read_items read len.0 len.1 (items, rest) (rw (within, granted) at f1) in
              ground arith
        ]
      ]

  -- A buffer that is read has at most 1 MiB, whatever length stands before it.
  pub length-buf_u32 :
      (rdr bytes rest : List ℕ)
      → buf_u32 bo can_reserve rdr ≡ ok (bytes, rest)
      → length bytes ≤ max_length_prefixed_bytes
  unfolding buf_u32
  length-buf_u32 rdr bytes rest e =
      let (len, e1, f1) = >>=-eq-ok (read_u32 bo rdr) _ e in
      read_n_bytes-le can_reserve len.0 len.1 (bytes, rest) f1
