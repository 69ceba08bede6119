-- ===== src/Packet/Reads.antt =====
-- What each read of `from_reader` returns: a field in range, and the bytes that are left.
use scbl.Prelude.{
  ℕ, ◌+◌, ◌/◌, ◌^◌, ◌<◌, ◌≤◌, ◌≡◌, subst, ap, true, false, bit_and, List, length, is_empty, drop,
  length-drop, leb, leb→le, Option, none, some, Outcome, ok, err, panic, ok_or, map_err, >>=-eq-ok,
  ok_or-eq-ok, ok-injective, IsBytes, Bool-cases, inl, inr, arith,
}
use scbl.Prelude.Bits.{bit_and-15}
use scbl.ByteOrder.{ByteOrder}
use scbl.ByteOrder.Laws.{IsRead, from_reads-IsRead, IsBytes-drop}
use scbl.Packet.{
  io, VPort, stream_type_try_from, invalid_stream_type, PacketType, flags_from_bits, contains,
  has_size, has_conn_signature, is_data,
}
use scbl.Packet.Decode.{
  vport_from_reader, read_conn_signature, read_fragment_id, read_payload_size, read_exact,
}
use scbl.Packet.Fields.{Fits}

pub map_err-eq-ok :
    {A E F : Type 0} (f : E → F) (o : Outcome E A) (a : A) → map_err f o ≡ ok a → o ≡ ok a
map_err-eq-ok f (ok b) a h = ap ok (ok-injective h)
map_err-eq-ok f (err e) a h = cc
map_err-eq-ok f panic a h = cc

-- The bytes that are left of `bs`, after `n` of them at least.
pub record IsLeft (n : ℕ) (bs rest : List ℕ) : Type 0 where
  pub bytes : IsBytes rest
  pub taken : length rest + n ≤ length bs

IsRead-IsLeft : (n v : ℕ) (bs rest : List ℕ) → IsRead n v bs rest → IsLeft n bs rest
IsRead-IsLeft n v bs rest r = record { bytes = r.bytes; taken = omega arith }

pub flags-lt : (bits flags : ℕ) → bits < 256 → flags_from_bits bits ≡ ok flags → flags < 16
unfolding flags_from_bits
flags-lt bits flags h e = ground (arith, bit_and-15 bits)

pub read_exact-IsLeft :
    (n : ℕ) (bs xs rest : List ℕ) → IsBytes bs → read_exact n bs ≡ ok (xs, rest) → IsLeft n bs rest
unfolding read_exact
read_exact-IsLeft n bs xs rest h e = elim (Bool-cases (leb n (length bs))) [
  | inl fits ↦
      let same : drop n bs ≡ rest = cc (rw fits at e) in
      subst (IsLeft n bs) same (record {
        bytes = IsBytes-drop n bs h;
        taken = omega (arith, length-drop n bs, leb→le n (length bs) fits);
      })
  | inr short ↦ cc (rw short at e)
]

module _ (bo : ByteOrder) (bs : List ℕ) (h : IsBytes bs) where
  untouched : IsLeft 0 bs bs
  untouched = record { bytes = h; taken = omega arith }

  weaken : {n : ℕ} {rest : List ℕ} → IsLeft n bs rest → IsLeft 0 bs rest
  weaken l = record { bytes = l.bytes; taken = omega arith }

  pub read_u8-ok :
      (v : ℕ) (rest : List ℕ) → ok_or (bo.read_u8 bs) io ≡ ok (v, rest) → IsRead 1 v bs rest
  read_u8-ok v rest e =
      from_reads-IsRead 1 bo.read_u8 bo.read_u8-Reads bs h v rest
        (ok_or-eq-ok (bo.read_u8 bs) io _ e)

  pub read_u16-ok :
      (v : ℕ) (rest : List ℕ) → ok_or (bo.read_u16 bs) io ≡ ok (v, rest) → IsRead 2 v bs rest
  read_u16-ok v rest e =
      from_reads-IsRead 2 bo.read_u16 bo.read_u16-Reads bs h v rest
        (ok_or-eq-ok (bo.read_u16 bs) io _ e)

  pub read_u32-ok :
      (v : ℕ) (rest : List ℕ) → ok_or (bo.read_u32 bs) io ≡ ok (v, rest) → IsRead 4 v bs rest
  read_u32-ok v rest e =
      from_reads-IsRead 4 bo.read_u32 bo.read_u32-Reads bs h v rest
        (ok_or-eq-ok (bo.read_u32 bs) io _ e)

  pub vport-ok :
      (v : VPort) (rest : List ℕ)
      → vport_from_reader bo bs ≡ ok (v, rest)
      → (v.port < 16) × IsLeft 1 bs rest
  unfolding vport_from_reader
  vport-ok v rest e =
      let (a, read, e1) = >>=-eq-ok (ok_or (bo.read_u8 bs) io) _ e in
      let (st, _, e2) =
        >>=-eq-ok (ok_or (stream_type_try_from (a.0 / 16)) (invalid_stream_type (a.0 / 16))) _ e1 in
      let r = read_u8-ok a.0 a.1 read in
      let port : bit_and a.0 15 ≡ v.port = ap (λ q. q.0.port) (ok-injective e2) in
      let left : a.1 ≡ rest = ap (λ q. q.1) (ok-injective e2) in
      (
        omega (arith, bit_and-15 a.0 r.bound),
        subst (IsLeft 1 bs) left (IsRead-IsLeft 1 a.0 bs a.1 r),
      )

  pub conn_signature-ok :
      (t : PacketType) (conn : Option ℕ) (rest : List ℕ)
      → read_conn_signature bo t bs ≡ ok (conn, rest)
      → Fits (has_conn_signature t) (2 ^ 32) conn × IsLeft 0 bs rest
  unfolding read_conn_signature
  conn_signature-ok t conn rest e = elim (Bool-cases (has_conn_signature t)) [
    | inl there ↦
        let (a, read, e1) = >>=-eq-ok (ok_or (bo.read_u32 bs) io) _ (rw there at e) in
        let r = read_u32-ok a.0 a.1 read in
        let value : some a.0 ≡ conn = ap (λ q. q.0) (ok-injective e1) in
        let left : a.1 ≡ rest = ap (λ q. q.1) (ok-injective e1) in
        (
          rw there (subst (Fits true (2 ^ 32)) value r.bound),
          subst (IsLeft 0 bs) left (weaken (IsRead-IsLeft 4 a.0 bs a.1 r)),
        )
    | inr missing ↦
        let e1 = rw missing at e in
        let value : none ≡ conn = ap (λ q. q.0) (ok-injective e1) in
        let left : bs ≡ rest = ap (λ q. q.1) (ok-injective e1) in
        (rw missing (subst (Fits false (2 ^ 32)) value tt), subst (IsLeft 0 bs) left untouched)
  ]

  pub fragment_id-ok :
      (t : PacketType) (fragment : Option ℕ) (rest : List ℕ)
      → read_fragment_id bo t bs ≡ ok (fragment, rest)
      → Fits (is_data t) 256 fragment × IsLeft 0 bs rest
  unfolding read_fragment_id
  fragment_id-ok t fragment rest e = elim (Bool-cases (is_data t)) [
    | inl there ↦
        let (a, read, e1) = >>=-eq-ok (ok_or (bo.read_u8 bs) io) _ (rw there at e) in
        let r = read_u8-ok a.0 a.1 read in
        let value : some a.0 ≡ fragment = ap (λ q. q.0) (ok-injective e1) in
        let left : a.1 ≡ rest = ap (λ q. q.1) (ok-injective e1) in
        (
          rw there (subst (Fits true 256) value r.bound),
          subst (IsLeft 0 bs) left (weaken (IsRead-IsLeft 1 a.0 bs a.1 r)),
        )
    | inr missing ↦
        let e1 = rw missing at e in
        let value : none ≡ fragment = ap (λ q. q.0) (ok-injective e1) in
        let left : bs ≡ rest = ap (λ q. q.1) (ok-injective e1) in
        (rw missing (subst (Fits false 256) value tt), subst (IsLeft 0 bs) left untouched)
  ]

  pub payload_size-ok :
      (flags size : ℕ) (rest : List ℕ)
      → read_payload_size bo flags bs ≡ ok (size, rest)
      → IsLeft 0 bs rest
  unfolding read_payload_size
  payload_size-ok flags size rest e = elim (Bool-cases (contains flags has_size)) [
    | inl sized ↦ weaken (IsRead-IsLeft 2 size bs rest (read_u16-ok size rest (rw sized at e)))
    | inr open_end ↦ elim (Bool-cases (is_empty bs)) [
      | inl ended ↦ cc (rw (open_end, ended) at e)
      | inr more ↦
          let left : bs ≡ rest = ap (λ q. q.1) (ok-injective (rw (open_end, more) at e)) in
          subst (IsLeft 0 bs) left untouched
    ]
  ]
