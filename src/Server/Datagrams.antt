-- ===== src/Server/Datagrams.antt =====
-- The loop over the packets of a datagram ends: every packet takes bytes.
use scbl.Prelude.{
  ℕ, zero, suc, ◌-◌, ◌≤◌, ◌≡◌, refl, ap, fun_ext, List, [], ◌∷◌, length, take, drop, length-drop,
  Outcome, ok, err, panic, ◌>>=◌, >>=-eq-ok, ok-injective, IsBytes, arith,
}
use scbl.ByteOrder.Laws.{IsBytes-drop}
use scbl.Client.{SocketAddr}
use scbl.Packet.{Error, QPacket}
use scbl.Packet.Decode.{from_reader, from_bytes, validate}
use scbl.Packet.Received.{from_reader-IsReceived}
use scbl.Server.{Server, Setup, Env}
use scbl.Server.Steps.{handle_valid, handle_parsed, handle_datagram}

module _ (setup : Setup) where
  -- A packet takes eleven bytes at least, and none that are not there.
  from_bytes-taken :
      (bytes : List ℕ) (p : QPacket) (n : ℕ)
      → IsBytes bytes
      → from_bytes setup.bo setup.z setup.ctx bytes ≡ ok (p, n)
      → (11 ≤ n) × (n ≤ length bytes)
  unfolding from_bytes
  from_bytes-taken bytes p n h e =
      let (r, e1, f1) = >>=-eq-ok (from_reader setup.bo setup.z setup.ctx bytes) _ e in
      let got = from_reader-IsReceived setup.bo setup.z setup.ctx bytes r.0 r.1 h e1 in
      let count : length bytes - length r.1 ≡ n = ap (λ (q : QPacket × ℕ). q.1) (ok-injective f1) in
      omega (arith, count, got.left.taken)

  -- Rounds that agree on what is left agree.
  parsed-agree :
      (next next' : Server → List ℕ → Outcome Error Server) (env : Env) (s : Server)
      (bytes : List ℕ) (client : SocketAddr) (r : Outcome Error (QPacket × ℕ))
      → ((p : QPacket) (n : ℕ) (s' : Server)
          → r ≡ ok (p, n)
          → next s' (drop n bytes) ≡ next' s' (drop n bytes))
      → handle_parsed setup next env s bytes client r
        ≡ handle_parsed setup next' env s bytes client r
  unfolding handle_parsed
  parsed-agree next next' env s bytes client panic h = refl
  parsed-agree next next' env s bytes client (err e) h = refl
  parsed-agree next next' env s bytes client (ok (p, n)) h =
      ap
        (λ (f : Server → Outcome Error Server).
          handle_valid setup env s p client (validate setup.bo setup.z setup.ctx p (take n bytes))
          >>= f)
        (fun_ext (λ s'. h p n s' refl))

  -- As many rounds as the datagram has bytes are enough: more rounds change nothing.
  pub handle_datagram-enough :
      (env : ℕ → Env) (fuel more : ℕ) (client : SocketAddr) (s : Server) (bytes : List ℕ)
      → IsBytes bytes
      → length bytes ≤ fuel
      → length bytes ≤ more
      → handle_datagram setup env fuel client s bytes
        ≡ handle_datagram setup env more client s bytes
  unfolding handle_datagram
  handle_datagram-enough env zero zero client s [] h a b = refl
  handle_datagram-enough env zero (suc more) client s [] h a b = refl
  handle_datagram-enough env (suc fuel) zero client s [] h a b = refl
  handle_datagram-enough env (suc fuel) (suc more) client s [] h a b = refl
  handle_datagram-enough env zero more client s (x ∷ bytes) h a b = absurd (omega arith)
  handle_datagram-enough env (suc fuel) zero client s (x ∷ bytes) h a b = absurd (omega arith)
  handle_datagram-enough env (suc fuel) (suc more) client s (x ∷ bytes) h a b =
      parsed-agree (handle_datagram setup env fuel client) (handle_datagram setup env more client) _
        s (x ∷ bytes) client _
        (λ p n s' e.
          let taken = from_bytes-taken (x ∷ bytes) p n h e in
          handle_datagram-enough env fuel more client s' (drop n (x ∷ bytes))
            (IsBytes-drop n (x ∷ bytes) h) (omega (arith, a, taken, length-drop n (x ∷ bytes)))
            (omega (arith, b, taken, length-drop n (x ∷ bytes))))
