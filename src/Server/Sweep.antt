-- ===== src/Server/Sweep.antt =====
-- Which clients a sweep leaves.
use scbl.Prelude.{
  ℕ, ◌-◌, ◌≤◌, ◌≡◌, ◌==◌, le→ltb, false, ◌&&◌, List, [], ◌∷◌, ◌++◌, ap, some, Bool-cases, inl, inr,
  if◌then◌else◌, arith,
}
use scbl.Prelude.Maps.{lookup}
use scbl.Client.{ClientInfo}
use scbl.Server.{Server, Setup, Env, Output, expired, session_timeout}
use scbl.Server.Steps.{is_stale, forget_connection, sweep, clear_clients}
use scbl.Server.Clients.{Each}

-- Seen within the last minute.
abbrev pub IsFresh : ℕ → ClientInfo → Type 0
IsFresh now ci = now - ci.last_seen ≤ session_timeout

not_stale : (now : ℕ) (ci : ClientInfo) → is_stale now ci ≡ false → IsFresh now ci
unfolding is_stale
not_stale now ci e = ground arith

fresh_kept : (now : ℕ) (ci : ClientInfo) → IsFresh now ci → is_stale now ci ≡ false
unfolding is_stale
fresh_kept now ci h = le→ltb _ _ h

module _ (setup : Setup) where
  sweep-IsFresh :
      (now : ℕ) (clients : List (ℕ × ClientInfo)) (ids : List (ℕ × ℕ)) (out : List Output)
      → Each (IsFresh now) (sweep setup now clients ids out).0
  unfolding sweep
  sweep-IsFresh now [] ids out = tt
  sweep-IsFresh now ((k, ci) ∷ clients) ids out = elim (Bool-cases (is_stale now ci)) [
    | inl stale ↦ rw stale (sweep-IsFresh now clients _ _)
    | inr fresh ↦ rw fresh (not_stale now ci fresh, sweep-IsFresh now clients _ _)
  ]

  sweep-lookup :
      (now k : ℕ) (ci : ClientInfo) (clients : List (ℕ × ClientInfo)) (ids : List (ℕ × ℕ))
      (out : List Output)
      → lookup k clients ≡ some ci
      → IsFresh now ci
      → lookup k (sweep setup now clients ids out).0 ≡ some ci
  unfolding sweep lookup
  sweep-lookup now k ci [] ids out e h = cc
  sweep-lookup now k ci ((j, other) ∷ clients) ids out e h = elim (Bool-cases (j == k)) [
    | inl hit ↦
        let same : other ≡ ci = cc (rw hit at e) in
        let fresh : is_stale now other ≡ false = rw same (fresh_kept now ci h) in
        rw (fresh, hit) (ap some same)
    | inr miss ↦
        let ih =
          sweep-lookup now k ci clients
            (if is_stale now other && setup.expired_client_handler
              then forget_connection other.connection_id ids
              else ids)
            (if is_stale now other && setup.expired_client_handler
              then out ++ (expired other ∷ [])
              else out)
            (rw miss at e) h in
        elim (Bool-cases (is_stale now other)) [
          | inl stale ↦ rw stale (rw stale at ih)
          | inr fresh ↦ rw (fresh, miss) (rw fresh at ih)
        ]
  ]

  -- After a sweep every client was seen within the last minute, and each client that was is still
  -- registered under its signature.
  pub clear_clients-IsFresh :
      (env : Env) (s : Server)
      → Each (IsFresh env.now) (clear_clients setup env s).client_registry.clients
        × ((k : ℕ) (ci : ClientInfo)
            → lookup k s.client_registry.clients ≡ some ci
            → IsFresh env.now ci
            → lookup k (clear_clients setup env s).client_registry.clients ≡ some ci)
  unfolding clear_clients
  clear_clients-IsFresh env s = (
    sweep-IsFresh env.now s.client_registry.clients _ _,
    λ k ci e h. sweep-lookup env.now k ci s.client_registry.clients _ _ e h,
  )
