-- ===== src/Server/Numbers.antt =====
-- The packets that `handle_data` sends for an answer, with their fragment ids and sequence numbers.
use scbl.Prelude.{
  ℕ, suc, ◌+◌, ◌-◌, ◌%◌, ◌≤◌, ◌<◌, ◌≡◌, List, [], ◌∷◌, ◌++◌, append-nil, append_assoc, map, length,
  some, ok, refl, sym, subst, ap, ap₂, ◌∙◌, >>=-eq-ok, ok-injective, arith,
}
use scbl.Client.{SocketAddr, ClientInfo}
use scbl.Packet.{QPacket}
use scbl.Packet.Encode.{to_bytes}
use scbl.Server.{
  Server, Setup, emit, sent, prepare, chunks, data_response, complete_response, send_packet,
  send_response, send_chunks,
}
use scbl.Server.Steps.{answer}
use scbl.Server.Delivery.{chunk_with_id, first_chunk, later_chunk}

-- The client behind one more answer packet.
abbrev counted : ClientInfo → ClientInfo
counted ci = record ci { server_sequence_id = (ci.server_sequence_id + 1) % 65536 }

-- A packet that `cache_fragment`, or for the id 0 `finish_fragmented_payload`, takes for the part `id`
-- of a message with the final sequence number `s`.
pub record IsPart (chunk : ℕ → List ℕ) (s id : ℕ) (p : QPacket) : Type 0 where
  pub numbered : p.fragment_id ≡ some id
  pub carried : p.payload ≡ chunk id
  pub ordered : p.sequence ≡ (s + 65536 - id) % 65536

-- The packets are the parts down to the id 0, each once.
abbrev pub AreParts : (ℕ → List ℕ) → ℕ → List QPacket → Type 0
AreParts chunk s [] = Unit {0}
AreParts chunk s (p ∷ ps) = IsPart chunk s (length ps) p × AreParts chunk s ps

-- The server has sent the packets of a message, one datagram each, in this order.
pub record Sends (setup : Setup) (s s' : Server) (src : SocketAddr) (chunk : ℕ → List ℕ)
    (final count : ℕ) : Type 0 where
  pub packets : List QPacket
  pub parts : AreParts chunk final packets
  pub all : length packets ≡ count
  pub datagrams : List (List ℕ)
  pub encoded :
      map (λ p. to_bytes setup.bo setup.z setup.ctx p) packets ≡ map (λ bytes. ok bytes) datagrams
  pub output : s'.output ≡ s.output ++ map (sent src) datagrams

-- One answer packet: what is sent, and the client that counts it.
send_response-sent :
    (setup : Setup) (s : Server) (src : SocketAddr) (resp : QPacket) (ci : ClientInfo)
    (r : Server × ClientInfo)
    → send_response setup s src resp ci ≡ ok r
    → (bytes : List ℕ) × (to_bytes setup.bo setup.z setup.ctx (prepare (complete_response resp ci))
        ≡ ok bytes)
      × (r ≡ (emit s (sent src bytes), counted ci))
unfolding send_response send_packet
send_response-sent setup s src resp ci r e =
    let (s', e1, f1) = >>=-eq-ok (send_packet setup s src (complete_response resp ci)) _ e in
    let (bytes, e2, f2) =
      >>=-eq-ok (to_bytes setup.bo setup.z setup.ctx (prepare (complete_response resp ci))) _ e1 in
    (bytes, e2, sym (ok-injective f1) ∙ ap (λ t. (t, counted ci)) (sym (ok-injective f2)))

sent-IsPart :
    (packet : QPacket) (ci : ClientInfo) (part : List ℕ) (rest : List (List ℕ)) (chunk : ℕ → List ℕ)
    (final : ℕ)
    → length (part ∷ rest) ≤ 256
    → final < 65536
    → ci.server_sequence_id ≡ (final + 65536 + 1 - length (part ∷ rest)) % 65536
    → ((k : ℕ) → k < length (part ∷ rest) → chunk k ≡ chunk_with_id (part ∷ rest) k)
    → IsPart chunk final
        (length rest)
        (prepare (complete_response (data_response packet (length rest) part) ci))
unfolding prepare complete_response data_response
sent-IsPart packet ci part rest chunk final many h e same = record {
  numbered = ap some (omega (arith, many));
  carried = sym (same (length rest) (omega arith) ∙ first_chunk part rest (length rest) refl);
  ordered = omega (arith, e);
}

send_chunks-Sends :
    (setup : Setup) (s : Server) (src : SocketAddr) (packet : QPacket) (ci : ClientInfo)
    (parts : List (List ℕ)) (chunk : ℕ → List ℕ) (final : ℕ) (r : Server × ClientInfo)
    → length parts ≤ 256
    → final < 65536
    → ci.server_sequence_id ≡ (final + 65536 + 1 - length parts) % 65536
    → ((k : ℕ) → k < length parts → chunk k ≡ chunk_with_id parts k)
    → send_chunks setup s src packet ci parts ≡ ok r
    → Sends setup s r.0 src chunk final (length parts)
      × (r.1.server_sequence_id ≡ (final + 1) % 65536)
unfolding send_chunks
send_chunks-Sends setup s src packet ci [] chunk final r many h e same sends = (
  record {
    packets = [];
    parts = tt;
    all = refl;
    datagrams = [];
    encoded = refl;
    output =
        ap (λ (q : Server × ClientInfo). q.0.output) (sym (ok-injective sends))
        ∙ sym (append-nil s.output);
  },
  ap (λ (q : Server × ClientInfo). q.1.server_sequence_id) (sym (ok-injective sends))
      ∙ (omega (arith, e)),
)
send_chunks-Sends setup s src packet ci (part ∷ rest) chunk final r many h e same sends =
    let response = data_response packet (length rest) part in
    let (one, e1, f1) = >>=-eq-ok (send_response setup s src response ci) _ sends in
    let (bytes, e2, first) = send_response-sent setup s src response ci one e1 in
    let (later, last) =
      send_chunks-Sends setup (emit s (sent src bytes)) src packet (counted ci) rest chunk final r
        (omega (arith, many)) h (omega (arith, e, many))
        (λ k i. same k (omega (arith, i)) ∙ later_chunk part rest k i)
        (ap (λ (q : Server × ClientInfo). send_chunks setup q.0 src packet q.1 rest) (sym first)
          ∙ f1) in
    (
      record {
        packets = prepare (complete_response response ci) ∷ later.packets;
        parts = (
          subst (λ n. IsPart chunk final n (prepare (complete_response response ci)))
              (sym later.all) (sent-IsPart packet ci part rest chunk final many h e same),
          later.parts,
        );
        all = ap (λ n. suc n) later.all;
        datagrams = bytes ∷ later.datagrams;
        encoded = ap₂ (λ b bs. b ∷ bs) e2 later.encoded;
        output =
            later.output
            ∙ append_assoc s.output (sent src bytes ∷ []) (map (sent src) later.datagrams);
      },
      last,
    )

-- An answer of at most 256 chunks that is sent is sent as the parts of one message, one datagram for
-- each chunk and in this order: each packet carries the chunk of its fragment id, from the number of
-- chunks less one down to 0, and the sequence numbers count up from that of the client to the last one;
-- the client's is then the next one.
pub answer-Sends :
    (setup : Setup) (s : Server) (client : SocketAddr) (packet : QPacket) (ci : ClientInfo)
    (payload : List ℕ) (r : Server × ClientInfo)
    → let parts = chunks (length payload) payload in
      let final = (ci.server_sequence_id + 65535 + length parts) % 65536 in
      length parts ≤ 256
      → ci.server_sequence_id < 65536
      → answer setup s packet client ci (ok payload) ≡ ok r
      → Sends setup s r.0 client (chunk_with_id parts) final (length parts)
        × (r.1.server_sequence_id ≡ (final + 1) % 65536)
unfolding answer
answer-Sends setup s client packet ci payload r many h sends =
    let parts = chunks (length payload) payload in
    send_chunks-Sends setup s client packet ci parts (chunk_with_id parts) _ r many (omega arith)
      (omega (arith, many, h)) (λ k i. refl) sends
