-- ===== src/Rmc/Handler.antt =====
-- server/quazal/src/rmc.rs: `RVSecHandler`, which decodes a request, calls the protocol that is
-- registered for it and encodes its answer. A `Protocol` is a trait object; it may change its own
-- client and others and send datagrams, which stands beside its result.
use scbl.Prelude.{ℕ, List, Option, none, some, Outcome, ok, err, panic, ◌>>=◌}
use scbl.Prelude.Maps.{lookup, insert}
use scbl.ByteOrder.{ByteOrder}
use scbl.Client.{World}
use scbl.Packet.{Error as PacketError, stream_handler, unimplemented}
use scbl.Packet.Context.{Context}
use scbl.Rmc.{
  Error, unknown_protocol, to_error_code, Request, CallResult, returned, failed, Packet, request,
  response, response_to_bytes,
}
use scbl.Rmc.Decode.{packet_from_bytes}

pub record Protocol : Type 0 where
  pub id : ℕ
  pub handle : Context → World → Request → World × Outcome Error (List ℕ)

abbrev pub Registry : Type 0
Registry = List (ℕ × Protocol)

unfoldable pub register_protocol : Registry → Protocol → Registry
register_protocol registry protocol = insert protocol.id protocol registry

unfoldable pub call_protocol :
    Option Protocol → Context → World → Request → World × Outcome Error (List ℕ)
call_protocol none ctx world r = (world, err unknown_protocol)
call_protocol (some protocol) ctx world r = protocol.handle ctx world r

unfoldable pub to_result : Request → Outcome Error (List ℕ) → Outcome PacketError CallResult
to_result r (ok content) =
    ok (returned (record { call_id = r.call_id; method_id = r.method_id; content = content }))
to_result r (err e) = ok (failed (record { error_code = to_error_code e; call_id = r.call_id }))
to_result r panic = panic

-- `handle` from the decoded packet on.
unfoldable pub handle_decoded :
    Registry → Context → World → Outcome Error Packet → World × Outcome PacketError (List ℕ)
unfolding call_protocol to_result
handle_decoded registry ctx world panic = (world, panic)
handle_decoded registry ctx world (err e) = (world, err stream_handler)
handle_decoded registry ctx world (ok (response r)) = (world, err unimplemented)
handle_decoded registry ctx world (ok (request r)) =
    let (world', answer) = call_protocol (lookup r.protocol_id registry) ctx world r in
    (
      world',
      to_result r answer >>= λ result.
          ok (response_to_bytes (record { protocol_id = r.protocol_id; result = result })),
    )

unfoldable pub handle :
    ByteOrder → Registry → Context → World → List ℕ → World × Outcome PacketError (List ℕ)
handle bo registry ctx world bytes = handle_decoded registry ctx world (packet_from_bytes bo bytes)
