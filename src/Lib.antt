-- ===== src/Lib.antt =====
-- SCBL's server speaks Quazal's protocols with the game: PRUDP packets over UDP, and remote method
-- calls (RMC) in their payloads. This library models that code, server/quazal in the repository,
-- the services of server/dedicated-server that log users in and keep game sessions, and the byte
-- patterns of client/hooks, and proves what they do.
--
-- A datagram is read by `QPacket::from_bytes` and checked by `validate`; the server looks up the
-- client's `ClientInfo`, gathers the fragments of a message there, and passes the payload to the
-- stream handler of its port, for RVSec streams the `RVSecHandler`, which decodes a request, calls
-- the protocol that is registered for it, and encodes the response. The login service issues a
-- Kerberos ticket that `handle_connect` of the secure server opens; the game sessions are protocols
-- over a database.
--
-- The files:
-- - Prelude: tests, lists, Rust's results with panics (`Outcome`), association lists for
--   `HashMap`, bits of bytes and words, distinct numbers.
-- - ByteOrder: little-endian numbers, and the crate byteorder as an interface of reads.
-- - Rc4 (server/quazal/src/prudp/packet.rs, `Rc4` and `crypt_key`): Permutation for the state,
--   Keystream for the cipher.
-- - Packet (server/quazal/src/prudp/packet.rs; `Context::key` of server/quazal/src/config.rs):
--   Context, Checksum, Encode for `to_bytes`, Decode for `from_reader`, `validate` and `parse`;
--   Fields, Payload, RoundTrip and Parse for the round trip, Reads and Received for what the reader
--   returns, Total for panics.
-- - Client (server/quazal/src/lib.rs, `ClientInfo`; server/quazal/src/prudp.rs, `ClientRegistry`),
--   with what a handler can change.
-- - Fragment (server/quazal/src/prudp.rs, `cache_fragment` to `finish_fragmented_payload`):
--   Invariant, Collect, Arrivals, Assembly and Frame.
-- - Rmc (server/quazal/src/rmc.rs): the messages, Decode, Handler for `RVSecHandler`; Fields,
--   RoundTrip, Received, Answers and Ids.
-- - Stream (server/quazal/src/rmc/basic.rs): readers and writers, with Laws for the round trips,
--   Limits for what is read, and Collections for pairs and maps.
-- - Text: the standard library's decimals, `split_once`, `split` and `join`, with Laws.
-- - ErrorCode (server/quazal/src/rmc/result.rs): `Error` and its codes, a module for each of the
--   eighteen enums, Primitive for what num_enum derives, Arms, RoundTrip and Range.
-- - Types (server/quazal/src/rmc/types.rs): results, variants, property lists and dates, with
--   RoundTrip and Date; Property for the text of attributes; Url and UrlLaws for `StationURL`.
-- - Pattern (client/hooks/hooks-addresses/src/patterns.rs), with Search and Text.
-- - Kerberos (server/quazal/src/kerberos.rs): the internal ticket, with Laws, and Outer for
--   `KerberosTicket`.
-- - Server (server/quazal/src/prudp.rs, `Server`): the state and what is sent, Connect for
--   `handle_syn` and `handle_connect`, Steps for `handle_data`, `handle_packet`, `clear_clients`
--   and the loop over a datagram; Clients, Sessions and Packets for the invariant of the clients,
--   Datagrams, Chunks and Sweep; Reach for the loop of `serve`, Login for SYN and CONNECT, Numbers
--   and Delivery for the parts of an answer; Requests for `send_request` and the look-up of a
--   client.
-- - GameSession (server/dedicated-server/src/game_session.rs and game_session_ex.rs): the handlers
--   over a storage, Search and Participants for the two searches, Asked and Found.
-- - Ticket (server/dedicated-server/src/ticket.rs): `login`, `login_ex` and `request_ticket`, with
--   Issued and Accepted.
-- - Storage (server/dedicated-server/src/storage/mod.rs and storage/migrations): the database. Rows
--   for the clauses of SQL, Attributes for the text of attributes, Games, Lobby, Parties, Users,
--   Invites, Delivery and Accepted for the calls, Searches for the two searches, and Sqlite, which
--   fills the interfaces of GameSession and Ticket. Hosted, Reconcile, Grows, Kept, Calls, Ends,
--   Changes and Handlers are about the hosts of the sessions, Invited, Offers, Joined and Taken
--   about invitations, Classes about the text of attributes, and Effects about single calls.
--
-- Conventions: a byte is a number below 256, and a list of bytes one of such numbers; a word keeps
-- its wrap-around as `% 2 ^ w`. `usize` has 64 bits. A cursor is the list of the bytes that it has
-- not passed. A call that can panic or fail ends in an `Outcome`. The clock, random numbers and the
-- grant of an allocation are arguments. Logging is left out. Recursion on fuel stands in
-- `sum_words` of the checksum, which is given one unit for each word of the input, in `chunks`,
-- which is given one for each byte, and in `handle_datagram`, for which the length of the datagram
-- is proved to be enough; in `digits` it is 20, the most digits of a 64-bit number. A stream
-- handler and a protocol may change their own client and the clients of the registry, and send.
--
-- Crates that the server uses are parameters: byteorder reads little-endian numbers and fails at
-- the end of the input; miniz_oxide undoes its own compression within the limit it is given, and
-- compresses bytes to at least one byte; sodiumoxide opens what it sealed. Conversions derived by
-- num_enum and enumflags2 follow the discriminants of the enums.
--
-- The handlers are written against an interface of calls over a state, of which nothing is assumed,
-- and which the database fills. Its tables are lists of rows, its statements fail where a key does
-- not hold, and time stands still within a call. The hashes of the crates md5 and hmac are functions
-- of bytes, and argon2 is a function that verifies a password. Every session has a text of
-- attributes, as every call writes one; the session that the first migration inserts has none, so
-- that a database with it is left out.
--
-- Not modelled: `ClassRegistry` and `Any` of server/quazal/src/rmc/types.rs, the listings for
-- administrators and the deletion of users, and of sessions by their id, in the storage, the handler
-- `register_urls` of server/dedicated-server/src/game_session.rs, the connection data of a login,
-- the other services in server/dedicated-server, the rest of the game client's hooks, the launcher
-- and the tools in other languages.
pub mod Prelude
pub mod ByteOrder
pub mod Rc4
pub mod Packet
pub mod Client
pub mod ErrorCode
pub mod Fragment
pub mod Rmc
pub mod Stream
pub mod Text
pub mod Types
pub mod Pattern
pub mod Kerberos
pub mod Server
pub mod GameSession
pub mod Ticket
pub mod Storage
