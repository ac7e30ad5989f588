-- ===== src/Lib.antt =====
-- fabric-chaincode-rs: the Fabric chaincode shim in Rust, its contract macro and its reference
-- contract.
--
-- A peer connects to the chaincode's server. The connection's loop registers the chaincode, takes
-- part in the handshake, and then starts a task for each transaction. The task gives the user's code
-- a stub, whose ledger calls are requests on the link that the loop and all tasks share: a request
-- enters the map of those in flight, and the loop routes the peer's reply to it. The task ends by
-- sending the handler's response.
--
-- The parts, their files and the code they model:
--   Error, Response         fabric-shim/src/error.rs, response.rs
--   Protos                  fabric-shim-protos/src/generated: the message type with its numbers and
--                           names, the messages that the shim reads or sends, and `Codecs`, prost's
--                           encoding, as a parameter
--   CompositeKey            fabric-shim/src/stub.rs, create_composite_key, split_composite_key and the
--                           range of get_state_by_partial_composite_key
--   Handler.Link            fabric-shim/src/handler.rs, PeerLink. A request is cut where it awaits:
--                           `start_request`, then `poll_request`. A oneshot channel is a slot with a
--                           number
--   Handler.Connection      fabric-shim/src/handler.rs, run_connection. `receive` is one round of the
--                           loop; `run` is a sequence of actions, which interleaves rounds with what
--                           the tasks do to the link
--   Session                 fabric-shim/src/stub.rs, StubCore: one transaction's conversation with the
--                           peer. An action takes a session and gives a result, or is `hung`, with
--                           the session after it. `Session.Ledger` is what a peer promises that keeps
--                           a world state; `Session.Refinement` compares actions with specifications.
--                           `Session.Gate` is the gate of StubCore, with calls that a transaction
--                           makes at the same time, as events that interleave with the connection's.
--                           `Session.Connected`, and the module Connected of each part that makes
--                           requests, relate a session to the actions of its connection
--   Iterators               fabric-shim/src/iterators.rs
--   Stub, Stub.Calls        fabric-shim/src/stub.rs, ChaincodeStub: construction and getters, and the
--                           calls to the peer
--   Transaction             fabric-shim/src/handler.rs, spawn_transaction; lib.rs, Chaincode
--   Metadata                fabric-shim/src/metadata.rs
--   Contract                fabric-shim-macros/src/lib.rs. `Contract.Syntax` is what the macros see of
--                           their input, `Contract.Parsing` the reading of the impl block,
--                           `Contract.Expansion` what #[contract] makes of it; `Contract` itself the
--                           generated `invoke`, `Contract.Describe` the generated `metadata`;
--                           `Contract.Deriving` what derive(DataType) reads of a struct, and
--                           `Contract.DataType` the schema that it generates
--   Contract.Conversions    fabric-shim/src/contract.rs, with `Contract.Trim` and `Contract.Numbers`,
--                           what the code uses of Rust's `trim` and of the integers' parsing and
--                           printing, and `Contract.Schemas`, the schemas of the library's types
--   Contract.Serving        a contract's answer to a transaction, from the method's specification on
--   Server                  fabric-shim/src/server.rs, the configuration; `Server.Listening` the start,
--                           from the environment on, as in the example's main
--   AssetTransfer           examples/asset-transfer/src/main.rs, with a specification of each
--                           transaction in `AssetTransfer.Specs`; `AssetTransfer.Contract` is the
--                           contract of these transactions, `AssetTransfer.Listing` the query of all
--                           assets
--   GatewayBench            scripts/gateway-bench/src/main.rs, the count of the concurrent calls, and
--                           in `GatewayBench.Calls` the ids of the assets that its calls create
--   Prelude, Utf8           shared names and lemmas; what the code uses of Rust's String
--   Examples                a concrete wire format and peer, and the theorems at concrete inputs
--
-- Parameters: prost's codecs, serde_json, syn's parsing, heck's case conversions, the environment and
-- address resolution, the clock, tokio's bind and tonic's server, the peer, Debug of str and Display of
-- usize, the outcome of the benchmark's calls, and the user's chaincode. What a theorem needs of them
-- is a hypothesis.
--
-- Numbers: texts are lists of Unicode scalar values, byte strings are lists of numbers; the i32 fields
-- of messages are integers, which the shim passes on without arithmetic. The benchmark's counts wrap
-- around at 2^64, as usize does in a release build of a 64-bit target.
--
-- Awaits: the queue to the peer, a channel of 64 messages in server.rs, has no bound in the model, and
-- sending never waits. So a request is entered and sent in one step, and a call that is dropped while
-- it waits for room in the queue, or for the gate, is left out.
--
-- Fuel: the iterators' loops take fuel, since a peer may announce batches without end. One for each
-- record and each batch, and one more, is enough. The printer of decimal numbers takes a round for
-- each digit; one more than the number itself is enough.
--
-- Not modelled: the server's sockets and signals, the service that starts a connection for each peer
-- (`Handler.Connection` models one connection), tracing, the generated gRPC client and server,
-- floating-point numbers with the benchmark's statistics, serde's JSON.
pub mod Prelude
pub mod Utf8
pub mod Error
pub mod Protos
pub mod Response
pub mod CompositeKey
pub mod Handler
pub mod Session
pub mod Metadata
pub mod Iterators
pub mod Stub
pub mod Transaction
pub mod Contract
pub mod Server
pub mod AssetTransfer
pub mod Examples
pub mod GatewayBench
