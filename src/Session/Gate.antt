-- ===== src/Session/Gate.antt =====
-- The gate of `StubCore`, fabric-shim/src/stub.rs, lines 26-41: the ledger calls that one transaction
-- makes at the same time, as from several futures that its handler polls together.
--
-- A call waits for the gate, holds it while its request is started and awaits its reply, and leaves it
-- when it returns, or when its future is dropped. Which of the waiting calls gets a free gate is left
-- open. Whatever else happens on the connection is an action of the connection.
pub mod Steps
pub mod Exclusion
pub mod Rounds
pub mod Cancellation
use fabric_chaincode_rs.Prelude.{ℕ, zero, suc, Option, none, some, List, [], ◌∷◌, ◌++◌, Bytes}
use fabric_chaincode_rs.Error.{Error, Result, ok, err}
use fabric_chaincode_rs.Protos.MsgType.{MsgType}
use fabric_chaincode_rs.Protos.Messages.{Timestamp, ChaincodeMessage}
use fabric_chaincode_rs.Handler.Link.{PeerLink, start_request, poll_request}
use fabric_chaincode_rs.Handler.Connection.{Conn, Action, act}
use fabric_chaincode_rs.Session.{StubCore}

-- a call of `StubCore::request`
pub record Call : Type 0 where
  pub msg_type : MsgType
  pub payload : Bytes

-- Where the call that holds the gate is: before its request, or at the oneshot channel's reply.
pub data Holder : Type 0 where
  nobody : Holder
  entered : Call → Holder
  awaiting : Call → ℕ → Holder

-- `returned` is what the calls have given, in the order in which they returned.
pub record Calls : Type 0 where
  pub conn : Conn
  pub holder : Holder
  pub waiting : List Call
  pub returned : List (Call × Result ChaincodeMessage Error)

-- What can happen next: a call is made; a waiting call gets the free gate; the call in the gate starts
-- its request, or is polled, or its future is dropped; something else happens on the connection.
pub data Event : Type 0 where
  make : Call → Event
  grant : ℕ → Event
  start : Timestamp → Event
  poll : Event
  cancel : Event
  outside : Action → Event

-- the call at the place, and the others
take_call : ℕ → List Call → Option (Call × List Call)
take_call i [] = none
take_call zero (c ∷ cs) = some (c, cs)
take_call (suc i) (c ∷ cs) = elim (take_call i cs) [ none ↦ none | some (d, ds) ↦ some (d, c ∷ ds) ]

granted : Option (Call × List Call) → Calls → Calls
granted none s = s
granted (some (c, cs)) s = record s { holder = entered c; waiting = cs }

-- the call returns, and its guard leaves the gate
leave_gate : Call → Result ChaincodeMessage Error → Calls → Calls
leave_gate c r s = record s { holder = nobody; returned = s.returned ++ (c, r) ∷ [] }

with_link : PeerLink → Calls → Calls
with_link l s = record s { conn = record s.conn { link = l } }

pub started : Call → Result ℕ Error × PeerLink → Calls → Calls
unfolding leave_gate with_link
started c (ok slot, l) s = record (with_link l s) { holder = awaiting c slot }
started c (err e, l) s = leave_gate c (err e) (with_link l s)

polled : Call → Option (Result ChaincodeMessage Error) → Calls → Calls
unfolding leave_gate
polled c none s = s
polled c (some r) s = leave_gate c r s

module _ (core : StubCore) where
  -- lines 35-40, by where the call in the gate is
  pub step : Holder → Event → Calls → Calls
  unfolding take_call granted started polled
  step h (make c) s = record s { waiting = s.waiting ++ c ∷ [] }
  step h (outside a) s = record s { conn = act a s.conn }
  step nobody (grant i) s = granted (take_call i s.waiting) s
  step (entered c) (start now) s =
      started c (start_request now c.msg_type c.payload core.channel_id core.tx_id s.conn.link) s
  step (awaiting c slot) poll s = polled c (poll_request slot s.conn.link) s
  step (entered c) cancel s = record s { holder = nobody }
  step (awaiting c slot) cancel s = record s { holder = nobody }
  step _ _ s = s

  unfoldable pub happen : Event → Calls → Calls
  unfolding step
  happen e s = step s.holder e s

  unfoldable pub run_calls : List Event → Calls → Calls
  unfolding happen
  run_calls [] s = s
  run_calls (e ∷ es) s = run_calls es (happen e s)
