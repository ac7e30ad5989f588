-- ===== src/Transaction.antt =====
-- `spawn_transaction` of fabric-shim/src/handler.rs, lines 210-302: one INIT or TRANSACTION message,
-- from its arrival to the terminal message.
--
-- The chaincode is a parameter (`Chaincode` of fabric-shim/src/lib.rs): its handlers are actions on
-- the session that return a response, panic, or never return. `to_json` is serde_json's `to_vec`.
pub mod Terminal
pub mod Answers
pub mod Connected
use fabric_chaincode_rs.Prelude.{
  ◌≡◌, Bool, true, false, Option, none, some, List, [], ◌∷◌, ◌++◌, Text, Bytes, str, head?, ◌==◌,
  list_Eq, nat_Eq, if◌then◌else◌,
}
use fabric_chaincode_rs.Utf8.{into_bytes}
use fabric_chaincode_rs.Error.{Error, DecodeError, Result, ok, err, to_string}
use fabric_chaincode_rs.Response.{Response, success, error, into_proto}
use fabric_chaincode_rs.Metadata.{Metadata, metadata_function}
use fabric_chaincode_rs.Protos.MsgType.{MsgType}
use fabric_chaincode_rs.Protos.Messages.{ChaincodeMessage, ChaincodeInput, ChaincodeEvent, type_of}
use fabric_chaincode_rs.Handler.Link.{PeerLink, new_message, send, drop_pending, key_of}
use fabric_chaincode_rs.Session.{Env, Session}
use fabric_chaincode_rs.Stub.{ChaincodeStub, new_stub}

-- What a handler's task comes to: a response, a panic with the text of its `JoinError`, or nothing.
pub data Completion : Type 0 where
  returned : Response → Completion
  panicked : Text → Completion
  stuck : Completion

pub record Chaincode (W V : Type 0) : Type 0 where
  pub metadata : Option (Metadata V)
  pub init : ChaincodeStub → Session W → Completion × Session W
  pub invoke : ChaincodeStub → Session W → Completion × Session W

-- the trait's default for `init`
unfoldable pub default_init :
    {W : Type 0}
    → (ChaincodeStub → Session W → Completion × Session W)
    → ChaincodeStub
    → Session W
    → Completion × Session W
default_init invoke stub s = invoke stub s

-- lines 276-280
unfoldable pub handler_for :
    {W V : Type 0} → Chaincode W V → MsgType → ChaincodeStub → Session W → Completion × Session W
handler_for chaincode MsgType.init = chaincode.init
handler_for chaincode _ = chaincode.invoke

module _ {W V : Type 0} (env : Env W) (to_json : Metadata V → Result Bytes Text) where
  -- a message for this transaction, sent with the result dropped
  unfoldable pub send_terminal :
      MsgType → Bytes → Option ChaincodeEvent → ChaincodeMessage → Session W → Session W
  send_terminal t payload event msg s = record s {
    link =
        (send
          (record (new_message (env.now s.world) t [] msg.channel_id msg.txid) {
            payload = payload;
            chaincode_event = event;
          })
          s.link).1;
  }

  send_error : Text → ChaincodeMessage → Session W → Session W
  unfolding send_terminal
  send_error text msg s = send_terminal MsgType.error (into_bytes text) none msg s

  metadata_response : Result Bytes Text → Response
  metadata_response (ok json) = success json
  metadata_response (err e) = error (str "failed to serialize metadata: " ++ e)

  -- lines 291-300; the event leaves its slot
  pub complete_with : Response → ChaincodeMessage → Session W → Session W
  unfolding send_terminal
  complete_with response msg s =
      send_terminal MsgType.completed (env.codecs.response.encode (into_proto response)) s.event msg
        (record s { link = drop_pending (key_of msg) s.link; event = none })

  -- lines 275-300
  finish : ChaincodeMessage → Completion × Session W → Bool × Session W
  unfolding complete_with
  finish msg (returned response, s) = (true, complete_with response msg s)
  finish msg (panicked join_err, s) =
      (true, complete_with (error (str "chaincode handler panicked: " ++ join_err)) msg s)
  finish msg (stuck, s) = (false, s)

  -- lines 259-300; a stub's event slot starts empty
  run_stub :
      Chaincode W V → ChaincodeMessage → Result ChaincodeStub Error → Session W → Bool × Session W
  unfolding send_error finish
  run_stub chaincode msg (err e) s =
      (true, send_error (str "failed to build stub: " ++ to_string e) msg s)
  run_stub chaincode msg (ok stub) s =
      finish msg (handler_for chaincode (type_of msg) stub (record s { event = none }))

  run_handler : Chaincode W V → ChaincodeMessage → ChaincodeInput → Session W → Bool × Session W
  unfolding run_stub
  run_handler chaincode msg input s =
      run_stub chaincode msg (new_stub env.codecs msg.channel_id msg.txid input msg.proposal) s

  -- lines 235-250: the shim serves the metadata itself, if the chaincode has any
  unfoldable pub is_metadata_call : ChaincodeInput → Bool
  is_metadata_call input = elim (head? input.args) [
    | none ↦ false
    | some a ↦ a == into_bytes metadata_function
  ]

  serve_metadata :
      Chaincode W V
      → ChaincodeMessage
      → ChaincodeInput
      → Option (Metadata V)
      → Session W
      → Bool × Session W
  unfolding metadata_response send_terminal run_handler
  serve_metadata chaincode msg input none s = run_handler chaincode msg input s
  serve_metadata chaincode msg input (some md) s = (
    true,
    send_terminal MsgType.completed
        (env.codecs.response.encode (into_proto (metadata_response (to_json md)))) none msg s,
  )

  run_input :
      Chaincode W V
      → ChaincodeMessage
      → Result ChaincodeInput DecodeError
      → Session W
      → Bool × Session W
  unfolding send_error is_metadata_call serve_metadata run_handler
  run_input chaincode msg (err e) s =
      (true, send_error (str "failed to decode ChaincodeInput: " ++ e.description) msg s)
  run_input chaincode msg (ok input) s =
      if is_metadata_call input
      then serve_metadata chaincode msg input chaincode.metadata s
      else run_handler chaincode msg input s

  -- The task of one transaction; the flag says that it has ended.
  unfoldable pub run_transaction : Chaincode W V → ChaincodeMessage → Session W → Bool × Session W
  unfolding run_input
  run_transaction chaincode msg s =
      run_input chaincode msg (env.codecs.chaincode_input.decode msg.payload) s
