-- ===== src/Transaction/Connected.antt =====
-- A transaction's task on the connection that spawned it.
use fabric_chaincode_rs.Prelude.{
  ◌≡◌, refl, Bool, true, false, Option, none, some, Bytes, Text, ap, if◌then◌else◌,
}
use fabric_chaincode_rs.Error.{Error, DecodeError, Result, ok, err}
use fabric_chaincode_rs.Response.{Response, into_proto}
use fabric_chaincode_rs.Metadata.{Metadata}
use fabric_chaincode_rs.Protos.MsgType.{MsgType}
use fabric_chaincode_rs.Protos.Messages.{ChaincodeMessage, ChaincodeInput, ChaincodeEvent, type_of}
use fabric_chaincode_rs.Handler.Link.{new_message, drop_pending, send, key_of}
use fabric_chaincode_rs.Handler.Connection.{complete, answer, act, send_link}
use fabric_chaincode_rs.Session.{Env, Session, StubCore}
use fabric_chaincode_rs.Session.Connected.{Leads, Follows, Leads-stay, Leads-trans, Leads-act}
use fabric_chaincode_rs.Stub.{ChaincodeStub, new_stub}
use fabric_chaincode_rs.Stub.Identity.{new_stub-core-args}
use fabric_chaincode_rs.Transaction.{
  Completion, returned, panicked, stuck, Chaincode, send_terminal, send_error, complete_with,
  finish, handler_for, run_stub, run_handler, is_metadata_call, serve_metadata, run_input,
  run_transaction,
}
use fabric_chaincode_rs.Transaction.Terminal.{terminal}

-- the transaction of its message
abbrev pub core_of : ChaincodeMessage → StubCore
core_of msg = record { channel_id = msg.channel_id; tx_id = msg.txid }

module _ {W V : Type 0} (env : Env W) (to_json : Metadata V → Result Bytes Text)
    (chaincode : Chaincode W V) (msg : ChaincodeMessage) where
  terminal-Leads :
      (t : MsgType) (payload : Bytes) (event : Option ChaincodeEvent) (s : Session W)
      → Leads (core_of msg) s (send_terminal env to_json t payload event msg s)
  unfolding send_terminal
  terminal-Leads t payload event s =
      Leads-act (core_of msg) s _ (answer (terminal env to_json t payload event msg s))
        (unfold new_message in refl)
        (λ c a.
          unfold act send_link in
          record {
            link = ap (λ l. (send (terminal env to_json t payload event msg s) l).1) a.link;
            state = a.state;
            running = a.running;
          })

  complete_with-Leads :
      (r : Response) (s : Session W) → Leads (core_of msg) s (complete_with env to_json r msg s)
  unfolding complete_with
  complete_with-Leads r s =
      let ended =
        terminal env to_json MsgType.completed (env.codecs.response.encode (into_proto r)) s.event
          msg s in
      Leads-act (core_of msg) s _ (complete (key_of msg) ended) (refl, unfold new_message in refl)
        (λ c a.
          unfold act send_link in
          record {
            link = ap (λ l. (send ended (drop_pending (key_of msg) l)).1) a.link;
            state = a.state;
            running = a.running;
          })

  finish-Leads :
      (s : Session W) (r : Completion × Session W)
      → Leads (core_of msg) s r.1
      → Leads (core_of msg) s (finish env to_json msg r).1
  unfolding finish
  finish-Leads s (returned r, s') h = Leads-trans (core_of msg) h (complete_with-Leads r s')
  finish-Leads s (panicked e, s') h = Leads-trans (core_of msg) h (complete_with-Leads _ s')
  finish-Leads s (stuck, s') h = h

  -- The handler's actions, whatever stub it runs with, are the connection's.
  module _
      (handles : (stub : ChaincodeStub)
        → stub.core ≡ core_of msg
        → Follows (core_of msg) (handler_for chaincode (type_of msg) stub)) where
    run_stub-Leads :
        (r : Result ChaincodeStub Error) (s : Session W)
        → ((stub : ChaincodeStub) → r ≡ ok stub → stub.core ≡ core_of msg)
        → Leads (core_of msg) s (run_stub env to_json chaincode msg r s).1
    unfolding run_stub send_error
    run_stub-Leads (err e) s h = terminal-Leads MsgType.error _ none s
    run_stub-Leads (ok stub) s h = finish-Leads s _ (
        Leads-trans (core_of msg) (Leads-stay (core_of msg) s (record s { event = none }) refl)
          (handles stub (h stub refl) (record s { event = none })))

    run_handler-Leads :
        (input : ChaincodeInput) (s : Session W)
        → Leads (core_of msg) s (run_handler env to_json chaincode msg input s).1
    unfolding run_handler
    run_handler-Leads input s =
        run_stub-Leads (new_stub env.codecs msg.channel_id msg.txid input msg.proposal) s (λ stub h.
          (new_stub-core-args env.codecs msg.channel_id msg.txid input msg.proposal stub h).0)

    serve_metadata-Leads :
        (input : ChaincodeInput) (md : Option (Metadata V)) (s : Session W)
        → Leads (core_of msg) s (serve_metadata env to_json chaincode msg input md s).1
    unfolding serve_metadata
    serve_metadata-Leads input none s = run_handler-Leads input s
    serve_metadata-Leads input (some md) s = terminal-Leads MsgType.completed _ none s

    chosen-Leads :
        (b : Bool) (input : ChaincodeInput) (s : Session W)
        → Leads
            (core_of msg)
            s
            (if b
              then serve_metadata env to_json chaincode msg input chaincode.metadata s
              else run_handler env to_json chaincode msg input s).1
    chosen-Leads true input s = serve_metadata-Leads input chaincode.metadata s
    chosen-Leads false input s = run_handler-Leads input s

    run_input-Leads :
        (r : Result ChaincodeInput DecodeError) (s : Session W)
        → Leads (core_of msg) s (run_input env to_json chaincode msg r s).1
    unfolding run_input send_error
    run_input-Leads (err e) s = terminal-Leads MsgType.error _ none s
    run_input-Leads (ok input) s = chosen-Leads (is_metadata_call env to_json input) input s

    pub run_transaction-Leads :
        (s : Session W) → Leads (core_of msg) s (run_transaction env to_json chaincode msg s).1
    unfolding run_transaction
    run_transaction-Leads s = run_input-Leads (env.codecs.chaincode_input.decode msg.payload) s
