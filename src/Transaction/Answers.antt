-- ===== src/Transaction/Answers.antt =====
-- The message that ends a transaction's task, on every branch of the task.
use fabric_chaincode_rs.Prelude.{
  ◌≡◌, refl, ◌∙◌, ◌⊎◌, inl, inr, Bool, true, false, Option, none, some, Bytes, Text, if◌then◌else◌,
  arith,
}
use fabric_chaincode_rs.Error.{Error, DecodeError, Result, ok, err}
use fabric_chaincode_rs.Response.{Response, into_proto}
use fabric_chaincode_rs.Metadata.{Metadata}
use fabric_chaincode_rs.Protos.MsgType.{MsgType, try_from-to_i32}
use fabric_chaincode_rs.Protos.Messages.{ChaincodeMessage, ChaincodeInput, ChaincodeEvent, type_of}
use fabric_chaincode_rs.Handler.Link.{PeerLink, new_message, send, drop_pending, key_of}
use fabric_chaincode_rs.Handler.Link.Delivery.{drop_pending-sent, drop_pending-out_open}
use fabric_chaincode_rs.Session.{Env, Session}
use fabric_chaincode_rs.Stub.{ChaincodeStub, new_stub}
use fabric_chaincode_rs.Transaction.{
  Completion, returned, panicked, stuck, Chaincode, send_terminal, send_error, complete_with,
  finish, handler_for, run_stub, run_handler, is_metadata_call, serve_metadata, run_input,
  run_transaction,
}
use fabric_chaincode_rs.Transaction.Terminal.{terminal}

sent-send_eq :
    (m : ChaincodeMessage) (l l' : PeerLink)
    → l'.sent ≡ l.sent
    → l'.out_open ≡ l.out_open
    → (send m l').1.sent ≡ (send m l).1.sent
unfolding send
sent-send_eq m l l' same up = ground (arith, same, up)

sent-dropped :
    (m : ChaincodeMessage) (l : PeerLink)
    → (send m (drop_pending (key_of m) l)).1.sent ≡ (send m l).1.sent
sent-dropped m l =
    sent-send_eq m l (drop_pending (key_of m) l) (drop_pending-sent (key_of m) l)
      (drop_pending-out_open (key_of m) l)

module _ {W V : Type 0} (env : Env W) (to_json : Metadata V → Result Bytes Text)
    (chaincode : Chaincode W V) (msg : ChaincodeMessage) where
  -- From the task's start to the session where it comes to send its end: as it was, where no handler is
  -- called, since the input does not decode, the shim serves the metadata, or no stub is built; or as the
  -- handler leaves it.
  pub data IsHandled (s : Session W) : Session W → Type 0 where
    undecoded :
        (e : DecodeError) → env.codecs.chaincode_input.decode msg.payload ≡ err e → IsHandled s s
    described :
        (input : ChaincodeInput) (md : Metadata V)
        → env.codecs.chaincode_input.decode msg.payload ≡ ok input
        → is_metadata_call env to_json input ≡ true
        → chaincode.metadata ≡ some md
        → IsHandled s s
    unbuilt :
        (input : ChaincodeInput) (e : Error)
        → env.codecs.chaincode_input.decode msg.payload ≡ ok input
        → new_stub env.codecs msg.channel_id msg.txid input msg.proposal ≡ err e
        → IsHandled s s
    handled :
        (input : ChaincodeInput) (stub : ChaincodeStub)
        → env.codecs.chaincode_input.decode msg.payload ≡ ok input
        → new_stub env.codecs msg.channel_id msg.txid input msg.proposal ≡ ok stub
        → IsHandled s (handler_for chaincode (type_of msg) stub (record s { event = none })).1

  -- One message, a COMPLETED or an ERROR for the transaction, is sent after what the handler has sent.
  pub record IsAnswered (s after : Session W) : Type 0 where
    pub before : Session W
    pub handling : IsHandled s before
    pub last : ChaincodeMessage
    pub kind : (type_of last ≡ MsgType.completed) ⊎ (type_of last ≡ MsgType.error)
    pub key : key_of last ≡ key_of msg
    pub sent : after.link.sent ≡ (send last before.link).1.sent

  type-terminal :
      (t : MsgType) (payload : Bytes) (event : Option ChaincodeEvent) (s : Session W)
      → type_of (terminal env to_json t payload event msg s) ≡ t
  unfolding type_of new_message
  type-terminal t payload event s = rw (try_from-to_i32 t) refl

  key-terminal :
      (t : MsgType) (payload : Bytes) (event : Option ChaincodeEvent) (s : Session W)
      → key_of (terminal env to_json t payload event msg s) ≡ key_of msg
  unfolding new_message
  key-terminal t payload event s = refl

  terminal-IsAnswered :
      (s before : Session W) (t : MsgType) (payload : Bytes) (event : Option ChaincodeEvent)
      → IsHandled s before
      → (t ≡ MsgType.completed) ⊎ (t ≡ MsgType.error)
      → IsAnswered s (send_terminal env to_json t payload event msg before)
  unfolding send_terminal
  terminal-IsAnswered s before t payload event h kind = record {
    before = before;
    handling = h;
    last = terminal env to_json t payload event msg before;
    kind = elim kind [
      | inl e ↦ inl (type-terminal t payload event before ∙ e)
      | inr e ↦ inr (type-terminal t payload event before ∙ e)
    ];
    key = key-terminal t payload event before;
    sent = refl;
  }

  complete_with-IsAnswered :
      (s before : Session W) (r : Response)
      → IsHandled s before
      → IsAnswered s (complete_with env to_json r msg before)
  unfolding complete_with
  complete_with-IsAnswered s before r h =
      let m =
        terminal env to_json MsgType.completed (env.codecs.response.encode (into_proto r))
          before.event msg before in
      record {
        before = before;
        handling = h;
        last = m;
        kind = inl (type-terminal MsgType.completed _ _ before);
        key =
            key-terminal MsgType.completed (env.codecs.response.encode (into_proto r)) before.event
              before;
        sent = unfold send_terminal new_message in sent-dropped m before.link;
      }

  finish-IsAnswered :
      (s : Session W) (r : Completion × Session W)
      → IsHandled s r.1
      → (finish env to_json msg r).0 ≡ true
      → IsAnswered s (finish env to_json msg r).1
  unfolding finish
  finish-IsAnswered s (returned r, s') h e = complete_with-IsAnswered s s' r h
  finish-IsAnswered s (panicked m, s') h e = complete_with-IsAnswered s s' _ h
  finish-IsAnswered s (stuck, s') h e = cc

  module _ (input : ChaincodeInput)
      (decoded : env.codecs.chaincode_input.decode msg.payload ≡ ok input) where
    run_stub-IsAnswered :
        (r : Result ChaincodeStub Error) (s : Session W)
        → new_stub env.codecs msg.channel_id msg.txid input msg.proposal ≡ r
        → (run_stub env to_json chaincode msg r s).0 ≡ true
        → IsAnswered s (run_stub env to_json chaincode msg r s).1
    unfolding run_stub send_error
    run_stub-IsAnswered (err e) s built h =
        terminal-IsAnswered s s MsgType.error _ none (unbuilt input e decoded built) (inr refl)
    run_stub-IsAnswered (ok stub) s built h =
        finish-IsAnswered s (handler_for chaincode (type_of msg) stub (record s { event = none }))
          (handled input stub decoded built) h

    run_handler-IsAnswered :
        (s : Session W)
        → (run_handler env to_json chaincode msg input s).0 ≡ true
        → IsAnswered s (run_handler env to_json chaincode msg input s).1
    unfolding run_handler
    run_handler-IsAnswered s h = run_stub-IsAnswered _ s refl h

    serve_metadata-IsAnswered :
        (md : Option (Metadata V)) (s : Session W)
        → chaincode.metadata ≡ md
        → is_metadata_call env to_json input ≡ true
        → (serve_metadata env to_json chaincode msg input md s).0 ≡ true
        → IsAnswered s (serve_metadata env to_json chaincode msg input md s).1
    unfolding serve_metadata
    serve_metadata-IsAnswered none s has asked h = run_handler-IsAnswered s h
    serve_metadata-IsAnswered (some md) s has asked h =
        terminal-IsAnswered s s MsgType.completed _ none (described input md decoded asked has)
          (inl refl)

    chosen-IsAnswered :
        (b : Bool) (s : Session W)
        → is_metadata_call env to_json input ≡ b
        → (if b
            then serve_metadata env to_json chaincode msg input chaincode.metadata s
            else run_handler env to_json chaincode msg input s).0
          ≡ true
        → IsAnswered s
            (if b
              then serve_metadata env to_json chaincode msg input chaincode.metadata s
              else run_handler env to_json chaincode msg input s).1
    chosen-IsAnswered true s m h = serve_metadata-IsAnswered chaincode.metadata s refl m h
    chosen-IsAnswered false s m h = run_handler-IsAnswered s h

  run_input-IsAnswered :
      (r : Result ChaincodeInput DecodeError) (s : Session W)
      → env.codecs.chaincode_input.decode msg.payload ≡ r
      → (run_input env to_json chaincode msg r s).0 ≡ true
      → IsAnswered s (run_input env to_json chaincode msg r s).1
  unfolding run_input send_error
  run_input-IsAnswered (err e) s d h =
      terminal-IsAnswered s s MsgType.error _ none (undecoded e d) (inr refl)
  run_input-IsAnswered (ok input) s d h =
      chosen-IsAnswered input d (is_metadata_call env to_json input) s refl h

  -- A task that ends, however it went, sends one message more than its handler has sent, or one where no
  -- handler is called: a COMPLETED or an ERROR for its channel and transaction; where the queue to the
  -- peer is closed, that message is lost and nothing is sent.
  pub run_transaction-IsAnswered :
      (s : Session W)
      → (run_transaction env to_json chaincode msg s).0 ≡ true
      → IsAnswered s (run_transaction env to_json chaincode msg s).1
  unfolding run_transaction
  run_transaction-IsAnswered s h =
      run_input-IsAnswered (env.codecs.chaincode_input.decode msg.payload) s refl h
