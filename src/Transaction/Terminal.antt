-- ===== src/Transaction/Terminal.antt =====
-- The terminal message of a transaction.
use fabric_chaincode_rs.Prelude.{
  ◌≡◌, refl, ap, ◌∙◌, Bool, true, false, Option, none, some, List, [], ◌==◌, ==-refl, ◌∷◌, ◌++◌,
  Text, Bytes, str, list_Eq, pair_Eq, nat_Eq,
}
use fabric_chaincode_rs.Prelude.Map
use fabric_chaincode_rs.Utf8.{into_bytes}
use fabric_chaincode_rs.Error.{Result, ok}
use fabric_chaincode_rs.Response.{Response, error, success, into_proto}
use fabric_chaincode_rs.Metadata.{Metadata, metadata_function}
use fabric_chaincode_rs.Protos.MsgType.{MsgType}
use fabric_chaincode_rs.Protos.Messages.{ChaincodeMessage, ChaincodeInput, ChaincodeEvent, type_of}
use fabric_chaincode_rs.Handler.Link.{new_message, drop_pending, key_of}
use fabric_chaincode_rs.Handler.Link.Delivery.{
  pending-send, sent-send, drop_pending-sent, drop_pending-out_open, drop_pending_self,
}
use fabric_chaincode_rs.Session.{Env, Session}
use fabric_chaincode_rs.Stub.{ChaincodeStub, new_stub}
use fabric_chaincode_rs.Transaction.{
  Completion, returned, panicked, stuck, Chaincode, send_terminal, complete_with, finish,
  handler_for, run_stub, run_handler, is_metadata_call, serve_metadata, metadata_response,
  run_input, run_transaction,
}

-- The response that the shim makes of what a handler's task came to.
unfoldable pub response_of : Completion → Option Response
response_of (returned r) = some r
response_of (panicked e) = some (error (str "chaincode handler panicked: " ++ e))
response_of stuck = none

module _ {W V : Type 0} (env : Env W) (to_json : Metadata V → Result Bytes Text) where
  -- The terminal message for a transaction's message.
  abbrev pub terminal :
      MsgType → Bytes → Option ChaincodeEvent → ChaincodeMessage → Session W → ChaincodeMessage
  terminal t payload event msg s =
      record (new_message (env.now s.world) t [] msg.channel_id msg.txid) {
        payload = payload;
        chaincode_event = event;
      }

  pub complete_with-sent :
      (r : Response) (msg : ChaincodeMessage) (s : Session W)
      → s.link.out_open ≡ true
      → ((complete_with env to_json r msg s).link.sent
          ≡ s.link.sent
            ++ terminal MsgType.completed (env.codecs.response.encode (into_proto r)) s.event msg s
              ∷ [])
        × (Map.get (key_of msg) (complete_with env to_json r msg s).link.pending ≡ none)
  unfolding complete_with
  complete_with-sent r msg s up = (
    rw
        (sent-send
          (terminal MsgType.completed (env.codecs.response.encode (into_proto r)) s.event msg s)
          (drop_pending (key_of msg) s.link) (drop_pending-out_open (key_of msg) s.link ∙ up))
        (rw drop_pending-sent refl),
    rw pending-send (drop_pending_self (key_of msg) s.link),
  )

  finish-response :
      (msg : ChaincodeMessage) (c : Completion) (s : Session W) (r : Response)
      → response_of c ≡ some r
      → finish env to_json msg (c, s) ≡ (true, complete_with env to_json r msg s)
  unfolding finish response_of
  finish-response msg (returned q) s r h = cc
  finish-response msg (panicked e) s r h = cc
  finish-response msg stuck s r h = cc

  pub complete_with-world :
      (r : Response) (msg : ChaincodeMessage) (s : Session W)
      → (complete_with env to_json r msg s).world ≡ s.world
  unfolding complete_with
  complete_with-world r msg s = refl

  -- Where the handler of a transaction returns or panics, the shim completes it with the response.
  pub run_transaction-complete_with :
      (chaincode : Chaincode W V) (msg : ChaincodeMessage) (input : ChaincodeInput)
      (stub : ChaincodeStub) (c : Completion) (s s' : Session W) (r : Response)
      → env.codecs.chaincode_input.decode msg.payload ≡ ok input
      → is_metadata_call env to_json input ≡ false
      → new_stub env.codecs msg.channel_id msg.txid input msg.proposal ≡ ok stub
      → handler_for chaincode (type_of msg) stub (record s { event = none }) ≡ (c, s')
      → response_of c ≡ some r
      → run_transaction env to_json chaincode msg s ≡ (true, complete_with env to_json r msg s')
  unfolding run_transaction
  run_transaction-complete_with chaincode msg input stub c s s' r d m b h p =
      rw (d, run_input, m, run_handler, b, run_stub, h, finish-response msg c s' r p) refl

  -- The handler of a transaction whose input decodes, that is no metadata call, and whose stub is
  -- built: when it returns or panics with the queue to the peer open, the last message sent is a
  -- COMPLETED for the transaction with the handler's response, or a 500 response that tells of the
  -- panic, and the event that the handler set; the transaction has no request in flight any more.
  pub run_transaction-completes :
      (chaincode : Chaincode W V) (msg : ChaincodeMessage) (input : ChaincodeInput)
      (stub : ChaincodeStub) (c : Completion) (s s' : Session W) (r : Response)
      → env.codecs.chaincode_input.decode msg.payload ≡ ok input
      → is_metadata_call env to_json input ≡ false
      → new_stub env.codecs msg.channel_id msg.txid input msg.proposal ≡ ok stub
      → handler_for chaincode (type_of msg) stub (record s { event = none }) ≡ (c, s')
      → response_of c ≡ some r
      → s'.link.out_open ≡ true
      → let t = run_transaction env to_json chaincode msg s in
        (t.0 ≡ true)
        × (t.1.link.sent
            ≡ s'.link.sent
              ++ terminal MsgType.completed
                  (env.codecs.response.encode (into_proto r))
                  s'.event
                  msg
                  s'
                ∷ [])
        × (Map.get (key_of msg) t.1.link.pending ≡ none)
  run_transaction-completes chaincode msg input stub c s s' r d m b h p up =
      let (sent, gone) = complete_with-sent r msg s' up in
      rw (run_transaction-complete_with chaincode msg input stub c s s' r d m b h p)
        (refl, sent, gone)

  pub is_metadata_call-named :
      (input : ChaincodeInput) (name : Bytes) (args : List Bytes) (b : Bool)
      → input.args ≡ name ∷ args
      → (name == into_bytes metadata_function) ≡ b
      → is_metadata_call env to_json input ≡ b
  unfolding is_metadata_call
  is_metadata_call-named input name args b named same = rw (named, same) refl

  -- A transaction whose first argument is org.hyperledger.fabric:GetMetadata, of a chaincode with
  -- metadata that can be written as JSON: while the queue to the peer is open, the task ends by a
  -- COMPLETED with the JSON and no event, the one message sent; no handler runs, and the requests in
  -- flight and the world are as they were.
  pub run_transaction-metadata :
      (chaincode : Chaincode W V) (msg : ChaincodeMessage) (input : ChaincodeInput)
      (args : List Bytes) (md : Metadata V) (json : Bytes) (s : Session W)
      → env.codecs.chaincode_input.decode msg.payload ≡ ok input
      → input.args ≡ into_bytes (str "org.hyperledger.fabric:GetMetadata") ∷ args
      → chaincode.metadata ≡ some md
      → to_json md ≡ ok json
      → s.link.out_open ≡ true
      → let t = run_transaction env to_json chaincode msg s in
        (t.0 ≡ true)
        × (t.1.link.sent
            ≡ s.link.sent
              ++ terminal MsgType.completed
                  (env.codecs.response.encode (into_proto (success json)))
                  none
                  msg
                  s
                ∷ [])
        × (t.1.link.pending ≡ s.link.pending)
        × (t.1.world ≡ s.world)
        × (t.1.event ≡ s.event)
  unfolding run_transaction metadata_function send_terminal
  run_transaction-metadata chaincode msg input args md json s d named has j up =
      let m =
        is_metadata_call-named input (into_bytes (str "org.hyperledger.fabric:GetMetadata")) args
          true named (==-refl (into_bytes metadata_function)) in
      rw (d, run_input, m, has, serve_metadata, j, metadata_response)
        (
          refl,
          ap (λ l. l.sent)
              (sent-send
                (terminal MsgType.completed (env.codecs.response.encode (into_proto (success json)))
                  none msg s)
                s.link up),
          pending-send _ s.link,
          refl,
          refl,
        )
