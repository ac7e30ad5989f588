-- ===== src/Contract/Serving.antt =====
-- A contract's transaction from its message to the message that ends it, where the method that is
-- called refines a specification.
use fabric_chaincode_rs.Prelude.{
  ℕ, ◌≡◌, refl, ◌∙◌, ap, Bool, true, false, Option, none, some, List, [], list_Eq, nat_Eq, pair_Eq,
  ◌∷◌, ◌++◌, Text, Bytes, length, IsText,
}
use fabric_chaincode_rs.Prelude.Map
use fabric_chaincode_rs.Utf8.{into_bytes}
use fabric_chaincode_rs.Error.{Error, Result, ok, err, to_string}
use fabric_chaincode_rs.Response.{Response, success, error, into_proto}
use fabric_chaincode_rs.Metadata.{Metadata}
use fabric_chaincode_rs.Protos.MsgType.{MsgType}
use fabric_chaincode_rs.Protos.Messages.{ChaincodeMessage, ChaincodeInput, ChaincodeEvent, type_of}
use fabric_chaincode_rs.Handler.Link.{new_message, key_of}
use fabric_chaincode_rs.Session.{Env, Session, Exec, done}
use fabric_chaincode_rs.Session.Requests.{IsIdle}
use fabric_chaincode_rs.Session.Refinement.{Spec, Refines}
use fabric_chaincode_rs.Stub.{ChaincodeStub, new_stub}
use fabric_chaincode_rs.Transaction.{
  returned, handler_for, is_metadata_call, run_transaction, default_init,
}
use fabric_chaincode_rs.Transaction.Terminal.{
  complete_with-sent, complete_with-world, run_transaction-complete_with, response_of,
}
use fabric_chaincode_rs.Contract.{
  TxMethod, parse_args, find_method, invoke, called, executed, outcome_of, payload_response,
  chaincode,
}
use fabric_chaincode_rs.Stub.Identity.{new_stub-core-args}
use fabric_chaincode_rs.Contract.Routing.{IsSimple, invoke-called, IsRefused, invoke-IsRefused}

-- The task of `msg` has ended: after `requests` it has sent, last, a COMPLETED with the response and the
-- event, and has left the world `w`; the transaction has no request in flight.
pub record IsServed {W : Type 0} (env : Env W) (msg : ChaincodeMessage) (t : Bool × Session W)
    (requests : List ChaincodeMessage) (response : Response) (w : W) (event : Option ChaincodeEvent)
    : Type 0 where
  pub ended : t.0 ≡ true
  pub world : t.1.world ≡ w
  pub sent :
      t.1.link.sent
      ≡ requests
        ++ record (new_message (env.now w) MsgType.completed [] msg.channel_id msg.txid) {
          payload = env.codecs.response.encode (into_proto response);
          chaincode_event = event;
        }
          ∷ []
  pub forgotten : Map.get (key_of msg) t.1.link.pending ≡ none

module _ {R : Type 0} (into_payload : R → Result Bytes Text) where
  -- The response that a method's result makes.
  unfoldable pub answer : Result R Error → Response
  answer (ok v) = elim (into_payload v) [ ok payload ↦ success payload | err e ↦ error e ]
  answer (err e) = error (to_string e)

  payload_response-answer :
      (r : Result Bytes Text)
      → payload_response r ≡ elim r [ ok payload ↦ success payload | err e ↦ error e ]
  unfolding payload_response
  payload_response-answer (ok payload) = refl
  payload_response-answer (err e) = refl

  called-executed :
      {W : Type 0} (m : Exec W R) (s : Session W) (r : Result R Error)
      → (m s).0 ≡ done r
      → called into_payload (executed m s) ≡ (returned (answer r), (m s).1)
  unfolding called executed outcome_of answer
  called-executed m s (ok v) h = rw (h, payload_response-answer (into_payload v)) refl
  called-executed m s (err e) h = rw h refl

-- A call by `name` with `args` is the call of a method of the contract, with arguments that parse,
-- and the method's call is an action that refines the specification.
pub record IsImplemented {W A R : Type 0} (txs : List (TxMethod W A R)) (stub : ChaincodeStub)
    (name : Text) (args : List Bytes) (spec : Spec W R) : Type 0 where
  pub tx : TxMethod W A R
  pub values : List A
  pub action : Exec W R
  pub text : IsText name
  pub simple : IsSimple name
  pub found : find_method name txs ≡ some tx
  pub arity : length args ≡ length tx.params
  pub parsed : parse_args tx.params args ≡ ok values
  pub runs : tx.method stub values ≡ executed action
  pub refines : Refines stub.core action spec

module _ {W A R V : Type 0} (env : Env W) (metadata_json : Metadata V → Result Bytes Text)
    (show : ℕ → Text) (into_payload : R → Result Bytes Text) (md : Metadata V)
    (txs : List (TxMethod W A R)) where
  -- INIT as any other: the trait's default
  handler_for-chaincode :
      (t : MsgType)
      → handler_for (chaincode show into_payload md txs) t ≡ invoke show into_payload txs
  unfolding handler_for chaincode default_init invoke
  handler_for-chaincode t =
      elim t
        as (λ k.
          handler_for (chaincode show into_payload md txs) k ≡ invoke show into_payload txs) [
            | MsgType.undefined ↦ refl
            | MsgType.register ↦ refl
            | MsgType.registered ↦ refl
            | MsgType.init ↦ refl
            | MsgType.ready ↦ refl
            | MsgType.transaction ↦ refl
            | MsgType.completed ↦ refl
            | MsgType.error ↦ refl
            | MsgType.get_state ↦ refl
            | MsgType.put_state ↦ refl
            | MsgType.del_state ↦ refl
            | MsgType.invoke_chaincode ↦ refl
            | MsgType.response ↦ refl
            | MsgType.get_state_by_range ↦ refl
            | MsgType.get_query_result ↦ refl
            | MsgType.query_state_next ↦ refl
            | MsgType.query_state_close ↦ refl
            | MsgType.keepalive ↦ refl
            | MsgType.get_history_for_key ↦ refl
            | MsgType.get_state_metadata ↦ refl
            | MsgType.put_state_metadata ↦ refl
            | MsgType.get_private_data_hash ↦ refl
            | MsgType.purge_private_data ↦ refl
            | MsgType.write_batch_state ↦ refl
            | MsgType.get_state_multiple ↦ refl
          ]

  module _ (msg : ChaincodeMessage) (input : ChaincodeInput) (stub : ChaincodeStub) (s : Session W)
      (decoded : env.codecs.chaincode_input.decode msg.payload ≡ ok input)
      (plain : is_metadata_call env metadata_json input ≡ false)
      (built : new_stub env.codecs msg.channel_id msg.txid input msg.proposal ≡ ok stub) where
    served :
        (response : Response) (s' : Session W) (w : W) (event : Option ChaincodeEvent)
        → invoke show into_payload txs stub (record s { event = none }) ≡ (returned response, s')
        → s'.link.out_open ≡ true
        → s'.world ≡ w
        → s'.event ≡ event
        → IsServed env msg
            (run_transaction env metadata_json (chaincode show into_payload md txs) msg s)
            s'.link.sent
            response
            w
            event
    unfolding response_of
    served response s' w event ran up world set =
        let (sent, gone) = complete_with-sent env metadata_json response msg s' up in
        rw
          (run_transaction-complete_with env metadata_json (chaincode show into_payload md txs) msg
            input stub (returned response) s s' response decoded plain built
            (ap (λ f. f stub (record s { event = none })) (handler_for-chaincode (type_of msg))
              ∙ ran)
            refl)
          (record {
            ended = refl;
            world = complete_with-world env metadata_json response msg s' ∙ world;
            sent = rw (← world, ← set) sent;
            forgotten = gone;
          })

    -- A call that reaches no method, of an input that decodes, is no call for the metadata, and builds a
    -- stub, by a name that is valid text without a colon: while the queue to the peer is open, the task
    -- ends by a COMPLETED with no event and a 500 response that says that no method has the name, how
    -- many arguments the method expects and got, or which parameter is the first whose argument does not
    -- parse, and its parser's error; nothing else was sent, and the world is as it was.
    pub run_transaction-IsRefused :
        (name : Text) (args : List Bytes) (m : Text)
        → input.args ≡ into_bytes name ∷ args
        → IsText name
        → IsSimple name
        → IsRefused show into_payload txs name args m
        → s.link.out_open ≡ true
        → IsServed env msg
            (run_transaction env metadata_json (chaincode show into_payload md txs) msg s)
            s.link.sent
            (error m)
            s.world
            none
    run_transaction-IsRefused name args m named text simple refused up =
        let by =
          (new_stub-core-args env.codecs msg.channel_id msg.txid input msg.proposal stub built).1
          ∙ named in
        served (error m) (record s { event = none }) s.world none
          (invoke-IsRefused show into_payload txs name args stub (record s { event = none }) text
            simple by m refused)
          up refl refl

    -- A message that calls an implemented method: if the transaction has no request in flight and the
    -- queue to the peer is open, the task ends by a COMPLETED with the response that the specified
    -- result makes and the specified event, and leaves the specified world.
    pub run_transaction-IsImplemented :
        (name : Text) (args : List Bytes) (spec : Spec W R)
        → input.args ≡ into_bytes name ∷ args
        → IsImplemented txs stub name args spec
        → IsIdle stub.core s
        → let (r, w, event) = spec s.world none in
          (requests : List ChaincodeMessage) × IsServed env msg
            (run_transaction env metadata_json (chaincode show into_payload md txs) msg s)
            requests
            (answer into_payload r)
            w
            event
    run_transaction-IsImplemented name args spec named i idle =
        let idle' : IsIdle stub.core (record s { event = none }) = record {
          free = idle.free;
          up = idle.up;
        } in
        let met = i.refines.at (record s { event = none }) idle' in
        let by =
          (new_stub-core-args env.codecs msg.channel_id msg.txid input msg.proposal stub built).1
          ∙ named in
        (
          _,
          served (answer into_payload (spec s.world none).0)
              (i.action (record s { event = none })).1 (spec s.world none).1 (spec s.world none).2
              (invoke-called show into_payload txs name args stub (record s { event = none }) i.text
                  i.simple by i.tx i.values i.found i.arity i.parsed
                ∙ ap (λ f. called into_payload (f (record s { event = none }))) i.runs
                ∙ called-executed into_payload i.action (record s { event = none })
                    (spec s.world none).0 met.result)
              met.idle.up met.world met.event,
        )
