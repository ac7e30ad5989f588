-- ===== src/AssetTransfer/Serving.antt =====
-- The asset contract's transactions from the message that calls them to the message that ends them.
use fabric_chaincode_rs.Prelude.{
  ℕ, ◌≡◌, refl, false, Option, none, some, List, [], ◌∷◌, length, length-map, ◌∙◌, map, Text, Bytes,
  IsText, str, list_Eq, nat_Eq,
}
use fabric_chaincode_rs.Prelude.Map
use fabric_chaincode_rs.Utf8.{into_bytes, from_utf8}
use fabric_chaincode_rs.Error.{Result, ok, invalid_argument, ok_or}
use fabric_chaincode_rs.Protos.Messages.{ChaincodeMessage, ChaincodeInput, ChaincodeEvent}
use fabric_chaincode_rs.Session.{Env, Exec, Session, pure, ◌>>=◌}
use fabric_chaincode_rs.Session.Ledger.{Ledger}
use fabric_chaincode_rs.Session.Refinement.{
  Spec, bind_spec, Refines, Refines-eq, Refines-bind, Refines-lift,
}
use fabric_chaincode_rs.Session.Requests.{IsIdle}
use fabric_chaincode_rs.Metadata.{Metadata}
use fabric_chaincode_rs.Transaction.{run_transaction}
use fabric_chaincode_rs.Transaction.Terminal.{is_metadata_call-named}
use fabric_chaincode_rs.Stub.{ChaincodeStub, new_stub, get_transient}
use fabric_chaincode_rs.Contract.{TxMethod, find_method, parse_args, executed, chaincode}
use fabric_chaincode_rs.Contract.Routing.{letters-IsText, letters-IsSimple}
use fabric_chaincode_rs.Contract.Serving.{
  IsImplemented, IsServed, answer, run_transaction-IsImplemented,
}
use fabric_chaincode_rs.AssetTransfer
use fabric_chaincode_rs.AssetTransfer.{Asset, QueryResult}
use fabric_chaincode_rs.AssetTransfer.Refinement.{
  init_ledger-Refines, asset_exists-Refines, read_asset-Refines, create_asset-Refines,
  update_asset-Refines, delete_asset-Refines, transfer_asset-Refines,
}
use fabric_chaincode_rs.AssetTransfer.Contract.{
  Value, Payload, unit, bool, asset, string_param, asset_params, transactions, with_nothing,
  with_id, with_owner, with_asset, natural, into_payload,
}
use fabric_chaincode_rs.AssetTransfer.Calls.{
  Request, init_ledger, create_asset, read_asset, update_asset, delete_asset, asset_exists,
  transfer_asset, read_transient, function, parameters, IsRequest, giving, request_spec,
  transient_spec, transient_text,
}
use fabric_chaincode_rs.AssetTransfer.Arguments.{
  string_args, no_args, asset_args, asset_values, function-letters, function-metadata,
}

module _ {W : Type 0} (env : Env W) (to_json : Asset → Result Bytes Text)
    (from_json : Bytes → Result Asset Text) (utf8_error : Bytes → Text) (fuel : ℕ)
    (ctx : ChaincodeStub) (ledger : Ledger env ctx.core) where
  giving-Refines :
      {B : Type 0} (m : Exec W B) (p : Spec W B) (wrap : B → Payload)
      → Refines ctx.core m p
      → Refines ctx.core
          (m >>= λ v. pure (wrap v))
          (giving env to_json from_json utf8_error ctx ledger wrap p)
  giving-Refines m p wrap h =
      Refines-bind ctx.core _ _ _ _ h (λ v. Refines-lift ctx.core (ok (wrap v)))

  transient_eq :
      (found : Option Bytes) (w : W) (e : Option ChaincodeEvent)
      → bind_spec {W = W}
          (λ w' e'. (
            ok_or found (invalid_argument (str "transient field asset_properties not set")),
            w',
            e',
          ))
          (λ value w' e'. (ok_or (from_utf8 value) (invalid_argument (utf8_error value)), w', e'))
          w
          e
        ≡ (transient_text env to_json from_json utf8_error ctx ledger found, w, e)
  unfolding transient_text
  transient_eq none w e = refl
  transient_eq (some value) w e = refl

  transient-Refines :
      Refines ctx.core
        (AssetTransfer.read_transient env to_json from_json ctx utf8_error)
        (transient_spec env to_json from_json utf8_error ctx ledger)
  unfolding AssetTransfer.read_transient get_transient transient_spec
  transient-Refines =
      Refines-eq ctx.core _ _ _ (transient_eq (Map.get (str "asset_properties") ctx.transient))
        (Refines-bind ctx.core _ _ _ _ (Refines-lift ctx.core _) (λ value. Refines-lift ctx.core _))

  abbrev methods : List (TxMethod W Value Payload)
  methods = transactions env to_json from_json utf8_error fuel

  implemented :
      (r : Request) (tx : TxMethod W Value Payload) (values : List Value) (action : Exec W Payload)
      (spec : Spec W Payload)
      → find_method (function r) methods ≡ some tx
      → length (parameters r) ≡ length tx.params
      → parse_args tx.params (map into_bytes (parameters r)) ≡ ok values
      → tx.method ctx values ≡ executed action
      → Refines ctx.core action spec
      → IsImplemented methods ctx (function r) (map into_bytes (parameters r)) spec
  implemented r tx values action spec found arity parsed runs refines = record {
    tx = tx;
    values = values;
    action = action;
    text = letters-IsText (function r) (function-letters r);
    simple = letters-IsSimple (function r) (function-letters r);
    found = found;
    arity = length-map into_bytes (parameters r) ∙ arity;
    parsed = parsed;
    runs = runs;
    refines = refines;
  }

  id_args :
      (id : Text)
      → IsText id
      → parse_args (string_param utf8_error (str "id") ∷ []) (into_bytes id ∷ [])
        ≡ ok (Value.string id ∷ [])
  id_args id h = string_args utf8_error _ _ _ (str "id") id h (no_args utf8_error)

  -- Every request is a call of a method whose action does what the request asks.
  pub request-IsImplemented :
      (r : Request)
      → IsRequest r
      → IsImplemented
          (transactions env to_json from_json utf8_error fuel)
          ctx
          (function r)
          (map into_bytes (parameters r))
          (request_spec env to_json from_json utf8_error ctx ledger r)
  unfolding transactions parameters request_spec find_method with_nothing with_id with_owner
      with_asset natural asset_params function str list_Eq
  request-IsImplemented init_ledger h =
      implemented init_ledger _ [] _ _ refl refl (no_args utf8_error) refl
        (giving-Refines _ _ (λ _. unit) (init_ledger-Refines env to_json from_json ctx ledger))
  request-IsImplemented (create_asset a) h =
      implemented (create_asset a) _ (asset_values utf8_error a) _ _ refl refl
        (asset_args utf8_error a h) refl
        (giving-Refines _ _ (λ _. unit) (create_asset-Refines env to_json from_json ctx ledger a))
  request-IsImplemented (read_asset id) h =
      implemented (read_asset id) _ _ _ _ refl refl (id_args id h) refl
        (giving-Refines _ _ asset (read_asset-Refines env to_json from_json ctx ledger id))
  request-IsImplemented (update_asset a) h =
      implemented (update_asset a) _ (asset_values utf8_error a) _ _ refl refl
        (asset_args utf8_error a h) refl
        (giving-Refines _ _ (λ _. unit) (update_asset-Refines env to_json from_json ctx ledger a))
  request-IsImplemented (delete_asset id) h =
      implemented (delete_asset id) _ _ _ _ refl refl (id_args id h) refl
        (giving-Refines _ _ (λ _. unit) (delete_asset-Refines env to_json from_json ctx ledger id))
  request-IsImplemented (asset_exists id) h =
      implemented (asset_exists id) _ _ _ _ refl refl (id_args id h) refl
        (giving-Refines _ _ bool (asset_exists-Refines env to_json from_json ctx ledger id))
  request-IsImplemented (transfer_asset id owner) h =
      implemented (transfer_asset id owner) _ (Value.string id ∷ Value.string owner ∷ []) _ _ refl
        refl
        (string_args utf8_error _ _ _ (str "id") id h.0
          (string_args utf8_error _ _ _ (str "newOwner") owner h.1 (no_args utf8_error)))
        refl
        (giving-Refines _ _ Payload.string
          (transfer_asset-Refines env to_json from_json ctx ledger id owner))
  request-IsImplemented read_transient h =
      implemented read_transient _ [] _ _ refl refl (no_args utf8_error) refl
        (giving-Refines _ _ Payload.string transient-Refines)

  -- A client's request, from its message to the message that ends it: against a peer that serves a
  -- ledger, where the transaction's input decodes to the request's call and its stub is built, and
  -- the transaction has no request in flight and the queue to the peer is open, the task ends by a
  -- COMPLETED with the response and the event that `request_spec` gives for the ledger's state at its
  -- start, and leaves the ledger as `request_spec` says.
  pub run_transaction-request :
      {V : Type 0} (metadata_json : Metadata V → Result Bytes Text) (md : Metadata V)
      (show : ℕ → Text) (results_json : List QueryResult → Result Bytes Text) (r : Request)
      (msg : ChaincodeMessage) (input : ChaincodeInput) (s : Session W)
      → IsRequest r
      → env.codecs.chaincode_input.decode msg.payload ≡ ok input
      → input.args ≡ map into_bytes (function r ∷ parameters r)
      → new_stub env.codecs msg.channel_id msg.txid input msg.proposal ≡ ok ctx
      → IsIdle ctx.core s
      → let (result, w, event) =
          request_spec env to_json from_json utf8_error ctx ledger r s.world none in
        let contract = chaincode show (into_payload to_json results_json) md methods in
        (requests : List ChaincodeMessage) × IsServed env msg
          (run_transaction env metadata_json contract msg s)
          requests
          (answer (into_payload to_json results_json) result)
          w
          event
  run_transaction-request metadata_json md show results_json r msg input s h decoded called built
        idle =
      run_transaction-IsImplemented env metadata_json show (into_payload to_json results_json) md
        methods msg input ctx s decoded
        (is_metadata_call-named env metadata_json input _ _ false called (function-metadata r))
        built (function r) (map into_bytes (parameters r))
        (request_spec env to_json from_json utf8_error ctx ledger r) called
        (request-IsImplemented r h) idle
