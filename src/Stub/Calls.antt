-- ===== src/Stub/Calls.antt =====
-- The stub's calls to the peer, fabric-shim/src/stub.rs, lines 174-455.
pub mod Guards
pub mod World
pub mod Specs
pub mod Scan
pub mod Private
pub mod Callee
pub mod Partial
pub mod Connected
use fabric_chaincode_rs.Prelude.{
  ◌≡◌, refl, Bool, true, false, Option, none, some, List, [], ◌∷◌, ◌++◌, Text, Bytes, str, is_empty,
  or_else, ℤ, pos, if◌then◌else◌,
}
use fabric_chaincode_rs.Utf8.{from_utf8_lossy}
use fabric_chaincode_rs.Error.{Error, Result, ok, err, invalid_argument, peer, protocol, decoded}
use fabric_chaincode_rs.Response.{Response, from_proto}
use fabric_chaincode_rs.CompositeKey.{create_composite_key, max_unicode_rune}
use fabric_chaincode_rs.Protos.MsgType.{MsgType, debug}
use fabric_chaincode_rs.Protos.Messages.{
  QueryMetadata, QueryResponseMetadata, ChaincodeSpec, ChaincodeMessage, type_of,
}
use fabric_chaincode_rs.Session.{Env, Exec, done, pure, fail, lift, core_request, ◌>>=◌, ◌>>◌}
use fabric_chaincode_rs.Iterators.{QueryIter, new_iter}
use fabric_chaincode_rs.Stub.{ChaincodeStub}

abbrev pub default_query_response_metadata : QueryResponseMetadata
default_query_response_metadata = record { fetched_records_count = pos 0; bookmark = [] }

unfoldable pub require_collection : Text → Result (Unit {0}) Error
require_collection collection =
    if is_empty collection
    then err (invalid_argument (str "collection must not be empty"))
    else ok tt

module _ {W : Type 0} (env : Env W) (stub : ChaincodeStub) where
  unfoldable pub get_data : MsgType → Text → Text → Exec W Bytes
  get_data msg_type key collection = do
    reply ←
        core_request env stub.core msg_type
          (env.codecs.get_state.encode (record { key = key; collection = collection }))
    pure reply.payload

  unfoldable pub put_data : Text → Text → Bytes → Exec W (Unit {0})
  put_data collection key value =
      if is_empty key then fail (invalid_argument (str "key must not be empty")) else (do
        core_request env stub.core MsgType.put_state (
            env.codecs.put_state.encode
              (record { key = key; value = value; collection = collection }))
        pure tt)

  unfoldable pub del_data : Text → Text → Exec W (Unit {0})
  del_data collection key = do
    core_request env stub.core MsgType.del_state
        (env.codecs.del_state.encode (record { key = key; collection = collection }))
    pure tt

  -- lines 431-440
  query_metadata : Option QueryMetadata → Bytes
  query_metadata none = []
  query_metadata (some m) = env.codecs.query_metadata.encode m

  response_metadata : Bytes → Result (Option QueryResponseMetadata) Error
  response_metadata metadata =
      if is_empty metadata
      then ok none
      else elim (decoded (env.codecs.query_response_metadata.decode metadata)) [
        | ok m ↦ ok (some m)
        | err e ↦ err e
      ]

  unfoldable pub range_query :
      Text → Text → Text → Option QueryMetadata → Exec W (QueryIter × Option QueryResponseMetadata)
  unfolding query_metadata response_metadata
  range_query collection start_key end_key metadata = do
    reply ← core_request env stub.core MsgType.get_state_by_range (
        env.codecs.get_state_by_range.encode (record {
          start_key = start_key;
          end_key = end_key;
          collection = collection;
          metadata = query_metadata metadata;
        }))
    resp ← lift (decoded (env.codecs.query_response.decode reply.payload))
    response_meta ← lift (response_metadata resp.metadata)
    pure (new_iter stub.core resp, response_meta)

  unfoldable pub get_state : Text → Exec W Bytes
  unfolding get_data
  get_state key = get_data MsgType.get_state key []

  unfoldable pub put_state : Text → Bytes → Exec W (Unit {0})
  unfolding put_data
  put_state key value = put_data [] key value

  unfoldable pub del_state : Text → Exec W (Unit {0})
  unfolding del_data
  del_state key = del_data [] key

  unfoldable pub get_state_by_range : Text → Text → Exec W QueryIter
  unfolding range_query
  get_state_by_range start_key end_key = do
    found ← range_query [] start_key end_key none
    pure found.0

  unfoldable pub get_state_by_range_with_pagination :
      Text → Text → ℤ → Text → Exec W (QueryIter × QueryResponseMetadata)
  unfolding range_query
  get_state_by_range_with_pagination start_key end_key page_size bookmark = do
    found ←
        range_query [] start_key end_key
          (some (record { page_size = page_size; bookmark = bookmark }))
    pure (found.0, or_else found.1 default_query_response_metadata)

  unfoldable pub get_query_result : Text → Exec W QueryIter
  get_query_result query = do
    reply ← core_request env stub.core MsgType.get_query_result (
        env.codecs.get_query_result.encode
          (record { query = query; collection = []; metadata = [] }))
    resp ← lift (decoded (env.codecs.query_response.decode reply.payload))
    pure (new_iter stub.core resp)

  unfoldable pub get_history_for_key : Text → Exec W QueryIter
  get_history_for_key key = do
    reply ←
        core_request env stub.core MsgType.get_history_for_key
          (env.codecs.get_history_for_key.encode (record { key = key }))
    resp ← lift (decoded (env.codecs.query_response.decode reply.payload))
    pure (new_iter stub.core resp)

  unfoldable pub get_state_by_partial_composite_key : Text → List Text → Exec W QueryIter
  unfolding get_state_by_range
  get_state_by_partial_composite_key object_type attributes = do
    prefix ← lift (create_composite_key env.debug_str object_type attributes)
    get_state_by_range prefix (prefix ++ max_unicode_rune ∷ [])

  unfoldable pub get_private_data : Text → Text → Exec W Bytes
  unfolding get_data
  get_private_data collection key = do
    lift (require_collection collection)
    get_data MsgType.get_state key collection

  unfoldable pub get_private_data_hash : Text → Text → Exec W Bytes
  unfolding get_data
  get_private_data_hash collection key = do
    lift (require_collection collection)
    get_data MsgType.get_private_data_hash key collection

  unfoldable pub put_private_data : Text → Text → Bytes → Exec W (Unit {0})
  unfolding put_data
  put_private_data collection key value = do
    lift (require_collection collection)
    put_data collection key value

  unfoldable pub del_private_data : Text → Text → Exec W (Unit {0})
  unfolding del_data
  del_private_data collection key = do lift (require_collection collection); del_data collection key

  unfoldable pub purge_private_data : Text → Text → Exec W (Unit {0})
  purge_private_data collection key = do
    lift (require_collection collection)
    core_request env stub.core MsgType.purge_private_data
        (env.codecs.purge_private_state.encode (record { key = key; collection = collection }))
    pure tt

  unfoldable pub get_private_data_by_range : Text → Text → Text → Exec W QueryIter
  unfolding range_query
  get_private_data_by_range collection start_key end_key = do
    lift (require_collection collection)
    found ← range_query collection start_key end_key none
    pure found.0

  unfoldable pub set_event : Text → Bytes → Exec W (Unit {0})
  set_event name payload s =
      if is_empty name
      then (done (err (invalid_argument (str "event name must not be empty"))), s)
      else (
        done (ok tt),
        record s {
          event = some (record {
            chaincode_id = [];
            tx_id = stub.core.tx_id;
            event_name = name;
            payload = payload;
          });
        },
      )

  -- lines 371-381: the RESPONSE nests the callee's terminal message
  nested_response : ChaincodeMessage → Result Response Error
  nested_response inner = elim (type_of inner) [
    | MsgType.completed ↦ elim (decoded (env.codecs.response.decode inner.payload)) [
      | ok p ↦ ok (from_proto p)
      | err e ↦ err e
    ]
    | MsgType.error ↦ err (peer (from_utf8_lossy inner.payload))
    | other ↦ err (
        protocol
          (str "unexpected nested message type " ++ debug other ++ str " from invoked chaincode"))
  ]

  -- lines 348-365; the type is `Undefined`
  unfoldable pub callee_spec : Text → List Bytes → Text → ChaincodeSpec
  callee_spec chaincode_name args channel = record {
    type = pos 0;
    chaincode_id = some (record {
      path = [];
      name = if is_empty channel then chaincode_name else chaincode_name ++ str "/" ++ channel;
      version = [];
    });
    input = some (record { args = args; decorations = []; is_init = false });
    timeout = pos 0;
  }

  unfoldable pub invoke_chaincode : Text → List Bytes → Text → Exec W Response
  unfolding nested_response
  invoke_chaincode chaincode_name args channel = do
    reply ←
        core_request env stub.core MsgType.invoke_chaincode
          (env.codecs.chaincode_spec.encode (callee_spec chaincode_name args channel))
    inner ← lift (decoded (env.codecs.chaincode_message.decode reply.payload))
    lift (nested_response inner)
