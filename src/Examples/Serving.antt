-- ===== src/Examples/Serving.antt =====
-- Whole transactions of the asset contract with the concrete peer.
use fabric_chaincode_rs.Prelude.{
  ◌≡◌, refl, false, none, List, [], ◌∷◌, ◌++◌, map, Text, Bytes, str, list_Eq, arith, ℕ,
}
use fabric_chaincode_rs.Error.{Result, ok}
use fabric_chaincode_rs.Utf8.{into_bytes, encode_char}
use fabric_chaincode_rs.Response.{error}
use fabric_chaincode_rs.Metadata.{Metadata, new_metadata, metadata_function}
use fabric_chaincode_rs.Protos.MsgType.{MsgType}
use fabric_chaincode_rs.Protos.Messages.{ChaincodeMessage, ChaincodeInput}
use fabric_chaincode_rs.Handler.Link.{new_message, new_link}
use fabric_chaincode_rs.Stub.{new_stub}
use fabric_chaincode_rs.Contract.{chaincode, find_method}
use fabric_chaincode_rs.Contract.Numbers.{max_value}
use fabric_chaincode_rs.Contract.Serving.{IsServed, answer, run_transaction-IsRefused}
use fabric_chaincode_rs.Contract.Routing.{unknown, letters, letters-IsText, letters-IsSimple}
use fabric_chaincode_rs.Transaction.{run_transaction, is_metadata_call}
use fabric_chaincode_rs.AssetTransfer.{QueryResult}
use fabric_chaincode_rs.AssetTransfer.Contract.{transactions, into_payload}
use fabric_chaincode_rs.AssetTransfer.Calls.{
  create_asset, function, parameters, request_spec, IsAsset,
}
use fabric_chaincode_rs.AssetTransfer.Serving.{run_transaction-request}
use fabric_chaincode_rs.Examples.Wire.{wire}
use fabric_chaincode_rs.Examples.Packing.{pack, unpack-pack}
use fabric_chaincode_rs.Examples.Peer.{peer, World, core, ledger, session, session-IsIdle, midnight}
use fabric_chaincode_rs.Examples.Keys.{stub_of, is_ascii, is_ascii-IsText}
use fabric_chaincode_rs.Examples.Assets.{to_json, from_json, asset}

abbrev pub no_text : Bytes → Text
no_text b = []

abbrev pub show : ℕ → Text
show n = []

abbrev pub metadata_json : Metadata Text → Result Bytes Text
metadata_json md = ok md.info.title

abbrev pub results_json : List QueryResult → Result Bytes Text
results_json rs = ok []

abbrev pub described : Metadata Text
described = new_metadata (str "AssetTransfer") (str "1")

abbrev pub call : List Bytes → ChaincodeMessage
call args = record (new_message midnight MsgType.transaction [] core.channel_id core.tx_id) {
  payload = pack args;
}

abbrev input : List Bytes → ChaincodeInput
input args = record { args = args; decorations = []; is_init = false }

call_decodes :
    (args : List Bytes) → peer.codecs.chaincode_input.decode (call args).payload ≡ ok (input args)
unfolding peer wire new_message
call_decodes args = rw (unpack-pack args) refl

stub_built :
    (args : List Bytes)
    → new_stub peer.codecs (call args).channel_id (call args).txid (input args) (call args).proposal
      ≡ ok (stub_of args)
unfolding new_stub new_message
stub_built args = refl

abbrev pub no_world : World
no_world = record { state = []; batches = [] }

abbrev pub create_args : List Bytes
create_args = map into_bytes (function (create_asset asset) ∷ parameters (create_asset asset))

asset-IsAsset : IsAsset asset
unfolding is_ascii str max_value
asset-IsAsset = record {
  id = is_ascii-IsText (str "asset7") refl;
  color = is_ascii-IsText (str "teal") refl;
  size = omega arith;
  owner = is_ascii-IsText (str "Ada") refl;
  appraised_value = omega arith;
}

run_transaction-request_example :
    let (result, w, event) =
      request_spec peer to_json from_json no_text
        (stub_of create_args)
        ledger
        (create_asset asset)
        no_world
        none in
    let contract =
      chaincode show
        (into_payload to_json results_json)
        described
        (transactions peer to_json from_json no_text 0) in
    (requests : List ChaincodeMessage) × IsServed peer
      (call create_args)
      (run_transaction peer metadata_json contract (call create_args) (session no_world))
      requests
      (answer (into_payload to_json results_json) result)
      w
      event
unfolding session
run_transaction-request_example =
    run_transaction-request peer to_json from_json no_text 0 (stub_of create_args) ledger
      metadata_json described show results_json (create_asset asset) (call create_args)
      (input create_args) (session no_world) asset-IsAsset (call_decodes create_args) refl
      (stub_built create_args) (session-IsIdle no_world)

abbrev steal_args : List Bytes
steal_args = into_bytes (str "StealAsset") ∷ []

run_transaction-IsRefused_example :
    IsServed peer
      (call steal_args)
      (run_transaction peer metadata_json
        (chaincode show
          (into_payload to_json results_json)
          described
          (transactions peer to_json from_json no_text 0))
        (call steal_args)
        (session no_world))
      []
      (error (str "unknown function " ++ str "StealAsset"))
      no_world
      none
unfolding session new_link str letters is_metadata_call into_bytes encode_char metadata_function
    list_Eq find_method transactions
run_transaction-IsRefused_example =
    run_transaction-IsRefused peer metadata_json show (into_payload to_json results_json) described
      (transactions peer to_json from_json no_text 0) (call steal_args) (input steal_args)
      (stub_of steal_args) (session no_world) (call_decodes steal_args) refl (stub_built steal_args)
      (str "StealAsset") [] (str "unknown function " ++ str "StealAsset") refl
      (letters-IsText (str "StealAsset") refl) (letters-IsSimple (str "StealAsset") refl)
      (unknown refl) refl
