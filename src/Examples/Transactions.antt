-- ===== src/Examples/Transactions.antt =====
-- Requests, queries and transactions with the concrete peer.
use fabric_chaincode_rs.Prelude.{
  ◌≡◌, refl, true, false, Option, none, some, List, [], ◌∷◌, ◌++◌, Text, Bytes, str, list_Eq,
  nat_Eq, pair_Eq, arith,
}
use fabric_chaincode_rs.Prelude.Map
use fabric_chaincode_rs.Error.{Result, ok}
use fabric_chaincode_rs.Utf8.{into_bytes, encode_char}
use fabric_chaincode_rs.Response.{success, into_proto}
use fabric_chaincode_rs.Metadata.{Metadata, new_metadata, metadata_function}
use fabric_chaincode_rs.Protos.MsgType.{MsgType, try_from, to_i32}
use fabric_chaincode_rs.Protos.Messages.{
  ChaincodeMessage, ChaincodeInput, QueryResponse, Kv, type_of,
}
use fabric_chaincode_rs.Handler.Link.{new_message, key_of, new_link}
use fabric_chaincode_rs.Session.{Env, Session, done}
use fabric_chaincode_rs.Session.Requests.{Stays}
use fabric_chaincode_rs.Iterators.{collect_remaining, new_iter}
use fabric_chaincode_rs.Iterators.Paging.{
  collect_remaining-Serves, page, exhausted, record_decodes, no_records,
}
use fabric_chaincode_rs.Stub.{ChaincodeStub, new_stub}
use fabric_chaincode_rs.Transaction.{
  returned, Chaincode, handler_for, is_metadata_call, run_transaction,
}
use fabric_chaincode_rs.Transaction.Terminal.{
  response_of, terminal, run_transaction-completes, run_transaction-metadata,
}
use fabric_chaincode_rs.Transaction.Answers.{IsAnswered, run_transaction-IsAnswered}
use fabric_chaincode_rs.Examples.Wire.{wire}
use fabric_chaincode_rs.Examples.Packing.{pack, unpack}
use fabric_chaincode_rs.Examples.Peer.{
  peer, World, core, session, session-IsIdle, midnight, serve, responds,
}

abbrev empty : World
empty = record { state = []; batches = [] }

abbrev reply : ChaincodeMessage
reply = new_message midnight MsgType.response (5 ∷ []) core.channel_id core.tx_id

-- a peer that gives one answer
abbrev constant : Env World
constant = record {
  codecs = wire;
  debug_str = λ t. t;
  now = λ w. midnight;
  reply = λ m w. (some reply, w);
}

abbrev kv : Text → Kv
kv k = record { namespace = []; key = k; value = 1 ∷ [] }

-- two records in the first response, one in the next, which is the last
abbrev second : QueryResponse
second = record {
  results = record { result_bytes = wire.kv.encode (kv (str "c")) } ∷ [];
  has_more = false;
  id = str "q";
  metadata = [];
}

abbrev first : QueryResponse
first = record {
  results =
      record { result_bytes = wire.kv.encode (kv (str "a")) }
      ∷ record { result_bytes = wire.kv.encode (kv (str "b")) }
      ∷ [];
  has_more = true;
  id = str "q";
  metadata = [];
}

abbrev paging : World
paging = record { state = []; batches = second ∷ [] }

collect_remaining-Serves_example :
    (s' : Session World) × (collect_remaining peer 5 (new_iter core first) (session paging)
      ≡ (done (ok (kv (str "a") ∷ kv (str "b") ∷ kv (str "c") ∷ [])), s'))
    × Stays core (session paging) s' empty
unfolding session peer wire serve str pack unpack
collect_remaining-Serves_example =
    collect_remaining-Serves peer core first second.results 1 5 (session paging)
      (kv (str "a") ∷ kv (str "b") ∷ kv (str "c") ∷ []) empty [] empty (session-IsIdle paging)
      (page _ second (responds MsgType.query_state_next (str "q" ∷ []) paging refl) refl exhausted)
      (record_decodes refl (record_decodes refl (record_decodes refl no_records))) (omega arith)
      (responds MsgType.query_state_close (str "q" ∷ []) empty refl)

abbrev with_metadata : Option (Metadata Text) → Chaincode World Text
with_metadata md = record {
  metadata = md;
  init = λ stub s. (returned (success []), s);
  invoke = λ stub s. (returned (success (7 ∷ [])), s);
}

abbrev call : List Bytes → ChaincodeMessage
call args = record (new_message midnight MsgType.transaction [] core.channel_id core.tx_id) {
  payload = pack args;
}

abbrev input : List Bytes → ChaincodeInput
input args = record { args = args; decorations = []; is_init = false }

abbrev to_json : Metadata Text → Result Bytes Text
to_json md = ok md.info.title

abbrev plain_args : List Bytes
plain_args = (1 ∷ []) ∷ []

abbrev plain_stub : ChaincodeStub
plain_stub = record {
  core = core;
  args = plain_args;
  decorations = [];
  signed_proposal = none;
  creator = [];
  transient = [];
  tx_timestamp = none;
}

run_transaction-completes_example :
    ((run_transaction peer to_json (with_metadata none) (call plain_args) (session empty)).0 ≡ true)
    × ((run_transaction peer to_json
          (with_metadata none)
          (call plain_args)
          (session empty)).1.link.sent
        ≡ []
          ++ terminal peer to_json MsgType.completed
              (wire.response.encode (into_proto (success (7 ∷ []))))
              none
              (call plain_args)
              (session empty)
            ∷ [])
    × (Map.get
          (key_of (call plain_args))
          (run_transaction peer to_json
            (with_metadata none)
            (call plain_args)
            (session empty)).1.link.pending
        ≡ none)
unfolding peer unpack pack is_metadata_call list_Eq into_bytes metadata_function encode_char
    new_stub new_message handler_for type_of try_from to_i32 session response_of new_link
run_transaction-completes_example =
    run_transaction-completes peer to_json (with_metadata none) (call plain_args) (input plain_args)
      plain_stub (returned (success (7 ∷ []))) (session empty) (session empty) (success (7 ∷ []))
      refl refl refl refl refl refl

run_transaction-IsAnswered_example :
    IsAnswered peer to_json
      (with_metadata none)
      (call plain_args)
      (session empty)
      (run_transaction peer to_json (with_metadata none) (call plain_args) (session empty)).1
unfolding run_transaction peer unpack pack list_Eq into_bytes metadata_function encode_char new_stub
    new_message handler_for type_of try_from to_i32
run_transaction-IsAnswered_example =
    run_transaction-IsAnswered peer to_json (with_metadata none) (call plain_args) (session empty)
      refl

abbrev described : Metadata Text
described = new_metadata (str "demo") (str "1")

abbrev metadata_args : List Bytes
metadata_args = into_bytes metadata_function ∷ []

run_transaction-metadata_example :
    let t =
      run_transaction peer to_json
        (with_metadata (some described))
        (call metadata_args)
        (session empty) in
    (t.0 ≡ true)
    × (t.1.link.sent
        ≡ []
          ++ terminal peer to_json MsgType.completed
              (wire.response.encode (into_proto (success described.info.title)))
              none
              (call metadata_args)
              (session empty)
            ∷ [])
    × (t.1.link.pending ≡ [])
    × (t.1.world ≡ empty)
    × (t.1.event ≡ none)
unfolding peer unpack pack into_bytes metadata_function encode_char session new_link
run_transaction-metadata_example =
    run_transaction-metadata peer to_json (with_metadata (some described)) (call metadata_args)
      (input metadata_args) [] described described.info.title (session empty) refl refl refl refl
      refl
