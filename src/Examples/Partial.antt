-- ===== src/Examples/Partial.antt =====
-- A query by a partial composite key, of a state with two composite keys.
use fabric_chaincode_rs.Prelude.{
  ◌≡◌, refl, false, List, [], ◌∷◌, ◌++◌, Text, str, arith, list_Eq, filter_by,
}
use fabric_chaincode_rs.Error.{ok}
use fabric_chaincode_rs.CompositeKey.{create_composite_key, validate_composite_component}
use fabric_chaincode_rs.CompositeKey.Range.{in_range, text_lt}
use fabric_chaincode_rs.Protos.MsgType.{MsgType}
use fabric_chaincode_rs.Protos.Messages.{QueryResponse, Kv}
use fabric_chaincode_rs.Session.{Session, done}
use fabric_chaincode_rs.Session.Requests.{Stays}
use fabric_chaincode_rs.Iterators.{QueryIter, collect_remaining}
use fabric_chaincode_rs.Iterators.Paging.{exhausted, record_decodes, no_records}
use fabric_chaincode_rs.Stub.Calls.{get_state_by_partial_composite_key}
use fabric_chaincode_rs.Stub.Calls.Scan.{Scans}
use fabric_chaincode_rs.Stub.Calls.Partial.{Entry, in_the_range, under, partial_query-under}
use fabric_chaincode_rs.Examples.Wire.{wire}
use fabric_chaincode_rs.Examples.Packing.{pack, unpack}
use fabric_chaincode_rs.Examples.Peer.{peer, World, core, session, session-IsIdle, serve, responds}
use fabric_chaincode_rs.Examples.Keys.{stub_of, is_ascii, is_ascii-IsText}

abbrev prefix : Text
prefix = 0 ∷ str "owner" ++ 0 ∷ str "Max" ++ 0 ∷ []

abbrev owned : Kv
owned = record {
  namespace = [];
  key = 0 ∷ str "owner" ++ 0 ∷ str "Max" ++ 0 ∷ str "asset4" ++ 0 ∷ [];
  value = 1 ∷ [];
}

abbrev colored : Kv
colored = record {
  namespace = [];
  key = 0 ∷ str "color" ++ 0 ∷ str "red" ++ 0 ∷ [];
  value = 2 ∷ [];
}

abbrev entries : List Entry
entries =
    record { object_type = str "owner"; attributes = str "Max" ∷ str "asset4" ∷ []; kv = owned }
    ∷ record { object_type = str "color"; attributes = str "red" ∷ []; kv = colored }
    ∷ []

abbrev batch : QueryResponse
batch = record {
  results = record { result_bytes = wire.kv.encode owned } ∷ [];
  has_more = false;
  id = str "q";
  metadata = [];
}

abbrev holding : List QueryResponse → World
holding batches = record { state = []; batches = batches }

scans :
    Scans peer
      (stub_of [])
      3
      prefix
      (prefix ++ 0x10FFFF ∷ [])
      (holding (batch ∷ []))
      (in_the_range prefix (prefix ++ 0x10FFFF ∷ []) entries)
      (holding [])
unfolding peer wire serve str pack unpack in_range text_lt filter_by
scans = record {
  body = wire.query_response.encode batch;
  resp = batch;
  asked = holding [];
  responds = responds MsgType.get_state_by_range [] (holding (batch ∷ [])) refl;
  decodes = refl;
  no_metadata = refl;
  rest = [];
  batches = 0;
  ended = holding [];
  serves = exhausted;
  records = record_decodes refl no_records;
  enough = omega arith;
  answer = [];
  closes = responds MsgType.query_state_close (str "q" ∷ []) (holding []) refl;
}

partial_query-under_example :
    (it : QueryIter) × (s1 s' : Session World) × (get_state_by_partial_composite_key peer
        (stub_of [])
        (str "owner")
        (str "Max" ∷ [])
        (session (holding (batch ∷ [])))
      ≡ (done (ok it), s1))
    × (collect_remaining peer 3 it s1
        ≡ (done (ok (under (str "owner") (str "Max" ∷ []) entries)), s'))
    × Stays core (session (holding (batch ∷ []))) s' (holding [])
unfolding session peer create_composite_key str validate_composite_component is_ascii list_Eq
partial_query-under_example =
    partial_query-under peer (stub_of []) 3 (str "owner") (str "Max" ∷ []) prefix entries
      (session (holding (batch ∷ []))) (holding []) refl
      (
        record {
          texts = (
            is_ascii-IsText (str "owner") refl,
            (is_ascii-IsText (str "Max") refl, (is_ascii-IsText (str "asset4") refl, _)),
          );
          key = refl;
        },
        (
          record {
            texts = (is_ascii-IsText (str "color") refl, (is_ascii-IsText (str "red") refl, _));
            key = refl;
          },
          _,
        ),
      )
      (session-IsIdle (holding (batch ∷ []))) scans
