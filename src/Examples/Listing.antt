-- ===== src/Examples/Listing.antt =====
-- A listing of all assets in two batches, with a record that is no asset.
use fabric_chaincode_rs.Prelude.{
  ◌≡◌, refl, true, false, List, [], ◌∷◌, Text, Bytes, str, arith, list_Eq,
}
use fabric_chaincode_rs.Error.{ok}
use fabric_chaincode_rs.Protos.MsgType.{MsgType}
use fabric_chaincode_rs.Protos.Messages.{QueryResponse, Kv}
use fabric_chaincode_rs.Session.{Session, done}
use fabric_chaincode_rs.Session.Requests.{Stays}
use fabric_chaincode_rs.Iterators.Paging.{page, exhausted, record_decodes, no_records}
use fabric_chaincode_rs.Stub.Calls.Scan.{Scans}
use fabric_chaincode_rs.AssetTransfer.{QueryResult, get_all_assets}
use fabric_chaincode_rs.AssetTransfer.Listing.{IsListing, get_all_assets-Scans}
use fabric_chaincode_rs.Examples.Wire.{wire}
use fabric_chaincode_rs.Examples.Packing.{pack, unpack}
use fabric_chaincode_rs.Examples.Peer.{peer, World, core, session, session-IsIdle, serve, responds}
use fabric_chaincode_rs.Examples.Keys.{stub_of}
use fabric_chaincode_rs.Examples.Assets.{to_json, from_json, asset}

abbrev kv : Text → Bytes → Kv
kv k v = record { namespace = []; key = k; value = v }

abbrev asset_bytes : Bytes
asset_bytes =
    pack
      (asset.id ∷ asset.color ∷ (asset.size ∷ []) ∷ asset.owner ∷ (asset.appraised_value ∷ []) ∷ [])

abbrev kvs : List Kv
kvs = kv (str "asset7") asset_bytes ∷ kv (str "other") (1 ∷ []) ∷ []

abbrev last : QueryResponse
last = record {
  results = record { result_bytes = wire.kv.encode (kv (str "other") (1 ∷ [])) } ∷ [];
  has_more = false;
  id = str "q";
  metadata = [];
}

abbrev first : QueryResponse
first = record {
  results = record { result_bytes = wire.kv.encode (kv (str "asset7") asset_bytes) } ∷ [];
  has_more = true;
  id = str "q";
  metadata = [];
}

abbrev holding : List QueryResponse → World
holding batches = record { state = []; batches = batches }

scans : Scans peer (stub_of []) 4 [] [] (holding (first ∷ last ∷ [])) kvs (holding [])
unfolding peer wire serve str pack unpack
scans = record {
  body = wire.query_response.encode first;
  resp = first;
  asked = holding (last ∷ []);
  responds = responds MsgType.get_state_by_range [] (holding (first ∷ last ∷ [])) refl;
  decodes = refl;
  no_metadata = refl;
  rest = last.results;
  batches = 1;
  ended = holding [];
  serves =
      page _ last (responds MsgType.query_state_next (str "q" ∷ []) (holding (last ∷ [])) refl) refl
        exhausted;
  records = record_decodes refl (record_decodes refl no_records);
  enough = omega arith;
  answer = [];
  closes = responds MsgType.query_state_close (str "q" ∷ []) (holding []) refl;
}

get_all_assets-Scans_example :
    (results : List QueryResult) × (s' : Session World) × (get_all_assets peer to_json from_json
        (stub_of [])
        4
        (session (holding (first ∷ last ∷ [])))
      ≡ (done (ok results), s'))
    × IsListing from_json kvs results
    × Stays core (session (holding (first ∷ last ∷ []))) s' (holding [])
unfolding session
get_all_assets-Scans_example =
    get_all_assets-Scans peer to_json from_json (stub_of []) 4
      (session (holding (first ∷ last ∷ []))) kvs (holding [])
      (session-IsIdle (holding (first ∷ last ∷ []))) scans
