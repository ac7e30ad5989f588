-- ===== src/Examples/Assets.antt =====
-- The asset contract against the concrete peer.
use fabric_chaincode_rs.Prelude.{List, [], ◌∷◌, Text, Bytes, str}
use fabric_chaincode_rs.Error.{Result, ok, err}
use fabric_chaincode_rs.Session.Refinement.{Refines}
use fabric_chaincode_rs.AssetTransfer.{Asset, create_asset, update_asset, transfer_asset}
use fabric_chaincode_rs.AssetTransfer.Specs.{create_spec, update_spec, transfer_spec}
use fabric_chaincode_rs.AssetTransfer.Refinement.{
  create_asset-Refines, update_asset-Refines, transfer_asset-Refines,
}
use fabric_chaincode_rs.Examples.Packing.{pack, unpack}
use fabric_chaincode_rs.Examples.Peer.{peer, core, ledger}
use fabric_chaincode_rs.Examples.Keys.{stub_of}

abbrev pub to_json : Asset → Result Bytes Text
to_json a = ok (pack (a.id ∷ a.color ∷ (a.size ∷ []) ∷ a.owner ∷ (a.appraised_value ∷ []) ∷ []))

parse_fields : List Bytes → Result Asset Text
parse_fields (id ∷ color ∷ (size ∷ _) ∷ owner ∷ (value ∷ _) ∷ []) =
    ok (record { id = id; color = color; size = size; owner = owner; appraised_value = value })
parse_fields _ = err (str "expected an asset")

abbrev pub from_json : Bytes → Result Asset Text
unfolding parse_fields
from_json b = parse_fields (unpack b)

abbrev pub asset : Asset
asset = record {
  id = str "asset7";
  color = str "teal";
  size = 3;
  owner = str "Ada";
  appraised_value = 900;
}

create_asset-Refines_example :
    Refines core
      (create_asset peer to_json from_json (stub_of []) asset)
      (create_spec peer to_json from_json (stub_of []) ledger asset)
create_asset-Refines_example = create_asset-Refines peer to_json from_json (stub_of []) ledger asset

update_asset-Refines_example :
    Refines core
      (update_asset peer to_json from_json (stub_of []) asset)
      (update_spec peer to_json from_json (stub_of []) ledger asset)
update_asset-Refines_example = update_asset-Refines peer to_json from_json (stub_of []) ledger asset

transfer_asset-Refines_example :
    Refines core
      (transfer_asset peer to_json from_json (stub_of []) (str "asset7") (str "Bob"))
      (transfer_spec peer to_json from_json (stub_of []) ledger (str "asset7") (str "Bob"))
transfer_asset-Refines_example =
    transfer_asset-Refines peer to_json from_json (stub_of []) ledger (str "asset7") (str "Bob")
