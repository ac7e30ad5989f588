-- ===== src/AssetTransfer.antt =====
-- examples/asset-transfer/src/main.rs: the reference chaincode, its transactions as actions on the
-- session. serde_json on `Asset` is a parameter: `to_json` is `to_vec`, `from_json` is `from_slice`,
-- each with its error displayed. A `u32` or `u64` field is a number; the parsing of arguments, which
-- bounds it, is the contract's.
pub mod Specs
pub mod Refinement
pub mod Listing
pub mod Contract
pub mod Calls
pub mod Arguments
pub mod Serving
pub mod Connected
use fabric_chaincode_rs.Prelude.{
  ℕ, ◌≡◌, refl, Bool, true, false, not, Option, none, some, List, [], ◌∷◌, ◌++◌, Text, Bytes, str,
  is_empty, if◌then◌else◌, list_Eq, nat_Eq,
}
use fabric_chaincode_rs.Prelude.Map
use fabric_chaincode_rs.Utf8.{from_utf8}
use fabric_chaincode_rs.Error.{Error, Result, ok, err, invalid_argument, map_err, ok_or}
use fabric_chaincode_rs.Protos.Messages.{Kv}
use fabric_chaincode_rs.Session.{Env, Exec, Outcome, pure, fail, lift, ◌>>=◌, ◌>>◌}
use fabric_chaincode_rs.Iterators.{collect_remaining}
use fabric_chaincode_rs.Stub.{ChaincodeStub, get_transient}
use fabric_chaincode_rs.Stub.Calls.{get_state, put_state, del_state, get_state_by_range, set_event}

pub record Asset : Type 0 where
  pub id : Text
  pub color : Text
  pub size : ℕ  -- u32
  pub owner : Text
  pub appraised_value : ℕ  -- u64

pub record QueryResult : Type 0 where
  pub key : Text
  pub record_value : Asset

-- the array of `init_ledger`
abbrev pub sample_assets : List Asset
sample_assets =
    record {
      id = str "asset1";
      color = str "blue";
      size = 5;
      owner = str "Tomoko";
      appraised_value = 300;
    }
    ∷ record {
      id = str "asset2";
      color = str "red";
      size = 5;
      owner = str "Brad";
      appraised_value = 400;
    }
    ∷ record {
      id = str "asset3";
      color = str "green";
      size = 10;
      owner = str "Jin Soo";
      appraised_value = 500;
    }
    ∷ record {
      id = str "asset4";
      color = str "yellow";
      size = 10;
      owner = str "Max";
      appraised_value = 600;
    }
    ∷ record {
      id = str "asset5";
      color = str "black";
      size = 15;
      owner = str "Adriana";
      appraised_value = 700;
    }
    ∷ record {
      id = str "asset6";
      color = str "white";
      size = 15;
      owner = str "Michel";
      appraised_value = 800;
    }
    ∷ []

module _ {W : Type 0} (env : Env W) (to_json : Asset → Result Bytes Text)
    (from_json : Bytes → Result Asset Text) (ctx : ChaincodeStub) where
  -- lines 44-50
  parse_asset : Text → Bytes → Result Asset Error
  parse_asset id bytes =
      if is_empty bytes
      then err (invalid_argument (str "the asset " ++ id ++ str " does not exist"))
      else map_err (λ e. invalid_argument (str "stored asset " ++ id ++ str " is corrupt: " ++ e))
          (from_json bytes)

  get_asset : Text → Exec W Asset
  unfolding parse_asset
  get_asset id = do bytes ← get_state env ctx id; lift (parse_asset id bytes)

  asset_json : Asset → Result Bytes Error
  asset_json asset = map_err (λ e. invalid_argument (str "serialize asset: " ++ e)) (to_json asset)

  put_asset : Asset → Exec W (Unit {0})
  unfolding asset_json
  put_asset asset = do json ← lift (asset_json asset); put_state env ctx asset.id json

  put_assets : List Asset → Exec W (Unit {0})
  put_assets [] = pure tt
  put_assets (asset ∷ assets) = do put_asset asset; put_assets assets

  unfoldable pub init_ledger : Exec W (Unit {0})
  unfolding put_assets put_asset
  init_ledger = put_assets sample_assets

  unfoldable pub create_asset : Asset → Exec W (Unit {0})
  unfolding put_asset
  create_asset asset = do
    bytes ← get_state env ctx asset.id
    if not (is_empty bytes)
        then fail (invalid_argument (str "the asset " ++ asset.id ++ str " already exists"))
        else put_asset asset

  unfoldable pub read_asset : Text → Exec W Asset
  unfolding get_asset
  read_asset id = get_asset id

  unfoldable pub update_asset : Asset → Exec W (Unit {0})
  unfolding get_asset put_asset
  update_asset asset = do get_asset asset.id; put_asset asset

  unfoldable pub delete_asset : Text → Exec W (Unit {0})
  unfolding get_asset
  delete_asset id = do get_asset id; del_state env ctx id

  unfoldable pub asset_exists : Text → Exec W Bool
  asset_exists id = do bytes ← get_state env ctx id; pure (not (is_empty bytes))

  -- `unwrap` on the JSON: it has been made once, so a failure here has been an error before
  event_json : Asset → Bytes
  event_json asset = elim (to_json asset) [ ok json ↦ json | err e ↦ [] ]

  unfoldable pub transfer_asset : Text → Text → Exec W Text
  unfolding get_asset put_asset event_json
  transfer_asset id new_owner = do
    asset ← get_asset id
    let moved = record asset { owner = new_owner }
    put_asset moved
    set_event env ctx (str "AssetTransferred") (event_json moved)
    pure asset.owner

  -- lines 173-181: a record that is no asset is skipped
  kept : Kv → Result Asset Text → List QueryResult → List QueryResult
  kept kv (ok asset) rest = record { key = kv.key; record_value = asset } ∷ rest
  kept kv (err e) rest = rest

  assets_of : List Kv → List QueryResult
  unfolding kept
  assets_of [] = []
  assets_of (kv ∷ kvs) = kept kv (from_json kv.value) (assets_of kvs)

  -- with fuel for the iterator
  unfoldable pub get_all_assets : ℕ → Exec W (List QueryResult)
  unfolding assets_of
  get_all_assets fuel = do
    iter ← get_state_by_range env ctx [] []
    kvs ← collect_remaining env fuel iter
    pure (assets_of kvs)

  -- the error of `String::from_utf8` is not shown by the model; its text is `utf8_error`
  unfoldable pub read_transient : (Bytes → Text) → Exec W Text
  read_transient utf8_error = do
    value ← lift (
        ok_or (Map.get (str "asset_properties") (get_transient ctx))
          (invalid_argument (str "transient field asset_properties not set")))
    lift (ok_or (from_utf8 value) (invalid_argument (utf8_error value)))
