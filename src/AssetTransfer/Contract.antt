-- ===== src/AssetTransfer/Contract.antt =====
-- examples/asset-transfer/src/main.rs, lines 66-203: the contract that `#[contract]` makes of the
-- methods, each with its parameters' conversions and its result's.
--
-- `utf8_error` is the text of `Utf8Error`, `results_json` is serde_json's `to_vec` on a list of
-- query results with its error displayed, and `fuel` is that of `get_all_assets`.
use fabric_chaincode_rs.Prelude.{ℕ, Bool, List, [], ◌∷◌, Text, Bytes, str, ℤ, pos, negsuc}
use fabric_chaincode_rs.Error.{Result, map_ok}
use fabric_chaincode_rs.Session.{Env, Session, Exec, pure, ◌>>=◌, ◌>>◌}
use fabric_chaincode_rs.Stub.{ChaincodeStub}
use fabric_chaincode_rs.Contract.{Param, TxMethod, Called, stuck, executed}
use fabric_chaincode_rs.Contract.Conversions.{
  string_from_arg, string_into_payload, bool_into_payload, unit_into_payload, vec_into_payload,
}
use fabric_chaincode_rs.Contract.DataType.{struct_into_payload}
use fabric_chaincode_rs.Contract.Numbers.{IntType, u32, u64, int_from_arg}
use fabric_chaincode_rs.AssetTransfer.{
  Asset, QueryResult, init_ledger, create_asset, read_asset, update_asset, delete_asset,
  asset_exists, transfer_asset, get_all_assets, read_transient,
}

-- the sum of the parameters' types
pub data Value : Type 0 where
  string : Text → Value
  int : ℤ → Value

-- the sum of the results' types
pub data Payload : Type 0 where
  unit : Payload
  string : Text → Payload
  bool : Bool → Payload
  asset : Asset → Payload
  results : List QueryResult → Payload

-- the number that a value of an unsigned type is
unfoldable pub natural : ℤ → ℕ
natural (pos n) = n
natural (negsuc _) = 0

module _ (utf8_error : Bytes → Text) where
  unfoldable pub string_param : Text → Param Value
  string_param name = record {
    name = name;
    from_arg = λ raw. map_ok Value.string (string_from_arg utf8_error raw);
  }

  unfoldable pub int_param : IntType → Text → Param Value
  int_param t name = record {
    name = name;
    from_arg = λ raw. map_ok int (int_from_arg utf8_error t raw);
  }

  -- the parameters of `create_asset` and `update_asset`
  unfoldable pub asset_params : List (Param Value)
  unfolding string_param int_param
  asset_params =
      string_param (str "id")
      ∷ string_param (str "color")
      ∷ int_param u32 (str "size")
      ∷ string_param (str "owner")
      ∷ int_param u64 (str "appraisedValue")
      ∷ []

module _ (to_json : Asset → Result Bytes Text)
    (results_json : List QueryResult → Result Bytes Text) where
  unfoldable pub into_payload : Payload → Result Bytes Text
  into_payload unit = unit_into_payload tt
  into_payload (string s) = string_into_payload s
  into_payload (bool b) = bool_into_payload b
  into_payload (asset a) = struct_into_payload (str "Asset") to_json a
  into_payload (results rs) = vec_into_payload results_json rs

module _ {W : Type 0} where
  -- A method's call. The parsed values have the parameters' types, so no other list comes.
  unfoldable pub with_nothing :
      (ChaincodeStub → Exec W Payload)
      → ChaincodeStub
      → List Value
      → Session W
      → Called Payload × Session W
  with_nothing m stub [] = executed (m stub)
  with_nothing m stub _ = λ s. (stuck, s)

  unfoldable pub with_id :
      (ChaincodeStub → Text → Exec W Payload)
      → ChaincodeStub
      → List Value
      → Session W
      → Called Payload × Session W
  with_id m stub (Value.string id ∷ []) = executed (m stub id)
  with_id m stub _ = λ s. (stuck, s)

  unfoldable pub with_owner :
      (ChaincodeStub → Text → Text → Exec W Payload)
      → ChaincodeStub
      → List Value
      → Session W
      → Called Payload × Session W
  with_owner m stub (Value.string id ∷ Value.string owner ∷ []) = executed (m stub id owner)
  with_owner m stub _ = λ s. (stuck, s)

  unfoldable pub with_asset :
      (ChaincodeStub → Asset → Exec W Payload)
      → ChaincodeStub
      → List Value
      → Session W
      → Called Payload × Session W
  unfolding natural
  with_asset m stub
        (Value.string id ∷ Value.string color ∷ int size ∷ Value.string owner ∷ int value ∷ []) =
      executed (
        m stub (record {
          id = id;
          color = color;
          size = natural size;
          owner = owner;
          appraised_value = natural value;
        }))
  with_asset m stub _ = λ s. (stuck, s)

module _ {W : Type 0} (env : Env W) (to_json : Asset → Result Bytes Text)
    (from_json : Bytes → Result Asset Text) (utf8_error : Bytes → Text) (fuel : ℕ) where
  unfoldable pub transactions : List (TxMethod W Value Payload)
  unfolding asset_params with_nothing with_id with_owner with_asset
  transactions =
      record {
        wire_name = str "InitLedger";
        params = [];
        method = with_nothing (λ ctx. do init_ledger env to_json from_json ctx; pure unit);
      }
      ∷ record {
        wire_name = str "CreateAsset";
        params = asset_params utf8_error;
        method = with_asset (λ ctx a. do create_asset env to_json from_json ctx a; pure unit);
      }
      ∷ record {
        wire_name = str "ReadAsset";
        params = string_param utf8_error (str "id") ∷ [];
        method = with_id (λ ctx id. do a ← read_asset env to_json from_json ctx id; pure (asset a));
      }
      ∷ record {
        wire_name = str "UpdateAsset";
        params = asset_params utf8_error;
        method = with_asset (λ ctx a. do update_asset env to_json from_json ctx a; pure unit);
      }
      ∷ record {
        wire_name = str "DeleteAsset";
        params = string_param utf8_error (str "id") ∷ [];
        method = with_id (λ ctx id. do delete_asset env to_json from_json ctx id; pure unit);
      }
      ∷ record {
        wire_name = str "AssetExists";
        params = string_param utf8_error (str "id") ∷ [];
        method =
            with_id (λ ctx id. do b ← asset_exists env to_json from_json ctx id; pure (bool b));
      }
      ∷ record {
        wire_name = str "TransferAsset";
        params = string_param utf8_error (str "id") ∷ string_param utf8_error (str "newOwner") ∷ [];
        method = with_owner (λ ctx id owner. do
          old ← transfer_asset env to_json from_json ctx id owner
          pure (Payload.string old));
      }
      ∷ record {
        wire_name = str "GetAllAssets";
        params = [];
        method =
            with_nothing
              (λ ctx. do rs ← get_all_assets env to_json from_json ctx fuel; pure (results rs));
      }
      ∷ record {
        wire_name = str "ReadTransient";
        params = [];
        method = with_nothing (λ ctx. do
          s ← read_transient env to_json from_json ctx utf8_error
          pure (Payload.string s));
      }
      ∷ []
