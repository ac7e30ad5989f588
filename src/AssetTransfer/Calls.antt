-- ===== src/AssetTransfer/Calls.antt =====
-- What a client asks of the asset contract: the requests, how a client encodes them as a call's
-- arguments, and what the ledger's state should be after each. Nothing here uses the contract's code.
use fabric_chaincode_rs.Prelude.{
  ◌≤◌, Option, none, some, List, [], ◌∷◌, Text, Bytes, IsText, str, pos, list_Eq, nat_Eq,
}
use fabric_chaincode_rs.Prelude.Map
use fabric_chaincode_rs.Utf8.{from_utf8}
use fabric_chaincode_rs.Error.{Error, Result, ok, err, invalid_argument, ok_or}
use fabric_chaincode_rs.Session.{Env}
use fabric_chaincode_rs.Session.Ledger.{Ledger}
use fabric_chaincode_rs.Session.Refinement.{Spec, bind_spec}
use fabric_chaincode_rs.Stub.{ChaincodeStub}
use fabric_chaincode_rs.Contract.Numbers.{u32, u64, max_value, int_text}
use fabric_chaincode_rs.AssetTransfer.{Asset, sample_assets}
use fabric_chaincode_rs.AssetTransfer.Specs.{
  read_spec, create_spec, update_spec, delete_spec, transfer_spec, store_all, exists_spec,
}
use fabric_chaincode_rs.AssetTransfer.Contract.{Payload, unit, bool, asset}

pub data Request : Type 0 where
  init_ledger : Request
  create_asset : Asset → Request
  read_asset : Text → Request
  update_asset : Asset → Request
  delete_asset : Text → Request
  asset_exists : Text → Request
  transfer_asset : Text → Text → Request
  read_transient : Request

unfoldable pub function : Request → Text
function init_ledger = str "InitLedger"
function (create_asset _) = str "CreateAsset"
function (read_asset _) = str "ReadAsset"
function (update_asset _) = str "UpdateAsset"
function (delete_asset _) = str "DeleteAsset"
function (asset_exists _) = str "AssetExists"
function (transfer_asset _ _) = str "TransferAsset"
function read_transient = str "ReadTransient"

unfoldable pub asset_texts : Asset → List Text
asset_texts a =
    a.id ∷ a.color ∷ int_text (pos a.size) ∷ a.owner ∷ int_text (pos a.appraised_value) ∷ []

-- numbers in decimal
unfoldable pub parameters : Request → List Text
unfolding asset_texts
parameters (create_asset a) = asset_texts a
parameters (read_asset id) = id ∷ []
parameters (update_asset a) = asset_texts a
parameters (delete_asset id) = id ∷ []
parameters (asset_exists id) = id ∷ []
parameters (transfer_asset id owner) = id ∷ owner ∷ []
parameters _ = []

-- An asset of the types that the source declares.
pub record IsAsset (a : Asset) : Type 0 where
  pub id : IsText a.id
  pub color : IsText a.color
  pub size : a.size ≤ max_value u32
  pub owner : IsText a.owner
  pub appraised_value : a.appraised_value ≤ max_value u64

-- A request whose texts and numbers a client can have.
abbrev pub IsRequest : Request → Type 0
IsRequest (create_asset a) = IsAsset a
IsRequest (read_asset id) = IsText id
IsRequest (update_asset a) = IsAsset a
IsRequest (delete_asset id) = IsText id
IsRequest (asset_exists id) = IsText id
IsRequest (transfer_asset id owner) = IsText id × IsText owner
IsRequest _ = Unit

module _ {W : Type 0} (env : Env W) (to_json : Asset → Result Bytes Text)
    (from_json : Bytes → Result Asset Text) (utf8_error : Bytes → Text) (ctx : ChaincodeStub)
    (ledger : Ledger env ctx.core) where
  abbrev pub giving : {B : Type 0} → (B → Payload) → Spec W B → Spec W Payload
  giving wrap p = bind_spec p (λ v w e. (ok (wrap v), w, e))

  -- The transient field, if it is set and is a text.
  unfoldable pub transient_text : Option Bytes → Result Text Error
  transient_text none = err (invalid_argument (str "transient field asset_properties not set"))
  transient_text (some value) = ok_or (from_utf8 value) (invalid_argument (utf8_error value))

  unfoldable pub transient_spec : Spec W Text
  unfolding transient_text
  transient_spec w e = (transient_text (Map.get (str "asset_properties") ctx.transient), w, e)

  -- The result of a request, the ledger after it, and its event.
  unfoldable pub request_spec : Request → Spec W Payload
  unfolding transient_spec
  request_spec init_ledger =
      giving (λ _. unit) (store_all env to_json from_json ctx ledger sample_assets)
  request_spec (create_asset a) =
      giving (λ _. unit) (create_spec env to_json from_json ctx ledger a)
  request_spec (read_asset id) = giving asset (read_spec env to_json from_json ctx ledger id)
  request_spec (update_asset a) =
      giving (λ _. unit) (update_spec env to_json from_json ctx ledger a)
  request_spec (delete_asset id) =
      giving (λ _. unit) (delete_spec env to_json from_json ctx ledger id)
  request_spec (asset_exists id) = giving bool (exists_spec env to_json from_json ctx ledger id)
  request_spec (transfer_asset id owner) =
      giving Payload.string (transfer_spec env to_json from_json ctx ledger id owner)
  request_spec read_transient = giving Payload.string transient_spec
