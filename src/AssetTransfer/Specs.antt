-- ===== src/AssetTransfer/Specs.antt =====
-- What each transaction of the asset contract does to the ledger, its result and its event, on every
-- branch.
use fabric_chaincode_rs.Prelude.{
  Bool, not, List, ◌∷◌, some, [], ◌++◌, Text, Bytes, str, is_empty, if◌then◌else◌,
}
use fabric_chaincode_rs.Error.{Error, Result, ok, err, invalid_argument}
use fabric_chaincode_rs.Session.{Env}
use fabric_chaincode_rs.Session.Ledger.{Ledger}
use fabric_chaincode_rs.Session.Refinement.{Spec, bind_spec}
use fabric_chaincode_rs.Stub.{ChaincodeStub}
use fabric_chaincode_rs.AssetTransfer.{Asset}

-- What the ledger holds under an asset's key.
pub data Stored : Type 0 where
  missing : Stored
  corrupt : Text → Stored
  present : Asset → Stored

module _ {W : Type 0} (env : Env W) (to_json : Asset → Result Bytes Text)
    (from_json : Bytes → Result Asset Text) (ctx : ChaincodeStub)
    (ledger : Ledger env ctx.core) where
  unfoldable pub read_stored : Bytes → Stored
  read_stored bytes =
      if is_empty bytes
      then missing
      else elim (from_json bytes) [ ok a ↦ present a | err e ↦ corrupt e ]

  unfoldable pub stored : Text → W → Stored
  unfolding read_stored
  stored id w = read_stored (ledger.read w [] id)

  -- An asset is stored under its id, which must not be empty.
  unfoldable pub store : Asset → Spec W (Unit {0})
  store a w e = elim (to_json a) [
    | ok json ↦
        if is_empty a.id
        then (err (invalid_argument (str "key must not be empty")), w, e)
        else (ok tt, ledger.written w [] a.id json, e)
    | err m ↦ (err (invalid_argument (str "serialize asset: " ++ m)), w, e)
  ]

  unfoldable pub absent_error : Text → Error
  absent_error id = invalid_argument (str "the asset " ++ id ++ str " does not exist")

  unfoldable pub corrupt_error : Text → Text → Error
  corrupt_error id m = invalid_argument (str "stored asset " ++ id ++ str " is corrupt: " ++ m)

  -- The transaction goes on with the stored asset, or fails and changes nothing.
  unfoldable pub with_stored : {A : Type 0} → Text → (Asset → Spec W A) → Spec W A
  unfolding absent_error corrupt_error
  with_stored id f w e = elim (stored id w) [
    | missing ↦ (err (absent_error id), w, e)
    | corrupt m ↦ (err (corrupt_error id m), w, e)
    | present a ↦ f a w e
  ]

  unfoldable pub read_spec : Text → Spec W Asset
  unfolding with_stored
  read_spec id = with_stored id (λ a w e. (ok a, w, e))

  -- A new asset is stored only where nothing is stored.
  unfoldable pub create_spec : Asset → Spec W (Unit {0})
  unfolding store
  create_spec a w e =
      if is_empty (ledger.read w [] a.id)
      then store a w e
      else (err (invalid_argument (str "the asset " ++ a.id ++ str " already exists")), w, e)

  unfoldable pub update_spec : Asset → Spec W (Unit {0})
  unfolding with_stored
  update_spec a = with_stored a.id (λ _. store a)

  unfoldable pub delete_spec : Text → Spec W (Unit {0})
  unfolding with_stored
  delete_spec id = with_stored id (λ a w e. (ok tt, ledger.deleted w [] id, e))

  -- The owner changes and nothing else of the asset, the event tells the asset as it is now, and the
  -- result is the former owner.
  unfoldable pub transferred : Asset → Asset → Spec W Text
  transferred a b w e = elim (to_json b) [
    | ok json ↦
        if is_empty b.id then (err (invalid_argument (str "key must not be empty")), w, e) else (
          ok a.owner,
          ledger.written w [] b.id json,
          some (record {
            chaincode_id = [];
            tx_id = ctx.core.tx_id;
            event_name = str "AssetTransferred";
            payload = json;
          }),
        )
    | err m ↦ (err (invalid_argument (str "serialize asset: " ++ m)), w, e)
  ]

  unfoldable pub transfer_spec : Text → Text → Spec W Text
  unfolding with_stored transferred
  transfer_spec id new_owner = with_stored id (λ a. transferred a (record a { owner = new_owner }))

  -- The assets are stored one after the other, up to the first that fails.
  unfoldable pub store_all : List Asset → Spec W (Unit {0})
  unfolding store
  store_all [] = λ w e. (ok tt, w, e)
  store_all (a ∷ assets) = bind_spec {W = W} (store a) (λ _. store_all assets)

  unfoldable pub exists_spec : Text → Spec W Bool
  exists_spec id w e = (ok (not (is_empty (ledger.read w [] id))), w, e)
