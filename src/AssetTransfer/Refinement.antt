-- ===== src/AssetTransfer/Refinement.antt =====
-- The asset contract's transactions against their specifications.
use fabric_chaincode_rs.Prelude.{
  ◌≡◌, List, ◌∷◌, not, Option, [], ◌++◌, Text, Bytes, str, is_empty, arith,
}
use fabric_chaincode_rs.Error.{Result, ok, err, invalid_argument}
use fabric_chaincode_rs.Protos.Messages.{ChaincodeEvent}
use fabric_chaincode_rs.Session.{Env, Exec, ◌>>=◌}
use fabric_chaincode_rs.Session.Ledger.{Ledger}
use fabric_chaincode_rs.Session.Refinement.{
  Spec, Refines, Refines-bind, Refines-lift, Refines-eq, Refines-if, bind_spec,
}
use fabric_chaincode_rs.Stub.{ChaincodeStub}
use fabric_chaincode_rs.Stub.Calls.Specs.{
  put_spec, event_spec, Refines-get, Refines-put, Refines-del, Refines-event,
}
use fabric_chaincode_rs.AssetTransfer.{
  Asset, put_assets, init_ledger, sample_assets, asset_exists, parse_asset, get_asset, asset_json,
  put_asset, create_asset, read_asset, update_asset, delete_asset, transfer_asset, event_json,
}
use fabric_chaincode_rs.AssetTransfer.Specs.{
  stored, store, with_stored, read_spec, create_spec, update_spec, delete_spec, transfer_spec,
  transferred, read_stored, absent_error, corrupt_error, store_all, exists_spec,
}

module _ {W : Type 0} (env : Env W) (to_json : Asset → Result Bytes Text)
    (from_json : Bytes → Result Asset Text) (ctx : ChaincodeStub)
    (ledger : Ledger env ctx.core) where
  found-eq :
      {A : Type 0} (id : Text) (g : Asset → Spec W A) (w : W) (e : Option ChaincodeEvent)
      → bind_spec {W = W}
          (λ w' e'. (parse_asset env to_json from_json ctx id (ledger.read w' [] id), w', e'))
          g
          w
          e
        ≡ with_stored env to_json from_json ctx ledger id g w e
  unfolding parse_asset with_stored stored read_stored absent_error corrupt_error
  found-eq id g w e = ground arith

  -- a chain that starts by reading a stored asset
  with_stored-Refines :
      {A : Type 0} (id : Text) (f : Asset → Exec W A) (g : Asset → Spec W A)
      → ((a : Asset) → Refines ctx.core (f a) (g a))
      → Refines ctx.core
          (get_asset env to_json from_json ctx id >>= f)
          (with_stored env to_json from_json ctx ledger id g)
  unfolding get_asset
  with_stored-Refines id f g h =
      Refines-eq ctx.core _ _ _ (λ w e. found-eq id g w e)
        (Refines-bind ctx.core _ _ f g
          (Refines-bind ctx.core _ _ _ _ (Refines-get env ctx ledger id)
            (λ bytes. Refines-lift ctx.core (parse_asset env to_json from_json ctx id bytes)))
          h)

  json-eq :
      (a : Asset) (w : W) (e : Option ChaincodeEvent)
      → bind_spec {W = W}
          (λ w' e'. (asset_json env to_json from_json ctx a, w', e'))
          (λ json. put_spec env ctx ledger a.id json)
          w
          e
        ≡ store env to_json from_json ctx ledger a w e
  unfolding asset_json store
  json-eq a w e = ground arith

  put_asset-Refines :
      (a : Asset)
      → Refines ctx.core
          (put_asset env to_json from_json ctx a)
          (store env to_json from_json ctx ledger a)
  unfolding put_asset
  put_asset-Refines a =
      Refines-eq ctx.core _ _ _ (λ w e. json-eq a w e)
        (Refines-bind ctx.core _ _ _ _
          (Refines-lift ctx.core (asset_json env to_json from_json ctx a))
          (λ json. Refines-put env ctx ledger a.id json))

  read-eq :
      (id : Text) (w : W) (e : Option ChaincodeEvent)
      → bind_spec {W = W}
          (λ w' e'. (ok (ledger.read w' [] id), w', e'))
          (λ bytes w' e'. (parse_asset env to_json from_json ctx id bytes, w', e'))
          w
          e
        ≡ read_spec env to_json from_json ctx ledger id w e
  unfolding read_spec parse_asset with_stored stored read_stored absent_error corrupt_error
  read-eq id w e = ground arith

  -- `read_asset` returns the stored asset or the error for a missing or a corrupt one, and changes
  -- nothing, as `read_spec` says.
  pub read_asset-Refines :
      (id : Text)
      → Refines ctx.core
          (read_asset env to_json from_json ctx id)
          (read_spec env to_json from_json ctx ledger id)
  unfolding read_asset get_asset read_spec
  read_asset-Refines id =
      Refines-eq ctx.core _ _ _ (λ w e. read-eq id w e)
        (Refines-bind ctx.core _ _ _ _ (Refines-get env ctx ledger id)
          (λ bytes. Refines-lift ctx.core (parse_asset env to_json from_json ctx id bytes)))

  -- `create_asset` stores the asset under its id where nothing is stored there, unless the asset cannot
  -- be serialized or its id is empty; in these cases, and where something is stored, it fails and changes
  -- nothing, as `create_spec` says.
  pub create_asset-Refines :
      (a : Asset)
      → Refines ctx.core
          (create_asset env to_json from_json ctx a)
          (create_spec env to_json from_json ctx ledger a)
  unfolding create_asset create_spec
  create_asset-Refines a =
      Refines-eq ctx.core _ _ _ (λ w e. ground arith)
        (Refines-bind ctx.core _ _ _ _ (Refines-get env ctx ledger a.id) (λ bytes.
          Refines-if ctx.core (not (is_empty bytes)) _ _ _ _
            (Refines-lift ctx.core
              (err (invalid_argument (str "the asset " ++ a.id ++ str " already exists"))))
            (put_asset-Refines a)))

  -- `update_asset` stores the asset where an asset is stored, and otherwise fails and changes nothing,
  -- as `update_spec` says.
  pub update_asset-Refines :
      (a : Asset)
      → Refines ctx.core
          (update_asset env to_json from_json ctx a)
          (update_spec env to_json from_json ctx ledger a)
  unfolding update_asset update_spec
  update_asset-Refines a = with_stored-Refines a.id _ _ (λ _. put_asset-Refines a)

  -- `delete_asset` deletes a stored asset, and otherwise fails and changes nothing, as `delete_spec`
  -- says.
  pub delete_asset-Refines :
      (id : Text)
      → Refines ctx.core
          (delete_asset env to_json from_json ctx id)
          (delete_spec env to_json from_json ctx ledger id)
  unfolding delete_asset delete_spec
  delete_asset-Refines id = with_stored-Refines id _ _ (λ _. Refines-del env ctx ledger id)

  moved-eq :
      (a b : Asset) (w : W) (e : Option ChaincodeEvent)
      → bind_spec {W = W}
          (store env to_json from_json ctx ledger b)
          (λ _.
            bind_spec {W = W}
              (event_spec env ctx ledger
                (str "AssetTransferred")
                (event_json env to_json from_json ctx b))
              (λ _ w' e'. (ok a.owner, w', e')))
          w
          e
        ≡ transferred env to_json from_json ctx ledger a b w e
  unfolding store event_json transferred str
  moved-eq a b w e = ground arith

  -- `transfer_asset` reads the asset stored under the id given, and writes it with the new owner under
  -- the id that the asset itself has, which is the same key where every asset is stored under its own
  -- id; it sets the event with the asset's new JSON and returns the former owner. It fails where nothing
  -- or no asset is stored, where the asset cannot be serialized, or where its own id is empty, as
  -- `transfer_spec` says.
  pub transfer_asset-Refines :
      (id new_owner : Text)
      → Refines ctx.core
          (transfer_asset env to_json from_json ctx id new_owner)
          (transfer_spec env to_json from_json ctx ledger id new_owner)
  unfolding transfer_asset transfer_spec
  transfer_asset-Refines id new_owner = with_stored-Refines id _ _ (λ a.
      Refines-eq ctx.core _ _ _ (moved-eq a _) (
        Refines-bind ctx.core _ _ _ _ (put_asset-Refines _) (λ _.
          Refines-bind ctx.core _ _ _ _ (Refines-event env ctx ledger (str "AssetTransferred") _)
            (λ _. Refines-lift ctx.core (ok a.owner)))))

  put_assets-Refines :
      (assets : List Asset)
      → Refines ctx.core
          (put_assets env to_json from_json ctx assets)
          (store_all env to_json from_json ctx ledger assets)
  unfolding put_assets store_all
  put_assets-Refines [] = Refines-lift ctx.core (ok tt)
  put_assets-Refines (a ∷ assets) =
      Refines-bind ctx.core _ _ _ _ (put_asset-Refines a) (λ _. put_assets-Refines assets)

  -- `init_ledger` stores the six sample assets one after the other, up to the first that fails, as
  -- `store_all` says.
  pub init_ledger-Refines :
      Refines ctx.core
        (init_ledger env to_json from_json ctx)
        (store_all env to_json from_json ctx ledger sample_assets)
  unfolding init_ledger
  init_ledger-Refines = put_assets-Refines sample_assets

  -- `asset_exists` tells whether anything is stored under the id, and changes nothing.
  pub asset_exists-Refines :
      (id : Text)
      → Refines ctx.core
          (asset_exists env to_json from_json ctx id)
          (exists_spec env to_json from_json ctx ledger id)
  unfolding asset_exists exists_spec
  asset_exists-Refines id =
      Refines-bind ctx.core _ _ _ _ (Refines-get env ctx ledger id)
        (λ bytes. Refines-lift ctx.core (ok (not (is_empty bytes))))
