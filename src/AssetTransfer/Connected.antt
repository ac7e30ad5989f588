-- ===== src/AssetTransfer/Connected.antt =====
-- The asset contract's methods on the connection.
pub mod Transactions
use fabric_chaincode_rs.Prelude.{
  ℕ, ◌≡◌, refl, Bool, true, false, not, List, [], ◌∷◌, Text, Bytes, str, is_empty, if◌then◌else◌,
}
use fabric_chaincode_rs.Error.{Error, Result, err, ok_or, invalid_argument}
use fabric_chaincode_rs.Utf8.{from_utf8}
use fabric_chaincode_rs.Session.{Env, Session, Exec, pure, fail, ◌>>=◌, ◌>>◌}
use fabric_chaincode_rs.Session.Connected.{
  IsReplying, Follows, Leads-stay, Follows-bind, Follows-given, Follows-lift, Follows-then,
  Follows-pure,
}
use fabric_chaincode_rs.Iterators.Connected.{collect_remaining-Follows}
use fabric_chaincode_rs.Stub.{ChaincodeStub, get_transient}
use fabric_chaincode_rs.Stub.Calls.{get_state, set_event, get_state_by_range}
use fabric_chaincode_rs.Stub.Calls.Connected.{
  get_state-Follows, put_state-Follows, del_state-Follows, set_event-Follows, range-Follows,
  range-core,
}
use fabric_chaincode_rs.AssetTransfer.{
  Asset, QueryResult, init_ledger, create_asset, read_asset, update_asset, delete_asset,
  asset_exists, transfer_asset, get_all_assets, read_transient, get_asset, put_asset, put_assets,
  asset_json, sample_assets, parse_asset, event_json, assets_of,
}

module _ {W : Type 0} (env : Env W) (to_json : Asset → Result Bytes Text)
    (from_json : Bytes → Result Asset Text) (ctx : ChaincodeStub) (peer : IsReplying env) where
  get_asset-Follows : (id : Text) → Follows ctx.core (get_asset env to_json from_json ctx id)
  unfolding get_asset
  get_asset-Follows id =
      Follows-bind ctx.core _ _ (get_state-Follows env ctx peer id)
        (λ bytes. Follows-lift ctx.core (parse_asset env to_json from_json ctx id bytes))

  put_asset-Follows : (a : Asset) → Follows ctx.core (put_asset env to_json from_json ctx a)
  unfolding put_asset
  put_asset-Follows a =
      Follows-then ctx.core (asset_json env to_json from_json ctx a) _
        (λ json. put_state-Follows env ctx peer a.id json)

  put_assets-Follows :
      (assets : List Asset) → Follows ctx.core (put_assets env to_json from_json ctx assets)
  unfolding put_assets
  put_assets-Follows [] = Follows-pure ctx.core tt
  put_assets-Follows (a ∷ assets) =
      Follows-bind ctx.core _ _ (put_asset-Follows a) (λ _. put_assets-Follows assets)

  pub init_ledger-Follows : Follows ctx.core (init_ledger env to_json from_json ctx)
  unfolding init_ledger
  init_ledger-Follows = put_assets-Follows sample_assets

  created-Follows :
      (e : Error) (a : Asset) (b : Bool)
      → Follows ctx.core (if b then fail e else put_asset env to_json from_json ctx a)
  created-Follows e a true = Follows-lift ctx.core {A = Unit} (err e)
  created-Follows e a false = put_asset-Follows a

  pub create_asset-Follows :
      (a : Asset) → Follows ctx.core (create_asset env to_json from_json ctx a)
  unfolding create_asset
  create_asset-Follows a =
      Follows-bind ctx.core (get_state env ctx a.id) _ (get_state-Follows env ctx peer a.id)
        (λ bytes. created-Follows _ a (not (is_empty bytes)))

  pub read_asset-Follows : (id : Text) → Follows ctx.core (read_asset env to_json from_json ctx id)
  unfolding read_asset
  read_asset-Follows id = get_asset-Follows id

  pub update_asset-Follows :
      (a : Asset) → Follows ctx.core (update_asset env to_json from_json ctx a)
  unfolding update_asset
  update_asset-Follows a =
      Follows-bind ctx.core _ _ (get_asset-Follows a.id) (λ _. put_asset-Follows a)

  pub delete_asset-Follows :
      (id : Text) → Follows ctx.core (delete_asset env to_json from_json ctx id)
  unfolding delete_asset
  delete_asset-Follows id =
      Follows-bind ctx.core _ _ (get_asset-Follows id) (λ _. del_state-Follows env ctx peer id)

  pub asset_exists-Follows :
      (id : Text) → Follows ctx.core (asset_exists env to_json from_json ctx id)
  unfolding asset_exists
  asset_exists-Follows id =
      Follows-bind ctx.core (get_state env ctx id) _ (get_state-Follows env ctx peer id)
        (λ bytes. Follows-pure ctx.core (not (is_empty bytes)))

  pub transfer_asset-Follows :
      (id owner : Text) → Follows ctx.core (transfer_asset env to_json from_json ctx id owner)
  unfolding transfer_asset
  transfer_asset-Follows id owner =
      Follows-bind ctx.core (get_asset env to_json from_json ctx id) _ (get_asset-Follows id)
        (λ asset.
          let moved = record asset { owner = owner } in
          Follows-bind ctx.core (put_asset env to_json from_json ctx moved) _
            (put_asset-Follows moved)
            (λ _.
              let json = event_json env to_json from_json ctx moved in
              Follows-bind ctx.core (set_event env ctx (str "AssetTransferred") json) _
                (set_event-Follows env ctx peer (str "AssetTransferred") json)
                (λ _. Follows-pure ctx.core asset.owner)))

  pub get_all_assets-Follows :
      (fuel : ℕ) → Follows ctx.core (get_all_assets env to_json from_json ctx fuel)
  unfolding get_all_assets
  get_all_assets-Follows fuel =
      Follows-given ctx.core (get_state_by_range env ctx [] []) _ (range-Follows env ctx peer [] [])
        (λ s it got.
          Follows-bind ctx.core _ _
            (collect_remaining-Follows env ctx.core peer fuel it
              (range-core env ctx peer [] [] s it got))
            (λ kvs. Follows-pure ctx.core (assets_of env to_json from_json ctx kvs)))

  pub read_transient-Follows :
      (utf8_error : Bytes → Text)
      → Follows ctx.core (read_transient env to_json from_json ctx utf8_error)
  unfolding read_transient
  read_transient-Follows utf8_error = Follows-then ctx.core _ _ (λ value.
      Follows-lift ctx.core (ok_or (from_utf8 value) (invalid_argument (utf8_error value))))
