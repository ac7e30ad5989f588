-- ===== src/Stub/Calls/Private.antt =====
-- The calls on private data as operations on the ledger's collections.
use fabric_chaincode_rs.Prelude.{Text, Bytes, str, is_empty, if◌then◌else◌}
use fabric_chaincode_rs.Error.{ok, err, invalid_argument}
use fabric_chaincode_rs.Protos.MsgType.{MsgType}
use fabric_chaincode_rs.Session.{Env}
use fabric_chaincode_rs.Session.Ledger.{Ledger, PrivateLedger}
use fabric_chaincode_rs.Session.Refinement.{Spec, Refines}
use fabric_chaincode_rs.Stub.{ChaincodeStub}
use fabric_chaincode_rs.Stub.Calls.{
  get_private_data, get_private_data_hash, put_private_data, del_private_data, purge_private_data,
}

module _ {W A : Type 0} where
  -- Nothing is asked of the peer if the collection's name is empty.
  abbrev pub in_collection : Text → Spec W A → Spec W A
  in_collection collection p w e =
      if is_empty collection
      then (err (invalid_argument (str "collection must not be empty")), w, e)
      else p w e

module _ {W : Type 0} (env : Env W) (stub : ChaincodeStub) where
  module _ (ledger : Ledger env stub.core) (private : PrivateLedger env stub.core) where
    -- What each call on private data is on the ledger, once the collection's name is not empty.
    pub record IsConfined (collection key : Text) (value : Bytes) : Type 0 where
      pub get :
          Refines stub.core
            (get_private_data env stub collection key)
            (in_collection collection (λ w e. (ok (ledger.read w collection key), w, e)))
      pub hash :
          Refines stub.core
            (get_private_data_hash env stub collection key)
            (in_collection collection (λ w e. (ok (private.hash w collection key), w, e)))
      pub put : Refines stub.core (put_private_data env stub collection key value) (
          in_collection collection (λ w e.
            if is_empty key
            then (err (invalid_argument (str "key must not be empty")), w, e)
            else (ok tt, ledger.written w collection key value, e)))
      pub del :
          Refines stub.core
            (del_private_data env stub collection key)
            (in_collection collection (λ w e. (ok tt, ledger.deleted w collection key, e)))
      pub purge :
          Refines stub.core
            (purge_private_data env stub collection key)
            (in_collection collection (λ w e. (ok tt, private.purged w collection key, e)))
