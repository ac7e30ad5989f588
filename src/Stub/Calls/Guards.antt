-- ===== src/Stub/Calls/Guards.antt =====
-- What the stub refuses before it sends anything.
use fabric_chaincode_rs.Prelude.{ℕ, ◌∷◌, ◌≡◌, refl, [], Text, Bytes, str}
use fabric_chaincode_rs.Error.{err, invalid_argument}
use fabric_chaincode_rs.Session.{Env, Session, Outcome, done}
use fabric_chaincode_rs.Stub.{ChaincodeStub}
use fabric_chaincode_rs.Stub.Calls.{
  require_collection, get_private_data, get_private_data_hash, put_private_data, del_private_data,
  purge_private_data, get_private_data_by_range, put_state, set_event,
}

abbrev pub refused : {W A : Type 0} → Text → Session W → Outcome A × Session W
refused m s = (done (err (invalid_argument m)), s)

-- Every call on private data refuses an empty collection, a write refuses an empty key, also in a
-- collection, and an event needs a name: the session is unchanged, so nothing was sent.
pub calls_refused :
    {W : Type 0} (env : Env W) (stub : ChaincodeStub) (s : Session W) (x : ℕ) (c k j : Text)
    (v : Bytes)
    → (get_private_data env stub [] k s ≡ refused (str "collection must not be empty") s)
      × (get_private_data_hash env stub [] k s ≡ refused (str "collection must not be empty") s)
      × (put_private_data env stub [] k v s ≡ refused (str "collection must not be empty") s)
      × (del_private_data env stub [] k s ≡ refused (str "collection must not be empty") s)
      × (purge_private_data env stub [] k s ≡ refused (str "collection must not be empty") s)
      × (get_private_data_by_range env stub [] k j s
          ≡ refused (str "collection must not be empty") s)
      × (put_state env stub [] v s ≡ refused (str "key must not be empty") s)
      × (put_private_data env stub (x ∷ c) [] v s ≡ refused (str "key must not be empty") s)
      × (set_event env stub [] v s ≡ refused (str "event name must not be empty") s)
unfolding require_collection get_private_data get_private_data_hash put_private_data
    del_private_data purge_private_data get_private_data_by_range put_state set_event
calls_refused env stub s x c k j v = (refl, refl, refl, refl, refl, refl, refl, refl, refl)
