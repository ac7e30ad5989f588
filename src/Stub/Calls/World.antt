-- ===== src/Stub/Calls/World.antt =====
-- The stub's calls against a peer that serves a ledger.
use fabric_chaincode_rs.Prelude.{◌≡◌, refl, false, [], Text, Bytes, is_empty}
use fabric_chaincode_rs.Error.{ok}
use fabric_chaincode_rs.Protos.MsgType.{MsgType}
use fabric_chaincode_rs.Session.{Env, Session, done}
use fabric_chaincode_rs.Session.Requests.{IsIdle, Stays, request-Responds}
use fabric_chaincode_rs.Session.Ledger.{Ledger}
use fabric_chaincode_rs.Stub.{ChaincodeStub}
use fabric_chaincode_rs.Stub.Calls.{get_state, put_state, del_state}

module _ {W : Type 0} (env : Env W) (stub : ChaincodeStub) (ledger : Ledger env stub.core) where
  -- `get_state` returns the committed value and changes nothing.
  pub get_state-Ledger :
      (key : Text) (s : Session W)
      → IsIdle stub.core s
      → (s' : Session W) × (get_state env stub key s ≡ (done (ok (ledger.read s.world [] key)), s'))
        × Stays stub.core s s' s.world
  unfolding get_state
  get_state-Ledger key s idle =
      let (reply, s', e, b, st) =
        request-Responds env stub.core MsgType.get_state
          (env.codecs.get_state.encode (record { key = key; collection = [] })) s idle
          (ledger.serves_get s.world [] key) in
      (s', rw (e, b) refl, st)

  pub put_state-Ledger :
      (key : Text) (value : Bytes) (s : Session W)
      → is_empty key ≡ false
      → IsIdle stub.core s
      → (s' : Session W) × (put_state env stub key value s ≡ (done (ok tt), s'))
        × Stays stub.core s s' (ledger.written s.world [] key value)
  unfolding put_state
  put_state-Ledger key value s full idle =
      let (reply, s', e, b, st) =
        request-Responds env stub.core MsgType.put_state
          (env.codecs.put_state.encode (record { key = key; value = value; collection = [] })) s
          idle (ledger.serves_put s.world [] key value) in
      (s', rw (full, e) refl, st)

  pub del_state-Ledger :
      (key : Text) (s : Session W)
      → IsIdle stub.core s
      → (s' : Session W) × (del_state env stub key s ≡ (done (ok tt), s'))
        × Stays stub.core s s' (ledger.deleted s.world [] key)
  unfolding del_state
  del_state-Ledger key s idle =
      let (reply, s', e, b, st) =
        request-Responds env stub.core MsgType.del_state
          (env.codecs.del_state.encode (record { key = key; collection = [] })) s idle
          (ledger.serves_del s.world [] key) in
      (s', rw e refl, st)
