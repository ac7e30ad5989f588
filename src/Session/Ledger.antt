-- ===== src/Session/Ledger.antt =====
-- The peer's side of the ledger calls, an interface: a world state that GET_STATE reads, and that
-- PUT_STATE and DEL_STATE prepare changes of, as the Fabric protocol documents them.
use fabric_chaincode_rs.Prelude.{[], Text, Bytes}
use fabric_chaincode_rs.Protos.MsgType.{MsgType}
use fabric_chaincode_rs.Session.{Env, StubCore}
use fabric_chaincode_rs.Session.Requests.{Responds}

pub record Ledger {W : Type 0} (env : Env W) (core : StubCore) : Type 0 where
  -- the committed value of a key in a collection (the public state is the empty collection); no
  -- bytes if there is none
  pub read : W → Text → Text → Bytes
  pub written : W → Text → Text → Bytes → W
  pub deleted : W → Text → Text → W
  pub serves_get :
      (w : W) (collection key : Text)
      → Responds env core MsgType.get_state
          (env.codecs.get_state.encode (record { key = key; collection = collection }))
          w
          (read w collection key)
          w
  pub serves_put :
      (w : W) (collection key : Text) (value : Bytes)
      → Responds env core MsgType.put_state
          (env.codecs.put_state.encode
            (record { key = key; value = value; collection = collection }))
          w
          []
          (written w collection key value)
  pub serves_del :
      (w : W) (collection key : Text)
      → Responds env core MsgType.del_state
          (env.codecs.del_state.encode (record { key = key; collection = collection }))
          w
          []
          (deleted w collection key)

-- The peer's side of the calls that private data alone have.
pub record PrivateLedger {W : Type 0} (env : Env W) (core : StubCore) : Type 0 where
  pub hash : W → Text → Text → Bytes
  pub purged : W → Text → Text → W
  pub serves_hash :
      (w : W) (collection key : Text)
      → Responds env core MsgType.get_private_data_hash
          (env.codecs.get_state.encode (record { key = key; collection = collection }))
          w
          (hash w collection key)
          w
  pub serves_purge :
      (w : W) (collection key : Text)
      → Responds env core MsgType.purge_private_data
          (env.codecs.purge_private_state.encode (record { key = key; collection = collection }))
          w
          []
          (purged w collection key)
