-- ===== src/Examples/Peer.antt =====
-- A concrete peer: it keeps a ledger and the batches of one query, and answers every request.
use fabric_chaincode_rs.Prelude.{
  ◌≡◌, refl, Option, none, some, List, [], ◌∷◌, Text, Bytes, str, pos, list_Eq, pair_Eq, nat_Eq,
}
use fabric_chaincode_rs.Prelude.Map
use fabric_chaincode_rs.Prelude.Map.{Map}
use fabric_chaincode_rs.Protos.MsgType.{MsgType, try_from-to_i32}
use fabric_chaincode_rs.Protos.Messages.{Timestamp, QueryResponse, type_of}
use fabric_chaincode_rs.Handler.Link.{new_link, new_message}
use fabric_chaincode_rs.Session.{Env, Session, StubCore}
use fabric_chaincode_rs.Session.Requests.{IsIdle, Responds}
use fabric_chaincode_rs.Session.Ledger.{Ledger, PrivateLedger}
use fabric_chaincode_rs.Examples.Wire.{wire}
use fabric_chaincode_rs.Examples.Packing.{pack, unpack, unpack-pack}

pub record World : Type 0 where
  pub state : Map (Text × Text) Bytes
  pub batches : List QueryResponse

abbrev pub midnight : Timestamp
midnight = record { seconds = pos 0; nanos = pos 0 }

stored : Option Bytes → Bytes
stored none = []
stored (some b) = b

next_batch : List QueryResponse → World → Bytes × World
unfolding wire
next_batch [] w = ([], w)
next_batch (r ∷ rs) w = (wire.query_response.encode r, record w { batches = rs })

unfoldable pub serve : MsgType → List Bytes → World → Bytes × World
unfolding stored next_batch
serve MsgType.get_state (c ∷ k ∷ []) w = (stored (Map.get (c, k) w.state), w)
serve MsgType.put_state (c ∷ k ∷ v ∷ []) w = ([], record w { state = Map.insert (c, k) v w.state })
serve MsgType.del_state (c ∷ k ∷ []) w = ([], record w { state = Map.remove (c, k) w.state })
-- a toy hash: the value behind a mark
serve MsgType.get_private_data_hash (c ∷ k ∷ []) w = (42 ∷ stored (Map.get (c, k) w.state), w)
serve MsgType.purge_private_data (c ∷ k ∷ []) w =
    ([], record w { state = Map.remove (c, k) w.state })
serve MsgType.query_state_next _ w = next_batch w.batches w
serve MsgType.get_state_by_range _ w = next_batch w.batches w
serve _ _ w = ([], w)

unfoldable pub peer : Env World
unfolding serve
peer = record {
  codecs = wire;
  debug_str = λ t. t;
  now = λ w. midnight;
  reply = λ m w.
      let (b, w') = serve (type_of m) (unpack m.payload) w in
      (some (new_message midnight MsgType.response b m.channel_id m.txid), w');
}

abbrev pub core : StubCore
core = record { channel_id = str "mychannel"; tx_id = str "tx1" }

pub responds :
    (t : MsgType) (fields : List Bytes) (w : World) {body : Bytes} {w' : World}
    → serve t fields w ≡ (body, w')
    → Responds peer core t (pack fields) w body w'
unfolding peer new_message type_of str
responds t fields w {body} {w'} h = record {
  message = new_message midnight MsgType.response body core.channel_id core.tx_id;
  replied = rw (try_from-to_i32 t, unpack-pack fields, h) refl;
  key = refl;
  type = rw (try_from-to_i32 MsgType.response) refl;
  body_eq = refl;
}

unfoldable pub ledger : Ledger peer core
unfolding stored peer wire serve
ledger = record {
  read = λ w c k. stored (Map.get (c, k) w.state);
  written = λ w c k v. record w { state = Map.insert (c, k) v w.state };
  deleted = λ w c k. record w { state = Map.remove (c, k) w.state };
  serves_get = λ w c k. responds MsgType.get_state (c ∷ k ∷ []) w refl;
  serves_put = λ w c k v. responds MsgType.put_state (c ∷ k ∷ v ∷ []) w refl;
  serves_del = λ w c k. responds MsgType.del_state (c ∷ k ∷ []) w refl;
}

unfoldable pub private_ledger : PrivateLedger peer core
unfolding stored peer wire serve
private_ledger = record {
  hash = λ w c k. 42 ∷ stored (Map.get (c, k) w.state);
  purged = λ w c k. record w { state = Map.remove (c, k) w.state };
  serves_hash = λ w c k. responds MsgType.get_private_data_hash (c ∷ k ∷ []) w refl;
  serves_purge = λ w c k. responds MsgType.purge_private_data (c ∷ k ∷ []) w refl;
}

unfoldable pub session : World → Session World
session w = record { link = new_link; event = none; world = w }

pub session-IsIdle : (w : World) → IsIdle core (session w)
unfolding session new_link Map.contains_key Map.get
session-IsIdle w = record { free = refl; up = refl }
