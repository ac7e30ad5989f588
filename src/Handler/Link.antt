-- ===== src/Handler/Link.antt =====
-- `PeerLink` of fabric-shim/src/handler.rs, lines 15-119: the outgoing queue and the requests in
-- flight. A request is cut where it awaits its reply: `start_request` up to there, `poll_request`
-- from there on. `now` is the system clock's reading.
pub mod Invariant
pub mod Delivery
pub mod Holding
pub mod Entries
use fabric_chaincode_rs.Prelude.{
  ℕ, suc, ◌≡◌, refl, Bool, true, false, Option, none, some, List, [], ◌∷◌, ◌++◌, Text, Bytes, str,
  nat_Eq, list_Eq, pair_Eq, pair_eq, list_eq, if◌then◌else◌,
}
use fabric_chaincode_rs.Prelude.Map
use fabric_chaincode_rs.Prelude.Map.{Map}
use fabric_chaincode_rs.Utf8.{from_utf8_lossy}
use fabric_chaincode_rs.Error.{Error, Result, ok, err, peer, protocol, connection_closed}
use fabric_chaincode_rs.Protos.MsgType.{MsgType, to_i32, debug}
use fabric_chaincode_rs.Protos.Messages.{Timestamp, ChaincodeMessage, type_of}

-- `(channel_id, txid)`
abbrev pub TxKey : Type 0
TxKey = Text × Text

-- A oneshot channel as its receiver sees it: nothing sent yet, a message, or the sender dropped.
pub data Slot : Type 0 where
  waiting : Slot
  filled : ChaincodeMessage → Slot
  dropped : Slot

-- `sent` is what went into the outgoing queue, in order; `out_open` says that the queue's receiver
-- is still there. A sender in `pending` is named by its channel's number in `slots`; `next` is the
-- number of the next channel.
pub record PeerLink : Type 0 where
  pub out_open : Bool
  pub sent : List ChaincodeMessage
  pub pending : Map TxKey ℕ
  pub slots : Map ℕ Slot
  pub next : ℕ

unfoldable pub new_link : PeerLink
new_link = record { out_open = true; sent = []; pending = []; slots = []; next = 0 }

unfoldable pub new_message : Timestamp → MsgType → Bytes → Text → Text → ChaincodeMessage
new_message now msg_type payload channel_id tx_id = record {
  type = to_i32 msg_type;
  timestamp = some now;
  payload = payload;
  txid = tx_id;
  proposal = none;
  chaincode_event = none;
  channel_id = channel_id;
}

-- Fire-and-forget; it fails when the queue's receiver is gone.
unfoldable pub send : ChaincodeMessage → PeerLink → Result (Unit {0}) Error × PeerLink
send msg l =
    if l.out_open
    then (ok tt, record l { sent = l.sent ++ msg ∷ [] })
    else (err connection_closed, l)

-- Removing a sender from the map drops it.
release : TxKey → Option ℕ → PeerLink → PeerLink
release key none l = l
release key (some slot) l = record l {
  pending = Map.remove key l.pending;
  slots = Map.insert slot dropped l.slots;
}

unfoldable pub drop_pending : TxKey → PeerLink → PeerLink
unfolding release
drop_pending key l = release key (Map.get key l.pending) l

fulfil : TxKey → ChaincodeMessage → Option ℕ → PeerLink → PeerLink
fulfil key msg none l = l
fulfil key msg (some slot) l = record l {
  pending = Map.remove key l.pending;
  slots = Map.insert slot (filled msg) l.slots;
}

abbrev pub key_of : ChaincodeMessage → TxKey
key_of msg = (msg.channel_id, msg.txid)

-- A reply goes to the sender that waits under its key; one that no request waits for is dropped.
unfoldable pub route_response : ChaincodeMessage → PeerLink → PeerLink
unfolding fulfil
route_response msg l = fulfil (key_of msg) msg (Map.get (key_of msg) l.pending) l

-- the branch on `self.out.send(...)`
sent_request : TxKey → ℕ → Result (Unit {0}) Error × PeerLink → Result ℕ Error × PeerLink
sent_request key slot (ok _, l) = (ok slot, l)
sent_request key slot (err _, l) = (err connection_closed, drop_pending key l)

-- lines 37 and 45: a new oneshot channel, its sender under the key
unfoldable pub enter : TxKey → PeerLink → PeerLink
enter key l = record l {
  pending = Map.insert key l.next l.pending;
  slots = Map.insert l.next waiting l.slots;
  next = suc l.next;
}

-- lines 36-52
unfoldable pub start_request :
    Timestamp → MsgType → Bytes → Text → Text → PeerLink → Result ℕ Error × PeerLink
unfolding sent_request enter
start_request now msg_type payload channel_id tx_id l =
    if Map.contains_key (channel_id, tx_id) l.pending
    then (err (protocol (str "another ledger request is already in flight for tx " ++ tx_id)), l)
    else sent_request (channel_id, tx_id) l.next
        (send (new_message now msg_type payload channel_id tx_id) (enter (channel_id, tx_id) l))

-- lines 55-63
unfoldable pub interpret_reply : ChaincodeMessage → Result ChaincodeMessage Error
interpret_reply reply = elim (type_of reply) [
  | MsgType.response ↦ ok reply
  | MsgType.error ↦ err (peer (from_utf8_lossy reply.payload))
  | other ↦
      err (protocol (str "unexpected message type " ++ debug other ++ str " routed as tx response"))
]

-- line 54: what awaiting the slot gives, `none` while it still waits
poll_slot : Option Slot → Option (Result ChaincodeMessage Error)
poll_slot none = none
poll_slot (some waiting) = none
poll_slot (some (filled reply)) = some (interpret_reply reply)
poll_slot (some dropped) = some (err connection_closed)

unfoldable pub poll_request : ℕ → PeerLink → Option (Result ChaincodeMessage Error)
unfolding poll_slot
poll_request slot l = poll_slot (Map.get slot l.slots)
