-- ===== src/Handler/Connection.antt =====
-- `run_connection` of fabric-shim/src/handler.rs, lines 121-208: the handshake, the dispatch of what
-- the peer sends, and the interleavings of the loop with the transactions' tasks.
pub mod Handshake
pub mod Links
pub mod Replies
pub mod Shutdown
pub mod Entries
pub mod Delivery
use fabric_chaincode_rs.Prelude.{
  ℕ, ◌≡◌, refl, Bool, true, false, Option, none, some, List, [], ◌∷◌, ◌++◌, Text, Bytes, str,
  if◌then◌else◌,
}
use fabric_chaincode_rs.Utf8.{into_bytes}
use fabric_chaincode_rs.Error.{Error, Result, ok, err}
use fabric_chaincode_rs.Protos.MsgType.{MsgType}
use fabric_chaincode_rs.Protos.MsgType
use fabric_chaincode_rs.Protos.Messages.{Timestamp, ChaincodeMessage, ChaincodeId, type_of}
use fabric_chaincode_rs.Protos.Codec.{Codecs}
use fabric_chaincode_rs.Handler.Link.{
  TxKey, PeerLink, new_link, new_message, send, drop_pending, route_response, start_request,
}

pub data ConnState : Type 0 where
  created established ready : ConnState

-- `{:?}`
unfoldable pub debug_state : ConnState → Text
debug_state created = str "Created"
debug_state established = str "Established"
debug_state ready = str "Ready"

-- What `inbound.message().await` gives.
pub data Inbound : Type 0 where
  message : ChaincodeMessage → Inbound
  end_of_stream : Inbound
  stream_error : Text → Inbound

-- The loop's state: `spawned` holds the messages for which a transaction was spawned, in order;
-- `running` says that the loop has not returned.
pub record Conn : Type 0 where
  pub state : ConnState
  pub link : PeerLink
  pub spawned : List ChaincodeMessage
  pub running : Bool

-- a send whose result is dropped, `let _ = link.send(...)`
unfoldable pub send_link : ChaincodeMessage → Conn → Conn
send_link msg c = record c { link = (send msg c.link).1 }

-- `spawn_transaction` as the loop sees it
spawn : ChaincodeMessage → Conn → Conn
spawn msg c = record c { spawned = c.spawned ++ msg ∷ [] }

route : ChaincodeMessage → Conn → Conn
route msg c = record c { link = route_response msg c.link }

echo_keepalive : Timestamp → ChaincodeMessage → Conn → Conn
echo_keepalive now msg c =
    send_link (new_message now MsgType.keepalive [] msg.channel_id msg.txid) c

-- lines 196-205
reject : Timestamp → ChaincodeMessage → Conn → Conn
reject now msg c =
    record (send_link
      (new_message now MsgType.error
        (into_bytes (
          str "received "
          ++ MsgType.debug (type_of msg)
          ++ str " in state "
          ++ debug_state c.state))
        msg.channel_id msg.txid)
      c) { running = false }

-- the `match` on the state and the message's type
dispatch : ConnState → MsgType → Timestamp → ChaincodeMessage → Conn → Conn
unfolding spawn route echo_keepalive reject
dispatch created MsgType.registered now msg c = record c { state = established }
dispatch established MsgType.ready now msg c = record c { state = ready }
dispatch _ MsgType.keepalive now msg c = echo_keepalive now msg c
dispatch ready MsgType.init now msg c = spawn msg c
dispatch ready MsgType.transaction now msg c = spawn msg c
dispatch ready MsgType.response now msg c = route msg c
dispatch ready MsgType.error now msg c = route msg c
dispatch _ _ now msg c = reject now msg c

-- one round of the loop
unfoldable pub receive : Timestamp → Inbound → Conn → Conn
unfolding dispatch
receive now (message msg) c = dispatch c.state (type_of msg) now msg c
receive now end_of_stream c = record c { running = false }
receive now (stream_error status) c = record c { running = false }

-- lines 136-156: the link is made and REGISTER is sent; if that fails, the loop is never entered.
registered_link : Result (Unit {0}) Error × PeerLink → Conn
registered_link (ok _, l) = record { state = created; link = l; spawned = []; running = true }
registered_link (err _, l) = record { state = created; link = l; spawned = []; running = false }

unfoldable pub register_message : Codecs → Timestamp → Text → ChaincodeMessage
register_message codecs now chaincode_id = record (new_message now MsgType.register [] [] []) {
  payload = codecs.chaincode_id.encode (record { path = []; name = chaincode_id; version = [] });
}

unfoldable pub connect : Codecs → Timestamp → Text → PeerLink → Conn
unfolding registered_link
connect codecs now chaincode_id l =
    registered_link (send (register_message codecs now chaincode_id) l)

-- What can happen next on a connection: the loop takes what the peer sent; a task starts a ledger
-- request; a task ends, which drops its pending entry and sends its message; a task that never got
-- as far as a stub sends its message; the peer stops reading.
pub data Action : Type 0 where
  inbound : Timestamp → Inbound → Action
  request : Timestamp → MsgType → Bytes → Text → Text → Action
  complete : TxKey → ChaincodeMessage → Action
  answer : ChaincodeMessage → Action
  hang_up : Action

unfoldable pub act : Action → Conn → Conn
unfolding receive
act (inbound now i) c = if c.running then receive now i c else c
act (request now t payload channel_id tx_id) c = record c {
  link = (start_request now t payload channel_id tx_id c.link).1;
}
act (complete key msg) c = send_link msg (record c { link = drop_pending key c.link })
act (answer msg) c = send_link msg c
act hang_up c = record c { link = record c.link { out_open = false } }

unfoldable pub run : List Action → Conn → Conn
run [] c = c
run (a ∷ as') c = run as' (act a c)
