-- ===== src/Handler/Connection/Replies.antt =====
-- What the loop itself sends: echoes of keepalives, and an ERROR before it closes.
use fabric_chaincode_rs.Prelude.{◌≡◌, refl, true, false, [], ◌∷◌, ◌++◌, str, ap}
use fabric_chaincode_rs.Utf8.{into_bytes}
use fabric_chaincode_rs.Protos.MsgType.{MsgType}
use fabric_chaincode_rs.Protos.MsgType
use fabric_chaincode_rs.Protos.Messages.{Timestamp, ChaincodeMessage, type_of}
use fabric_chaincode_rs.Handler.Link.{new_message}
use fabric_chaincode_rs.Handler.Link.Delivery.{sent-send}
use fabric_chaincode_rs.Handler.Connection.{
  ConnState, created, established, ready, message, Conn, dispatch, receive, send_link, debug_state,
  reject, echo_keepalive,
}
use fabric_chaincode_rs.Handler.Connection.Handshake.{
  Legal, on_registered, on_ready, on_keepalive, on_init, on_transaction, on_response, on_error,
}

dispatch-keepalive :
    (s : ConnState) (now : Timestamp) (msg : ChaincodeMessage) (c : Conn)
    → dispatch s MsgType.keepalive now msg c ≡ echo_keepalive now msg c
unfolding dispatch
dispatch-keepalive created now msg c = refl
dispatch-keepalive _ now msg c = refl

-- While the queue to the peer is open, a keepalive is in every state answered by an empty keepalive for the same channel and
-- transaction, and nothing else of the connection changes.
pub receive-keepalive :
    (now : Timestamp) (msg : ChaincodeMessage) (c : Conn)
    → type_of msg ≡ MsgType.keepalive
    → c.link.out_open ≡ true
    → receive now (message msg) c ≡ record c {
      link = record c.link {
        sent = c.link.sent ++ new_message now MsgType.keepalive [] msg.channel_id msg.txid ∷ [];
      };
    }
unfolding receive
receive-keepalive now msg c k up =
    rw (k, dispatch-keepalive)
      (unfold echo_keepalive send_link in
        ap (λ l. record c { link = l })
          (sent-send (new_message now MsgType.keepalive [] msg.channel_id msg.txid) c.link up))

dispatch-illegal :
    (s : ConnState) (t : MsgType) (now : Timestamp) (msg : ChaincodeMessage) (c : Conn)
    → ¬ Legal s t
    → dispatch s t now msg c ≡ reject now msg c
unfolding dispatch
dispatch-illegal created MsgType.registered now msg c n = absurd (n on_registered)
dispatch-illegal established MsgType.ready now msg c n = absurd (n on_ready)
dispatch-illegal _ MsgType.keepalive now msg c n = absurd (n on_keepalive)
dispatch-illegal ready MsgType.init now msg c n = absurd (n on_init)
dispatch-illegal ready MsgType.transaction now msg c n = absurd (n on_transaction)
dispatch-illegal ready MsgType.response now msg c n = absurd (n on_response)
dispatch-illegal ready MsgType.error now msg c n = absurd (n on_error)
dispatch-illegal _ _ now msg c n = refl

-- While the queue to the peer is open, a message that the protocol does not allow in the state is
-- answered by an ERROR for the same
-- channel and transaction, which names the message's type and the state; the loop ends, and
-- requests in flight, state and spawned transactions stay as they were.
pub receive-illegal :
    (now : Timestamp) (msg : ChaincodeMessage) (c : Conn)
    → ¬ Legal c.state (type_of msg)
    → c.link.out_open ≡ true
    → receive now (message msg) c ≡ record c {
      link = record c.link {
        sent =
            c.link.sent
            ++ new_message now MsgType.error
                (into_bytes (
                  str "received "
                  ++ MsgType.debug (type_of msg)
                  ++ str " in state "
                  ++ debug_state c.state))
                msg.channel_id
                msg.txid
              ∷ [];
      };
      running = false;
    }
unfolding receive
receive-illegal now msg c n up = rw (dispatch-illegal c.state (type_of msg) now msg c n) (
    unfold reject send_link in
    ap (λ l. record c { link = l; running = false }) (sent-send _ c.link up))
