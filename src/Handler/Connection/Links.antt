-- ===== src/Handler/Connection/Links.antt =====
-- The link's invariant in every action of a connection, and in a new connection.
use fabric_chaincode_rs.Prelude.{Bool, true, false, Text, if◌then◌else◌}
use fabric_chaincode_rs.Error.{Error, Result, ok, err}
use fabric_chaincode_rs.Protos.MsgType.{MsgType}
use fabric_chaincode_rs.Protos.Messages.{Timestamp, ChaincodeMessage, type_of}
use fabric_chaincode_rs.Protos.Codec.{Codecs}
use fabric_chaincode_rs.Handler.Link.{PeerLink, send, drop_pending}
use fabric_chaincode_rs.Handler.Link.Invariant.{
  IsLink, IsLink-drop_pending, IsLink-route_response, IsLink-send, IsLink-start_request,
}
use fabric_chaincode_rs.Handler.Connection.{
  ConnState, created, established, ready, Inbound, message, end_of_stream, stream_error, Conn,
  dispatch, receive, Action, inbound, request, complete, answer, hang_up, act, send_link, connect,
  register_message, registered_link,
}

dispatch-IsLink :
    (s : ConnState) (t : MsgType) (now : Timestamp) (msg : ChaincodeMessage) (c : Conn)
    → IsLink c.link
    → IsLink (dispatch s t now msg c).link
unfolding dispatch send_link
dispatch-IsLink created MsgType.registered now msg c h = h
dispatch-IsLink established MsgType.ready now msg c h = h
dispatch-IsLink _ MsgType.keepalive now msg c h = IsLink-send _ c.link h
dispatch-IsLink ready MsgType.init now msg c h = h
dispatch-IsLink ready MsgType.transaction now msg c h = h
dispatch-IsLink ready MsgType.response now msg c h = IsLink-route_response msg c.link h
dispatch-IsLink ready MsgType.error now msg c h = IsLink-route_response msg c.link h
dispatch-IsLink _ _ now msg c h = IsLink-send _ c.link h

pub receive-IsLink :
    (now : Timestamp) (i : Inbound) (c : Conn) → IsLink c.link → IsLink (receive now i c).link
unfolding receive
receive-IsLink now (message msg) c h = dispatch-IsLink c.state (type_of msg) now msg c h
receive-IsLink now end_of_stream c h = h
receive-IsLink now (stream_error m) c h = h

received-IsLink :
    (b : Bool) (now : Timestamp) (i : Inbound) (c : Conn)
    → IsLink c.link
    → IsLink (if b then receive now i c else c).link
received-IsLink true now i c h = receive-IsLink now i c h
received-IsLink false now i c h = h

pub act-IsLink : (a : Action) (c : Conn) → IsLink c.link → IsLink (act a c).link
unfolding act send_link
act-IsLink (inbound now i) c h = received-IsLink c.running now i c h
act-IsLink (request now t payload channel tx) c h =
    IsLink-start_request now t payload channel tx c.link h
act-IsLink (complete key msg) c h =
    IsLink-send msg (drop_pending key c.link) (IsLink-drop_pending key c.link h)
act-IsLink (answer msg) c h = IsLink-send msg c.link h
act-IsLink hang_up c h = record { waits = h.waits; fresh = h.fresh; own = h.own }

registered-IsLink :
    (r : Result (Unit {0}) Error × PeerLink) → IsLink r.1 → IsLink (registered_link r).link
unfolding registered_link
registered-IsLink (ok _, l) h = h
registered-IsLink (err _, l) h = h

connect-IsLink :
    (codecs : Codecs) (now : Timestamp) (id : Text) (l : PeerLink)
    → IsLink l
    → IsLink (connect codecs now id l).link
unfolding connect
connect-IsLink codecs now id l h =
    registered-IsLink (send (register_message codecs now id) l)
      (IsLink-send (register_message codecs now id) l h)
