-- ===== src/Handler/Connection/Shutdown.antt =====
-- Requests in flight when the loop ends.
use fabric_chaincode_rs.Prelude.{
  ℕ, ◌≡◌, ◌≢◌, true, false, none, some, List, [], ◌∷◌, list_Eq, pair_Eq, nat_Eq, All,
}
use fabric_chaincode_rs.Prelude.Map
use fabric_chaincode_rs.Protos.MsgType.{MsgType}
use fabric_chaincode_rs.Protos.Messages.{Timestamp, ChaincodeMessage, type_of}
use fabric_chaincode_rs.Handler.Connection.Links.{receive-IsLink}
use fabric_chaincode_rs.Handler.Link.{TxKey, poll_request, drop_pending}
use fabric_chaincode_rs.Handler.Link.Invariant.{
  IsLink, IsLink-drop_pending, IsLink-send, IsLink-start_request, poll-pending,
}
use fabric_chaincode_rs.Handler.Link.Delivery.{
  drop_pending-other, start_request-keeps, pending-send,
}
use fabric_chaincode_rs.Handler.Connection.{
  ConnState, created, established, ready, Conn, Inbound, message, end_of_stream, stream_error,
  dispatch, receive, spawn, route, echo_keepalive, reject, Action, inbound, request, complete,
  answer, hang_up, act, run, send_link,
}

-- The action is not the end of the transaction itself.
abbrev pub IsOther : TxKey → Action → Type 0
IsOther k (complete key msg) = key ≢ k
IsOther k _ = Unit

-- The loop has ended and a request waits under its key.
record IsStuck (k : TxKey) (s : ℕ) (c : Conn) : Type 0 where
  stopped : c.running ≡ false
  link : IsLink c.link
  waits : Map.get k c.link.pending ≡ some s

act-IsStuck :
    (a : Action) (k : TxKey) (s : ℕ) (c : Conn)
    → IsOther k a
    → IsStuck k s c
    → IsStuck k s (act a c)
unfolding act send_link
act-IsStuck (inbound now i) k s c o h = simp h.stopped h
act-IsStuck (request now t payload channel tx) k s c o h = record {
  stopped = h.stopped;
  link = IsLink-start_request now t payload channel tx c.link h.link;
  waits = start_request-keeps now t payload channel tx k s c.link h.waits;
}
act-IsStuck (complete key msg) k s c o h = record {
  stopped = h.stopped;
  link = IsLink-send msg (drop_pending key c.link) (IsLink-drop_pending key c.link h.link);
  waits = rw pending-send (drop_pending-other key k s c.link h.waits o);
}
act-IsStuck (answer msg) k s c o h = record {
  stopped = h.stopped;
  link = IsLink-send msg c.link h.link;
  waits = rw pending-send h.waits;
}
act-IsStuck hang_up k s c o h = record {
  stopped = h.stopped;
  link = record { waits = h.link.waits; fresh = h.link.fresh; own = h.link.own };
  waits = h.waits;
}

IsStuck-run :
    (as' : List Action) (k : TxKey) (s : ℕ) (c : Conn)
    → IsStuck k s c
    → All (IsOther k) as'
    → IsStuck k s (run as' c)
unfolding run
IsStuck-run [] k s c h o = h
IsStuck-run (a ∷ as') k s c h o = IsStuck-run as' k s (act a c) (act-IsStuck a k s c o.0 h) o.1

module _ (k : TxKey) (s : ℕ) (now : Timestamp) (c : Conn) where
  -- A round that ends the loop leaves the requests in flight where they are.
  reject-waits :
      (msg : ChaincodeMessage)
      → Map.get k c.link.pending ≡ some s
      → Map.get k (reject now msg c).link.pending ≡ some s
  unfolding reject send_link
  reject-waits msg h = rw pending-send h

  dispatch-waits :
      (st : ConnState) (t : MsgType) (msg : ChaincodeMessage)
      → c.running ≡ true
      → (dispatch st t now msg c).running ≡ false
      → Map.get k c.link.pending ≡ some s
      → Map.get k (dispatch st t now msg c).link.pending ≡ some s
  unfolding dispatch spawn route echo_keepalive send_link
  dispatch-waits created MsgType.registered msg on off h = cc
  dispatch-waits established MsgType.ready msg on off h = cc
  dispatch-waits _ MsgType.keepalive msg on off h = cc
  dispatch-waits ready MsgType.init msg on off h = cc
  dispatch-waits ready MsgType.transaction msg on off h = cc
  dispatch-waits ready MsgType.response msg on off h = cc
  dispatch-waits ready MsgType.error msg on off h = cc
  dispatch-waits _ _ msg on off h = reject-waits msg h

  receive-waits :
      (i : Inbound)
      → c.running ≡ true
      → (receive now i c).running ≡ false
      → Map.get k c.link.pending ≡ some s
      → Map.get k (receive now i c).link.pending ≡ some s
  unfolding receive
  receive-waits (message msg) on off h = dispatch-waits c.state (type_of msg) msg on off h
  receive-waits end_of_stream on off h = h
  receive-waits (stream_error e) on off h = h

  receive-IsStuck :
      (i : Inbound)
      → IsLink c.link
      → c.running ≡ true
      → (receive now i c).running ≡ false
      → Map.get k c.link.pending ≡ some s
      → IsStuck k s (act (inbound now i) c)
  unfolding act
  receive-IsStuck i l on off h =
      simp on (record {
        stopped = off;
        link = receive-IsLink now i c l;
        waits = receive-waits i on off h;
      })

  -- A request waits, on a link that keeps its invariant, when the loop ends in a round, since the stream
  -- ends or fails or the message is not allowed: then it has no reply, and waits on whatever happens, as
  -- long as its own transaction does not end first.
  pub run-waits_forever :
      (i : Inbound) (as' : List Action)
      → IsLink c.link
      → c.running ≡ true
      → (receive now i c).running ≡ false
      → Map.get k c.link.pending ≡ some s
      → All (IsOther k) as'
      → poll_request s (run (inbound now i ∷ as') c).link ≡ none
  unfolding run
  run-waits_forever i as' l on off h o =
      let stuck = IsStuck-run as' k s (act (inbound now i) c) (receive-IsStuck i l on off h) o in
      poll-pending k s (run as' (act (inbound now i) c)).link stuck.link stuck.waits
