-- ===== src/Handler/Connection/Entries.antt =====
-- Which actions put a key into the map of requests in flight.
use fabric_chaincode_rs.Prelude.{
  ℕ, ◌≡◌, ◌≢◌, sym, ap, ◌∙◌, some, list_Eq, pair_Eq, nat_Eq, Bool-cases, inl, inr,
}
use fabric_chaincode_rs.Prelude.Map
use fabric_chaincode_rs.Protos.MsgType.{MsgType}
use fabric_chaincode_rs.Protos.Messages.{Timestamp, ChaincodeMessage, type_of}
use fabric_chaincode_rs.Handler.Link.{TxKey, drop_pending}
use fabric_chaincode_rs.Handler.Link.Delivery.{pending-send}
use fabric_chaincode_rs.Handler.Link.Entries.{
  route_response-entry, drop_pending-entry, start_request-entry,
}
use fabric_chaincode_rs.Handler.Connection.{
  ConnState, created, established, ready, Inbound, message, end_of_stream, stream_error, Conn,
  dispatch, receive, Action, inbound, request, complete, answer, hang_up, act, send_link,
}

-- The action is not the start of a request of the transaction.
abbrev pub IsForeign : TxKey → Action → Type 0
IsForeign k (request now t payload channel tx) = (channel, tx) ≢ k
IsForeign k _ = Unit

module _ (k : TxKey) (n : ℕ) where
  send_link-entry :
      (msg : ChaincodeMessage) (c : Conn)
      → Map.get k (send_link msg c).link.pending ≡ some n
      → Map.get k c.link.pending ≡ some n
  unfolding send_link
  send_link-entry msg c h = ap (λ p. Map.get k p) (sym (pending-send msg c.link)) ∙ h

  dispatch-entry :
      (s : ConnState) (t : MsgType) (now : Timestamp) (msg : ChaincodeMessage) (c : Conn)
      → Map.get k (dispatch s t now msg c).link.pending ≡ some n
      → Map.get k c.link.pending ≡ some n
  unfolding dispatch
  dispatch-entry created MsgType.registered now msg c h = h
  dispatch-entry established MsgType.ready now msg c h = h
  dispatch-entry _ MsgType.keepalive now msg c h = send_link-entry _ c h
  dispatch-entry ready MsgType.init now msg c h = h
  dispatch-entry ready MsgType.transaction now msg c h = h
  dispatch-entry ready MsgType.response now msg c h = route_response-entry k n msg c.link h
  dispatch-entry ready MsgType.error now msg c h = route_response-entry k n msg c.link h
  dispatch-entry _ _ now msg c h = send_link-entry _ c h

  receive-entry :
      (now : Timestamp) (i : Inbound) (c : Conn)
      → Map.get k (receive now i c).link.pending ≡ some n
      → Map.get k c.link.pending ≡ some n
  unfolding receive
  receive-entry now (message msg) c h = dispatch-entry c.state (type_of msg) now msg c h
  receive-entry now end_of_stream c h = h
  receive-entry now (stream_error e) c h = h

  pub act-entry :
      (a : Action) (c : Conn)
      → IsForeign k a
      → Map.get k (act a c).link.pending ≡ some n
      → Map.get k c.link.pending ≡ some n
  unfolding act
  act-entry (inbound now i) c f = elim (Bool-cases c.running) [
    | inl on ↦ simp on (receive-entry now i c)
    | inr off ↦ simp off (λ h. h)
  ]
  act-entry (request now t payload channel tx) c f =
      start_request-entry k n now t payload channel tx c.link f
  act-entry (complete key msg) c f = λ h.
      drop_pending-entry k n key c.link
        (send_link-entry msg (record c { link = drop_pending key c.link }) h)
  act-entry (answer msg) c f = send_link-entry msg c
  act-entry hang_up c f = λ h. h
