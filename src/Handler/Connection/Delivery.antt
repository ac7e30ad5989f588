-- ===== src/Handler/Connection/Delivery.antt =====
-- A request and its reply on a connection where other transactions' tasks run in between.
use fabric_chaincode_rs.Prelude.{
  ℕ, ◌≡◌, ◌≢◌, refl, true, none, some, List, [], ◌∷◌, ◌++◌, list_Eq, pair_Eq, nat_Eq, All,
  Bool-cases, ◌⊎◌, inl, inr,
}
use fabric_chaincode_rs.Prelude.Map
use fabric_chaincode_rs.Protos.MsgType.{MsgType}
use fabric_chaincode_rs.Protos.Messages.{Timestamp, ChaincodeMessage, type_of}
use fabric_chaincode_rs.Handler.Link.{
  TxKey, key_of, poll_request, interpret_reply, drop_pending, route_response,
}
use fabric_chaincode_rs.Handler.Link.Invariant.{IsLink, poll-pending}
use fabric_chaincode_rs.Handler.Link.Delivery.{
  drop_pending-other, start_request-keeps, pending-send, route_response-other,
}
use fabric_chaincode_rs.Handler.Link.Holding.{
  IsHolding, poll-IsHolding, IsHolding-route_self, IsHolding-drop_pending, IsHolding-route_response,
  IsHolding-send, IsHolding-start_request,
}
use fabric_chaincode_rs.Handler.Connection.{
  ConnState, created, established, ready, Inbound, message, end_of_stream, stream_error, Conn,
  dispatch, receive, Action, inbound, request, complete, answer, hang_up, act, run, send_link,
}
use fabric_chaincode_rs.Handler.Connection.Links.{act-IsLink}

-- The action is not the end of the transaction itself, nor a message for it.
abbrev pub IsUnrelated : TxKey → Action → Type 0
IsUnrelated k (inbound now (message msg)) = key_of msg ≢ k
IsUnrelated k (complete key msg) = key ≢ k
IsUnrelated k _ = Unit

-- The connection is ready and a request waits under its key.
pub record IsWaiting (k : TxKey) (s : ℕ) (c : Conn) : Type 0 where
  pub ready : c.state ≡ ConnState.ready
  pub link : IsLink c.link
  pub waits : Map.get k c.link.pending ≡ some s

module _ (k : TxKey) (s : ℕ) where
  dispatch-waits :
      (t : MsgType) (now : Timestamp) (msg : ChaincodeMessage) (c : Conn)
      → key_of msg ≢ k
      → IsWaiting k s c
      → (Map.get k (dispatch ready t now msg c).link.pending ≡ some s)
        × ((dispatch ready t now msg c).state ≡ ready)
  unfolding dispatch send_link
  dispatch-waits MsgType.init now msg c o h = (h.waits, h.ready)
  dispatch-waits MsgType.transaction now msg c o h = (h.waits, h.ready)
  dispatch-waits MsgType.response now msg c o h =
      ((route_response-other msg c.link k s h.link h.waits o).0, h.ready)
  dispatch-waits MsgType.error now msg c o h =
      ((route_response-other msg c.link k s h.link h.waits o).0, h.ready)
  dispatch-waits _ now msg c o h = (rw pending-send h.waits, h.ready)

  receive-waits :
      (now : Timestamp) (i : Inbound) (c : Conn)
      → IsUnrelated k (inbound now i)
      → IsWaiting k s c
      → (Map.get k (receive now i c).link.pending ≡ some s) × ((receive now i c).state ≡ ready)
  unfolding receive
  receive-waits now (message msg) c o h = simp h.ready (dispatch-waits (type_of msg) now msg c o h)
  receive-waits now end_of_stream c o h = (h.waits, h.ready)
  receive-waits now (stream_error e) c o h = (h.waits, h.ready)

  act-waits :
      (a : Action) (c : Conn)
      → IsUnrelated k a
      → IsWaiting k s c
      → (Map.get k (act a c).link.pending ≡ some s) × ((act a c).state ≡ ready)
  unfolding act send_link
  act-waits (inbound now i) c o h = elim (Bool-cases c.running) [
    | inl on ↦ simp on (receive-waits now i c o h)
    | inr off ↦ simp off (h.waits, h.ready)
  ]
  act-waits (request now t payload channel tx) c o h =
      (start_request-keeps now t payload channel tx k s c.link h.waits, h.ready)
  act-waits (complete key msg) c o h =
      (rw pending-send (drop_pending-other key k s c.link h.waits o), h.ready)
  act-waits (answer msg) c o h = (rw pending-send h.waits, h.ready)
  act-waits hang_up c o h = (h.waits, h.ready)

  pub run-IsWaiting :
      (as' : List Action) (c : Conn)
      → All (IsUnrelated k) as'
      → IsWaiting k s c
      → IsWaiting k s (run as' c)
  unfolding run
  run-IsWaiting [] c o h = h
  run-IsWaiting (a ∷ as') c o h =
      let (waits, up) = act-waits a c o.0 h in
      run-IsWaiting as' (act a c) o.1
        (record { ready = up; link = act-IsLink a c h.link; waits = waits })

module _ (s : ℕ) (reply : ChaincodeMessage) where
  dispatch-IsHolding :
      (st : ConnState) (t : MsgType) (now : Timestamp) (msg : ChaincodeMessage) (c : Conn)
      → IsHolding s reply c.link
      → IsHolding s reply (dispatch st t now msg c).link
  unfolding dispatch send_link
  dispatch-IsHolding created MsgType.registered now msg c h = h
  dispatch-IsHolding established MsgType.ready now msg c h = h
  dispatch-IsHolding _ MsgType.keepalive now msg c h = IsHolding-send s reply _ c.link h
  dispatch-IsHolding ready MsgType.init now msg c h = h
  dispatch-IsHolding ready MsgType.transaction now msg c h = h
  dispatch-IsHolding ready MsgType.response now msg c h =
      IsHolding-route_response s reply msg c.link h
  dispatch-IsHolding ready MsgType.error now msg c h = IsHolding-route_response s reply msg c.link h
  dispatch-IsHolding _ _ now msg c h = IsHolding-send s reply _ c.link h

  receive-IsHolding :
      (now : Timestamp) (i : Inbound) (c : Conn)
      → IsHolding s reply c.link
      → IsHolding s reply (receive now i c).link
  unfolding receive
  receive-IsHolding now (message msg) c h = dispatch-IsHolding c.state (type_of msg) now msg c h
  receive-IsHolding now end_of_stream c h = h
  receive-IsHolding now (stream_error m) c h = h

  act-IsHolding :
      (a : Action) (c : Conn) → IsHolding s reply c.link → IsHolding s reply (act a c).link
  unfolding act send_link
  act-IsHolding (inbound now i) c h = elim (Bool-cases c.running) [
    | inl on ↦ simp on (receive-IsHolding now i c h)
    | inr off ↦ simp off h
  ]
  act-IsHolding (request now t payload channel tx) c h =
      IsHolding-start_request s reply now t payload channel tx c.link h
  act-IsHolding (complete key msg) c h =
      IsHolding-send s reply msg (drop_pending key c.link)
        (IsHolding-drop_pending s reply key c.link h)
  act-IsHolding (answer msg) c h = IsHolding-send s reply msg c.link h
  act-IsHolding hang_up c h = record { held = h.held; unowned = h.unowned; old = h.old }

  run-IsHolding :
      (as' : List Action) (c : Conn) → IsHolding s reply c.link → IsHolding s reply (run as' c).link
  unfolding run
  run-IsHolding [] c h = h
  run-IsHolding (a ∷ as') c h = run-IsHolding as' (act a c) (act-IsHolding a c h)

pub run-append :
    (front back : List Action) (c : Conn) → run (front ++ back) c ≡ run back (run front c)
unfolding run
run-append [] back c = refl
run-append (a ∷ front) back c = run-append front back (act a c)

-- A RESPONSE or an ERROR.
abbrev pub IsReply : ChaincodeMessage → Type 0
IsReply msg = (type_of msg ≡ MsgType.response) ⊎ (type_of msg ≡ MsgType.error)

pub act-reply :
    (now : Timestamp) (reply : ChaincodeMessage) (c : Conn)
    → IsReply reply
    → c.state ≡ ready
    → c.running ≡ true
    → act (inbound now (message reply)) c ≡ record c { link = route_response reply c.link }
unfolding act receive dispatch
act-reply now reply c (inl t) up on = simp (on, up, t) refl
act-reply now reply c (inr t) up on = simp (on, up, t) refl

module _ (k : TxKey) (s : ℕ) (before after : List Action) (now : Timestamp)
    (reply : ChaincodeMessage) (c : Conn) where
  -- A request that waits on a ready connection, whose link keeps its invariant: whatever other
  -- transactions do and the peer sends them before, it waits until the reply for its transaction
  -- comes, and, if the loop still runs then, it gets that reply, whatever happens after.
  pub run-delivers :
      c.state ≡ ready
      → IsLink c.link
      → Map.get k c.link.pending ≡ some s
      → All (IsUnrelated k) before
      → (run before c).running ≡ true
      → IsReply reply
      → key_of reply ≡ k
      → (poll_request s (run before c).link ≡ none)
        × (poll_request s (run (before ++ inbound now (message reply) ∷ after) c).link
            ≡ some (interpret_reply reply))
  run-delivers up inv waits o on r key =
      let w = run-IsWaiting k s before c o (record { ready = up; link = inv; waits = waits }) in
      let held : IsHolding s reply (act (inbound now (message reply)) (run before c)).link =
        rw (act-reply now reply (run before c) r w.ready on)
          (IsHolding-route_self reply s (run before c).link w.link (rw key w.waits)) in
      (
        poll-pending k s (run before c).link w.link w.waits,
        rw (run-append before (inbound now (message reply) ∷ after) c) (
            poll-IsHolding s reply (run (inbound now (message reply) ∷ after) (run before c)).link (
              unfold run in
              run-IsHolding s reply after (act (inbound now (message reply)) (run before c)) held)),
      )
