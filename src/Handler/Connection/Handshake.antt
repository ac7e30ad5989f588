-- ===== src/Handler/Connection/Handshake.antt =====
-- The handshake and the dispatch: which messages a connection takes in which state.
use fabric_chaincode_rs.Prelude.{
  ◌≡◌, ◌≢◌, refl, Bool, true, false, List, [], ◌∷◌, arith, if◌then◌else◌, Bool-cases, inl, inr, ◌↔◌,
  ◌∙◌,
}
use fabric_chaincode_rs.Protos.MsgType.{MsgType}
use fabric_chaincode_rs.Protos.Messages.{Timestamp, ChaincodeMessage, type_of}
use fabric_chaincode_rs.Handler.Connection.{
  ConnState, created, established, ready, message, end_of_stream, stream_error, Conn, dispatch,
  receive, send_link, Action, inbound, request, complete, answer, hang_up, act, run,
}

-- The protocol: what the peer may send in each state.
pub data Legal : ConnState → MsgType → Type 0 where
  on_registered : Legal created MsgType.registered
  on_ready : Legal established MsgType.ready
  on_keepalive : {s : ConnState} → Legal s MsgType.keepalive
  on_init : Legal ready MsgType.init
  on_transaction : Legal ready MsgType.transaction
  on_response : Legal ready MsgType.response
  on_error : Legal ready MsgType.error

Legal-running :
    {s : ConnState} {t : MsgType}
    → Legal s t
    → (now : Timestamp) (msg : ChaincodeMessage) (c : Conn)
    → (dispatch s t now msg c).running ≡ c.running
unfolding dispatch send_link
Legal-running on_registered now msg c = refl
Legal-running on_ready now msg c = refl
Legal-running (on_keepalive {s}) now msg c = keep s
  where
    keep : (s : ConnState) → (dispatch s MsgType.keepalive now msg c).running ≡ c.running
    keep created = refl
    keep _ = refl
Legal-running on_init now msg c = refl
Legal-running on_transaction now msg c = refl
Legal-running on_response now msg c = refl
Legal-running on_error now msg c = refl

running-Legal :
    (s : ConnState) (t : MsgType) (now : Timestamp) (msg : ChaincodeMessage) (c : Conn)
    → (dispatch s t now msg c).running ≡ true
    → Legal s t
unfolding dispatch
running-Legal created MsgType.registered now msg c h = on_registered
running-Legal established MsgType.ready now msg c h = on_ready
running-Legal _ MsgType.keepalive now msg c h = on_keepalive
running-Legal ready MsgType.init now msg c h = on_init
running-Legal ready MsgType.transaction now msg c h = on_transaction
running-Legal ready MsgType.response now msg c h = on_response
running-Legal ready MsgType.error now msg c h = on_error
running-Legal _ _ now msg c h = cc

-- A running connection goes on after a message exactly when the protocol allows that message in its
-- state.
pub receive_iff_Legal :
    (now : Timestamp) (msg : ChaincodeMessage) (c : Conn)
    → c.running ≡ true
    → ((receive now (message msg) c).running ≡ true) ↔ Legal c.state (type_of msg)
unfolding receive
receive_iff_Legal now msg c up =
    (running-Legal c.state (type_of msg) now msg c, λ legal. rw (Legal-running legal now msg c) up)

-- The types of the messages that the peer sent, in order, keepalives left out.
abbrev significant : MsgType → List MsgType → List MsgType
significant MsgType.keepalive ts = ts
significant t ts = t ∷ ts

unfoldable pub received_types : List Action → List MsgType
received_types [] = []
received_types (inbound now (message msg) ∷ as') = significant (type_of msg) (received_types as')
received_types (_ ∷ as') = received_types as'

-- A connection that has stopped keeps its state.
act-stopped :
    (a : Action) (c : Conn)
    → c.running ≡ false
    → ((act a c).running ≡ false) × ((act a c).state ≡ c.state) × ((act a c).spawned ≡ c.spawned)
unfolding act send_link
act-stopped (inbound now i) c h = simp h (refl, refl, refl)
act-stopped (request now t payload channel tx) c h = (h, refl, refl)
act-stopped (complete key msg) c h = (h, refl, refl)
act-stopped (answer msg) c h = (h, refl, refl)
act-stopped hang_up c h = (h, refl, refl)

pub run-stopped :
    (as' : List Action) (c : Conn)
    → c.running ≡ false
    → ((run as' c).running ≡ false)
      × ((run as' c).state ≡ c.state)
      × ((run as' c).spawned ≡ c.spawned)
unfolding run
run-stopped [] c h = (h, refl, refl)
run-stopped (a ∷ as') c h =
    let (down, state, spawned) = act-stopped a c h in
    let (down', state', spawned') = run-stopped as' (act a c) down in
    (down', state' ∙ state, spawned' ∙ spawned)

-- What a message does to the state, told by its type.
data Moves (s : ConnState) (t : MsgType) (c' : Conn) : Type 0 where
  stays : t ≡ MsgType.keepalive → c'.state ≡ s → Moves s t c'
  registers : s ≡ created → t ≡ MsgType.registered → c'.state ≡ established → Moves s t c'
  readies : s ≡ established → t ≡ MsgType.ready → c'.state ≡ ready → Moves s t c'
  works : s ≡ ready → c'.state ≡ ready → Moves s t c'
  stops : c'.running ≡ false → c'.state ≡ s → Moves s t c'

dispatch-Moves :
    (s : ConnState) (t : MsgType) (now : Timestamp) (msg : ChaincodeMessage) (c : Conn)
    → c.state ≡ s
    → Moves s t (dispatch s t now msg c)
unfolding dispatch send_link
dispatch-Moves created MsgType.registered now msg c e = registers refl refl refl
dispatch-Moves established MsgType.ready now msg c e = readies refl refl refl
dispatch-Moves _ MsgType.keepalive now msg c e = stays refl e
dispatch-Moves ready MsgType.init now msg c e = works refl e
dispatch-Moves ready MsgType.transaction now msg c e = works refl e
dispatch-Moves ready MsgType.response now msg c e = works refl e
dispatch-Moves ready MsgType.error now msg c e = works refl e
dispatch-Moves _ _ now msg c e = stops refl e

-- The messages from the peer that bring a connection from a state to `ready`.
pub data Handshake : ConnState → List MsgType → Type 0 where
  done : {ts : List MsgType} → Handshake ready ts
  await_ready : {ts : List MsgType} → Handshake established (MsgType.ready ∷ ts)
  await_registered :
      {ts : List MsgType} → Handshake established ts → Handshake created (MsgType.registered ∷ ts)

moved_Handshake :
    (s : ConnState) (t : MsgType) (ts : List MsgType) (c' : Conn)
    → Moves s t c'
    → Handshake c'.state ts
    → (c'.running ≡ false → c'.state ≡ ready)
    → Handshake s (significant t ts)
moved_Handshake s t ts c' (stays e f) h stop = rw (e, ← f) h
moved_Handshake s t ts c' (registers e f g) h stop = rw (e, f) (await_registered (rw (← g) h))
moved_Handshake s t ts c' (readies e f g) h stop = rw (e, f) await_ready
moved_Handshake s t ts c' (works e f) h stop = rw e done
moved_Handshake s t ts c' (stops e f) h stop = rw (← f, stop e) done

stopped_state :
    (b : Bool) (c : Conn) → (if b then record c { running = false } else c).state ≡ c.state
stopped_state true c = refl
stopped_state false c = refl

act-Handshake :
    (a : Action) (as' : List Action) (c : Conn)
    → Handshake (act a c).state (received_types as')
    → (c.running ≡ false → c.state ≡ ready)
    → ((act a c).running ≡ false → (act a c).state ≡ ready)
    → Handshake c.state (received_types (a ∷ as'))
unfolding act received_types receive send_link
act-Handshake (inbound now (message msg)) as' c h stop stop' = elim (Bool-cases c.running) [
  | inl up ↦
      let at : (if c.running then dispatch c.state (type_of msg) now msg c else c)
          ≡ dispatch c.state (type_of msg) now msg c =
        rw up refl in
      moved_Handshake c.state (type_of msg) (received_types as')
        (dispatch c.state (type_of msg) now msg c)
        (dispatch-Moves c.state (type_of msg) now msg c refl) (rw at at h) (rw at at stop')
  | inr down ↦ rw (stop down) done
]
act-Handshake (inbound now end_of_stream) as' c h stop stop' = rw (stopped_state c.running c) at h
act-Handshake (inbound now (stream_error m)) as' c h stop stop' =
    rw (stopped_state c.running c) at h
act-Handshake (request now t payload channel tx) as' c h stop stop' = h
act-Handshake (complete key msg) as' c h stop stop' = h
act-Handshake (answer msg) as' c h stop stop' = h
act-Handshake hang_up as' c h stop stop' = h

-- A connection that ends up in `ready` was sent, keepalives aside, REGISTERED and then READY first
-- if it was `created`, READY first if it was `established`.
pub run-Handshake :
    (as' : List Action) (c : Conn)
    → (run as' c).state ≡ ready
    → Handshake c.state (received_types as')
unfolding run
run-Handshake [] c h = rw h done
run-Handshake (a ∷ as') c h =
    act-Handshake a as' c (run-Handshake as' (act a c) h)
      (λ down. cc ((run-stopped (a ∷ as') c down).1, h))
      (λ down. cc ((run-stopped as' (act a c) down).1, h))

dispatch-spawned :
    (s : ConnState) (t : MsgType) (now : Timestamp) (msg : ChaincodeMessage) (c : Conn)
    → c.state ≡ s
    → (c.spawned ≢ [] → c.state ≡ ready)
    → (dispatch s t now msg c).spawned ≢ []
    → (dispatch s t now msg c).state ≡ ready
unfolding dispatch send_link
dispatch-spawned created MsgType.registered now msg c e h = λ n. absurd (cc (h n, e))
dispatch-spawned established MsgType.ready now msg c e h = λ n. refl
dispatch-spawned _ MsgType.keepalive now msg c e h = h
dispatch-spawned ready MsgType.init now msg c e h = λ n. e
dispatch-spawned ready MsgType.transaction now msg c e h = λ n. e
dispatch-spawned ready MsgType.response now msg c e h = h
dispatch-spawned ready MsgType.error now msg c e h = h
dispatch-spawned _ _ now msg c e h = h

act-spawned :
    (a : Action) (c : Conn)
    → (c.spawned ≢ [] → c.state ≡ ready)
    → (act a c).spawned ≢ []
    → (act a c).state ≡ ready
unfolding act send_link
act-spawned (inbound now (message msg)) c h = elim (Bool-cases c.running) [
  | inl up ↦ simp up (unfold receive in dispatch-spawned c.state (type_of msg) now msg c refl h)
  | inr down ↦ simp down h
]
act-spawned (inbound now end_of_stream) c h = ground arith
act-spawned (inbound now (stream_error m)) c h = ground arith
act-spawned (request now t payload channel tx) c h = h
act-spawned (complete key msg) c h = h
act-spawned (answer msg) c h = h
act-spawned hang_up c h = h

run-spawned :
    (as' : List Action) (c : Conn)
    → (c.spawned ≢ [] → c.state ≡ ready)
    → (run as' c).spawned ≢ []
    → (run as' c).state ≡ ready
unfolding run
run-spawned [] c h = h
run-spawned (a ∷ as') c h = run-spawned as' (act a c) (act-spawned a c h)

-- On a run from a connection with no transaction, a transaction is spawned only after the handshake:
-- the peer sent, keepalives aside, REGISTERED and then READY first if the connection was `created`,
-- READY first if it was `established`.
pub spawned-Handshake :
    (as' : List Action) (c : Conn)
    → c.spawned ≡ []
    → (run as' c).spawned ≢ []
    → Handshake c.state (received_types as')
spawned-Handshake as' c none_yet some_now =
    run-Handshake as' c (run-spawned as' c (λ n. absurd (n none_yet)) some_now)
