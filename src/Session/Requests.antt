-- ===== src/Session/Requests.antt =====
-- What a request of a transaction gives, by the peer's answer.
use fabric_chaincode_rs.Prelude.{
  ◌≡◌, refl, ◌∙◌, true, false, none, some, [], ◌∷◌, ◌++◌, Bytes, list_Eq, pair_Eq, nat_Eq, arith,
}
use fabric_chaincode_rs.Prelude.Map
use fabric_chaincode_rs.Error.{ok}
use fabric_chaincode_rs.Protos.MsgType.{MsgType}
use fabric_chaincode_rs.Protos.Messages.{ChaincodeMessage, type_of}
use fabric_chaincode_rs.Handler.Link.{TxKey, key_of, new_message, route_response, interpret_reply}
use fabric_chaincode_rs.Handler.Link.Delivery.{
  start_request-free, route_self, route-sent, route-out_open,
}
use fabric_chaincode_rs.Session.{
  Env, Session, StubCore, done, hung, core_request, await_reply, awaited,
}

abbrev pub core_key : StubCore → TxKey
core_key core = (core.channel_id, core.tx_id)

-- No request of the transaction is in flight, and the queue to the peer is open.
pub record IsIdle {W : Type 0} (core : StubCore) (s : Session W) : Type 0 where
  pub free : Map.contains_key (core_key core) s.link.pending ≡ false
  pub up : s.link.out_open ≡ true

module _ {W : Type 0} (env : Env W) (core : StubCore) (t : MsgType) (payload : Bytes)
    (s : Session W) where
  abbrev pub sent_message : ChaincodeMessage
  sent_message = new_message (env.now s.world) t payload core.channel_id core.tx_id

  -- The peer's answer to an idle transaction's request is interpreted, and leaves the transaction
  -- idle; the request is the one message sent, and the event slot is untouched.
  pub request-replied :
      (reply : ChaincodeMessage) (w : W)
      → IsIdle core s
      → env.reply sent_message s.world ≡ (some reply, w)
      → key_of reply ≡ core_key core
      → (s' : Session W) × (core_request env core t payload s ≡ (done (interpret_reply reply), s'))
        × IsIdle core s'
        × (s'.world ≡ w)
        × (s'.event ≡ s.event)
        × (s'.link.sent ≡ s.link.sent ++ sent_message ∷ [])
  unfolding core_request
  request-replied reply w idle answered key =
      let (l, started, sent, waits, _, up) =
        start_request-free (env.now s.world) t payload core.channel_id core.tx_id s.link idle.free
          idle.up in
      let (polled, freed) = route_self reply l s.link.next (rw key waits) in
      (
        record s { link = route_response reply l; world = w },
        rw (started, answered, await_reply, polled, awaited) refl,
        record {
          free =
              Map.contains_key_absent (core_key core) (route_response reply l).pending
                (rw key at freed);
          up = route-out_open reply l ∙ up;
        },
        refl,
        refl,
        route-sent reply l ∙ sent,
      )

  -- If the peer does not answer an idle transaction's request, the request never returns.
  pub request-unanswered :
      (w : W)
      → IsIdle core s
      → env.reply sent_message s.world ≡ (none, w)
      → (core_request env core t payload s).0 ≡ hung
  unfolding core_request
  request-unanswered w idle answered =
      let (l, started, _, _, polled, _) =
        start_request-free (env.now s.world) t payload core.channel_id core.tx_id s.link idle.free
          idle.up in
      rw (started, answered, await_reply, polled, awaited) refl

-- The peer answers a request made in `w` by a RESPONSE for the same transaction that carries
-- `body`, and is then in `w'`.
pub record Responds {W : Type 0} (env : Env W) (core : StubCore) (t : MsgType) (payload : Bytes)
    (w : W) (body : Bytes) (w' : W) : Type 0 where
  pub message : ChaincodeMessage
  pub replied :
      env.reply (new_message (env.now w) t payload core.channel_id core.tx_id) w
      ≡ (some message, w')
  pub key : key_of message ≡ core_key core
  pub type : type_of message ≡ MsgType.response
  pub body_eq : message.payload ≡ body

-- What an idle transaction keeps: it is idle again, in the peer's new state, with its event slot.
pub record Stays {W : Type 0} (core : StubCore) (s s' : Session W) (w : W) : Type 0 where
  pub idle : IsIdle core s'
  pub world : s'.world ≡ w
  pub event : s'.event ≡ s.event

interpret-response :
    (m : ChaincodeMessage) → type_of m ≡ MsgType.response → interpret_reply m ≡ ok m
unfolding interpret_reply
interpret-response m h = ground arith

pub request-Responds :
    {W : Type 0} (env : Env W) (core : StubCore) (t : MsgType) (payload : Bytes) (s : Session W)
    {body : Bytes} {w : W}
    → IsIdle core s
    → Responds env core t payload s.world body w
    → (reply : ChaincodeMessage) × (s' : Session W) × (core_request env core t payload s
        ≡ (done (ok reply), s'))
      × (reply.payload ≡ body)
      × Stays core s s' w
request-Responds env core t payload s idle r =
    let (s', e, idle', world, event, _) =
      request-replied env core t payload s r.message _ idle r.replied r.key in
    (
      r.message,
      s',
      rw (e, interpret-response r.message r.type) refl,
      r.body_eq,
      record { idle = idle'; world = world; event = event },
    )
