-- ===== src/Session/Gate/Rounds.antt =====
-- The calls that wait at the gate, one after the other.
use fabric_chaincode_rs.Prelude.{
  ℕ, ◌≡◌, refl, sym, ap, ◌∙◌, true, false, some, List, [], ◌∷◌, ◌++◌, map, append_assoc, append-nil,
  list_Eq, pair_Eq, nat_Eq, All,
}
use fabric_chaincode_rs.Prelude.Map
use fabric_chaincode_rs.Protos.Messages.{Timestamp, ChaincodeMessage}
use fabric_chaincode_rs.Handler.Link.{route_response, poll_request, interpret_reply, key_of}
use fabric_chaincode_rs.Handler.Link.Delivery.{start_request-free, route_self, route-out_open}
use fabric_chaincode_rs.Handler.Connection.{ConnState, message, inbound}
use fabric_chaincode_rs.Handler.Connection.Delivery.{IsReply, act-reply}
use fabric_chaincode_rs.Session.{StubCore}
use fabric_chaincode_rs.Session.Requests.{core_key}
use fabric_chaincode_rs.Session.Gate.Steps.{happen_at, grant-first, start-entered}
use fabric_chaincode_rs.Session.Gate.{
  Call, nobody, entered, awaiting, Calls, Event, grant, start, poll, outside, started, polled,
  leave_gate, with_link, step, happen, run_calls,
}

-- The oldest waiting call gets the gate and starts its request, the reply comes, and it is taken.
abbrev pub rounds : Timestamp → List (Call × ChaincodeMessage) → List Event
rounds now [] = []
rounds now ((c, m) ∷ rs) =
    grant 0 ∷ start now ∷ outside (inbound now (message m)) ∷ poll ∷ rounds now rs

abbrev pub IsReplyTo : StubCore → Call × ChaincodeMessage → Type 0
IsReplyTo core r = IsReply r.1 × (key_of r.1 ≡ core_key core)

-- The connection is ready and open, its loop runs, and the transaction's gate is free with no request
-- in flight.
pub record IsOpen (core : StubCore) (s : Calls) : Type 0 where
  pub free : Map.contains_key (core_key core) s.conn.link.pending ≡ false
  pub up : s.conn.link.out_open ≡ true
  pub state : s.conn.state ≡ ConnState.ready
  pub running : s.conn.running ≡ true
  pub gate : s.holder ≡ nobody

module _ (core : StubCore) where
  module _ (now : Timestamp) (c : Call) (m : ChaincodeMessage) where
    outside-reply :
        (s : Calls)
        → IsReply m
        → s.conn.state ≡ ConnState.ready
        → s.conn.running ≡ true
        → happen core (outside (inbound now (message m))) s
          ≡ record s { conn = record s.conn { link = route_response m s.conn.link } }
    unfolding happen step
    outside-reply s r up on = ap (λ d. record s { conn = d }) (act-reply now m s.conn r up on)

    poll-awaiting :
        (slot : ℕ) (s : Calls)
        → s.holder ≡ awaiting c slot
        → poll_request slot s.conn.link ≡ some (interpret_reply m)
        → happen core poll s ≡ leave_gate c (interpret_reply m) s
    unfolding step
    poll-awaiting slot s gate given =
        happen_at core (awaiting c slot) poll s gate
        ∙ ap (λ o. polled c o s) given
        ∙ unfold polled in refl

    round :
        (cs : List Call) (s : Calls)
        → IsOpen core s
        → s.waiting ≡ c ∷ cs
        → IsReplyTo core (c, m)
        → (s' : Calls) × (happen core poll (
              happen core
                (outside (inbound now (message m)))
                (happen core (start now) (happen core (grant 0) s)))
            ≡ s')
          × IsOpen core s'
          × (s'.waiting ≡ cs)
          × (s'.returned ≡ s.returned ++ (c, interpret_reply m) ∷ [])
    unfolding leave_gate with_link started
    round cs s h queue (r, key) =
        let (l, sent, _, waits, _, up) =
          start_request-free now c.msg_type c.payload core.channel_id core.tx_id s.conn.link h.free
            h.up in
        let (given, absent) = route_self m l s.conn.link.next (rw key waits) in
        let inside : Calls = record s { holder = entered c; waiting = cs } in
        let away : Calls = record (with_link l inside) { holder = awaiting c s.conn.link.next } in
        let back : Calls = record away { conn = record away.conn { link = route_response m l } } in
        let e1 : happen core (grant 0) s ≡ inside = grant-first core c cs s h.gate queue in
        let e2 : happen core (start now) inside ≡ away =
          start-entered core now c inside refl ∙ ap (λ o. started c o inside) sent in
        let e3 : happen core (outside (inbound now (message m))) away ≡ back =
          outside-reply away r h.state h.running in
        let e4 : happen core poll back ≡ leave_gate c (interpret_reply m) back =
          poll-awaiting s.conn.link.next back refl given in
        (
          leave_gate c (interpret_reply m) back,
          ap
                (λ x.
                  happen core poll
                    (happen core (outside (inbound now (message m))) (happen core (start now) x)))
                e1
              ∙ ap (λ x. happen core poll (happen core (outside (inbound now (message m))) x)) e2
              ∙ ap (λ x. happen core poll x) e3
              ∙ e4,
          record {
            free =
                Map.contains_key_absent (core_key core) (route_response m l).pending
                  (rw key at absent);
            up = route-out_open m l ∙ up;
            state = h.state;
            running = h.running;
            gate = refl;
          },
          refl,
          refl,
        )

  run_calls-next :
      (now : Timestamp) (c : Call) (m : ChaincodeMessage) (rs : List (Call × ChaincodeMessage))
      (s s' : Calls)
      → happen core poll (
          happen core
            (outside (inbound now (message m)))
            (happen core (start now) (happen core (grant 0) s)))
        ≡ s'
      → run_calls core (rounds now ((c, m) ∷ rs)) s ≡ run_calls core (rounds now rs) s'
  unfolding run_calls
  run_calls-next now c m rs s s' e = ap (λ x. run_calls core (rounds now rs) x) e

  -- If the connection is ready and open, its loop runs, and the gate is free with no request of the
  -- transaction in flight, the waiting calls, let in from the oldest on and each answered by the peer,
  -- all return, in their order, each with its own reply; then the gate is free again and nobody waits.
  pub run_calls-rounds :
      (now : Timestamp) (rs : List (Call × ChaincodeMessage)) (s : Calls)
      → IsOpen core s
      → s.waiting ≡ map (λ r. r.0) rs
      → All (IsReplyTo core) rs
      → let s' = run_calls core (rounds now rs) s in
        (s'.returned ≡ s.returned ++ map (λ r. (r.0, interpret_reply r.1)) rs)
        × (s'.waiting ≡ [])
        × IsOpen core s'
  run_calls-rounds now [] s h queue replies =
      unfold run_calls in (sym (append-nil s.returned), queue, h)
  run_calls-rounds now ((c, m) ∷ rs) s h queue replies =
      let (s', e, h', queue', returned) = round now c m (map (λ r. r.0) rs) s h queue replies.0 in
      let (all, none_left, open') = run_calls-rounds now rs s' h' queue' replies.1 in
      rw (run_calls-next now c m rs s s' e) (
        all
            ∙ ap (λ p. p ++ map (λ r. (r.0, interpret_reply r.1)) rs) returned
            ∙ append_assoc s.returned ((c, interpret_reply m) ∷ [])
                (map (λ r. (r.0, interpret_reply r.1)) rs),
        none_left,
        open',
      )
