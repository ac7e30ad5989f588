-- ===== src/Handler/Link/Delivery.antt =====
-- What becomes of a request.
use fabric_chaincode_rs.Prelude.{
  ℕ, suc, ◌≡◌, ◌≢◌, refl, true, false, none, some, [], ◌∷◌, ◌++◌, Text, Bytes, str, nat_Eq, list_Eq,
  pair_Eq, arith, Option-cases, Bool-cases, inl, inr,
}
use fabric_chaincode_rs.Prelude.Map
use fabric_chaincode_rs.Prelude.Map.{get-insert, get-remove}
use fabric_chaincode_rs.Error.{Error, Result, ok, err, protocol, connection_closed}
use fabric_chaincode_rs.Protos.MsgType.{MsgType}
use fabric_chaincode_rs.Protos.Messages.{Timestamp, ChaincodeMessage}
use fabric_chaincode_rs.Handler.Link.{
  TxKey, waiting, filled, PeerLink, send, drop_pending, key_of, route_response, start_request,
  sent_request, enter, new_message, release, fulfil, interpret_reply, poll_request, poll_slot,
}
use fabric_chaincode_rs.Handler.Link.Invariant.{IsLink}

module _ (now : Timestamp) (t : MsgType) (payload : Bytes) (channel tx : Text) (l : PeerLink) where
  -- A request is refused while another one of the same transaction is in flight, and then neither
  -- the queue nor the map changes.
  pub start_request-busy :
      Map.contains_key (channel, tx) l.pending ≡ true
      → start_request now t payload channel tx l
        ≡ (err (protocol (str "another ledger request is already in flight for tx " ++ tx)), l)
  unfolding start_request
  start_request-busy h = rw h

  -- Otherwise, while the queue is open, the request is the last message sent, and its key waits on
  -- the new channel.
  pub start_request-free :
      Map.contains_key (channel, tx) l.pending ≡ false
      → l.out_open ≡ true
      → (l' : PeerLink) × (start_request now t payload channel tx l ≡ (ok l.next, l'))
        × (l'.sent ≡ l.sent ++ new_message now t payload channel tx ∷ [])
        × (Map.get (channel, tx) l'.pending ≡ some l.next)
        × (poll_request l.next l' ≡ none)
        × (l'.out_open ≡ true)
  unfolding start_request send sent_request poll_request
  start_request-free h up = (
    record l {
      sent = l.sent ++ new_message now t payload channel tx ∷ [];
      pending = Map.insert (channel, tx) l.next l.pending;
      slots = Map.insert l.next waiting l.slots;
      next = suc l.next;
    },
    rw (h, up),
    refl,
    Map.get-insert_self (channel, tx) l.next l.pending,
    rw (Map.get-insert_self l.next waiting l.slots, poll_slot) refl,
    up,
  )

  -- With the queue closed a request fails, nothing is sent, and its key is not left in the map.
  pub start_request-closed :
      Map.contains_key (channel, tx) l.pending ≡ false
      → l.out_open ≡ false
      → ((start_request now t payload channel tx l).0 ≡ err connection_closed)
        × ((start_request now t payload channel tx l).1.sent ≡ l.sent)
        × (Map.get (channel, tx) (start_request now t payload channel tx l).1.pending ≡ none)
  unfolding start_request send sent_request drop_pending
  start_request-closed h down =
      rw (h, down, Map.get-insert_self (channel, tx) l.next l.pending, release)
        (refl, refl, Map.get-remove_self (channel, tx) (Map.insert (channel, tx) l.next l.pending))

module _ (msg : ChaincodeMessage) (l : PeerLink) where
  pub route_self :
      (s : ℕ)
      → Map.get (key_of msg) l.pending ≡ some s
      → (poll_request s (route_response msg l) ≡ some (interpret_reply msg))
        × (Map.get (key_of msg) (route_response msg l).pending ≡ none)
  unfolding route_response poll_request
  route_self s h =
      rw (h, fulfil)
        (
          rw (Map.get-insert_self s (filled msg) l.slots, poll_slot) refl,
          Map.get-remove_self (key_of msg) l.pending,
        )

  pub route-sent : (route_response msg l).sent ≡ l.sent
  unfolding route_response
  route-sent = ground arith

  pub route-out_open : (route_response msg l).out_open ≡ l.out_open
  unfolding route_response
  route-out_open = ground arith

  -- On a link that keeps its invariant, a reply leaves every other transaction's request in flight as
  -- it was.
  pub route_response-other :
      (k : TxKey) (s : ℕ)
      → IsLink l
      → Map.get k l.pending ≡ some s
      → key_of msg ≢ k
      → (Map.get k (route_response msg l).pending ≡ some s)
        × (poll_request s (route_response msg l) ≡ none)
  unfolding route_response poll_request
  route_response-other k s inv h other = elim (Option-cases (Map.get (key_of msg) l.pending)) [
    | inl absent ↦ rw (absent, fulfil) (h, rw (inv.waits k s h, poll_slot) refl)
    | inr (s', p) ↦
        rw (p, fulfil)
          (
            rw (Map.get-remove_ne (key_of msg) k l.pending other) h,
            rw
                (
                  Map.get-insert_ne s' s (filled msg) l.slots
                      (λ e. other (inv.own (key_of msg) k s (rw (← e) p) h)),
                  inv.waits k s h,
                  poll_slot,
                )
                refl,
          )
  ]

  -- A reply that no request waits for changes nothing.
  pub route_response-unmatched : Map.get (key_of msg) l.pending ≡ none → route_response msg l ≡ l
  unfolding route_response
  route_response-unmatched h = rw (h, fulfil) refl

-- A request that was sent, its key being free and the queue open, and whose key a reply carries,
-- returns that reply as it is interpreted,
-- and its key is free again.
pub route_response-start_request :
    (now : Timestamp) (t : MsgType) (payload : Bytes) (channel tx : Text) (l : PeerLink)
    (reply : ChaincodeMessage)
    → Map.contains_key (channel, tx) l.pending ≡ false
    → l.out_open ≡ true
    → key_of reply ≡ (channel, tx)
    → let l' = (start_request now t payload channel tx l).1 in
      (poll_request l.next (route_response reply l') ≡ some (interpret_reply reply))
      × (Map.get (channel, tx) (route_response reply l').pending ≡ none)
route_response-start_request now t payload channel tx l reply h up k =
    let (l', started, _, waits, _, _) = start_request-free now t payload channel tx l h up in
    rw (started, ← k) (route_self reply l' l.next (rw k waits))

-- An entry of the map outlives the end of another transaction's request,
pub drop_pending-other :
    (key k : TxKey) (s : ℕ) (l : PeerLink)
    → Map.get k l.pending ≡ some s
    → key ≢ k
    → Map.get k (drop_pending key l).pending ≡ some s
unfolding drop_pending
drop_pending-other key k s l h other = elim (Option-cases (Map.get key l.pending)) [
  | inl absent ↦ rw (absent, release) h
  | inr (s', p) ↦ rw (p, release) (rw (Map.get-remove_ne key k l.pending other) h)
]

sent_request-other :
    (key k : TxKey) (slot s : ℕ) (r : Result (Unit {0}) Error × PeerLink)
    → Map.get k r.1.pending ≡ some s
    → key ≢ k
    → Map.get k (sent_request key slot r).1.pending ≡ some s
unfolding sent_request
sent_request-other key k slot s (ok _, l) h other = h
sent_request-other key k slot s (err _, l) h other = drop_pending-other key k s l h other

pub pending-send : (msg : ChaincodeMessage) (l : PeerLink) → (send msg l).1.pending ≡ l.pending
unfolding send
pending-send msg l = ground arith

-- and the start of any request, its own transaction's included.
pub start_request-keeps :
    (now : Timestamp) (t : MsgType) (payload : Bytes) (channel tx : Text) (k : TxKey) (s : ℕ)
    (l : PeerLink)
    → Map.get k l.pending ≡ some s
    → Map.get k (start_request now t payload channel tx l).1.pending ≡ some s
unfolding start_request
start_request-keeps now t payload channel tx k s l h =
    elim (Bool-cases (Map.contains_key (channel, tx) l.pending)) [
      | inl busy ↦ rw busy h
      | inr free ↦
          let other : (channel, tx) ≢ k =
            λ e. cc (Map.get-absent (channel, tx) l.pending free, h, e) in
          rw free (
            sent_request-other (channel, tx) k l.next s
              (send (new_message now t payload channel tx) (enter (channel, tx) l))
              (rw pending-send (rw (Map.get-insert_ne (channel, tx) k l.next l.pending other) h))
              other)
    ]

module _ (key : TxKey) (l : PeerLink) where
  pub drop_pending-sent : (drop_pending key l).sent ≡ l.sent
  unfolding drop_pending
  drop_pending-sent = ground arith

  pub drop_pending-out_open : (drop_pending key l).out_open ≡ l.out_open
  unfolding drop_pending
  drop_pending-out_open = ground arith

  pub drop_pending_self : Map.get key (drop_pending key l).pending ≡ none
  unfolding drop_pending
  drop_pending_self = elim (Option-cases (Map.get key l.pending)) [
    | inl absent ↦ rw (absent, release) absent
    | inr (s, p) ↦ rw (p, release) (Map.get-remove_self key l.pending)
  ]

pub sent-send :
    (msg : ChaincodeMessage) (l : PeerLink)
    → l.out_open ≡ true
    → (send msg l).1 ≡ record l { sent = l.sent ++ msg ∷ [] }
unfolding send
sent-send msg l up = simp up
