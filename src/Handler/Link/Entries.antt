-- ===== src/Handler/Link/Entries.antt =====
-- Which operations put a key into the map of requests in flight: only the start of its own request.
use fabric_chaincode_rs.Prelude.{
  ℕ, ◌≡◌, ◌≢◌, refl, sym, ap, ◌∙◌, false, Option, none, some, ◌++◌, str, Text, Bytes, nat_Eq,
  list_Eq, pair_Eq, arith, Option-cases, Bool-cases, inl, inr,
}
use fabric_chaincode_rs.Prelude.Map
use fabric_chaincode_rs.Prelude.Map.{get-insert, get-remove}
use fabric_chaincode_rs.Error.{Error, Result, ok, err, protocol, connection_closed}
use fabric_chaincode_rs.Protos.MsgType.{MsgType}
use fabric_chaincode_rs.Protos.Messages.{Timestamp, ChaincodeMessage}
use fabric_chaincode_rs.Handler.Link.{
  TxKey, PeerLink, send, drop_pending, key_of, route_response, start_request, sent_request,
  new_message, release, fulfil, enter, poll_request, poll_slot, interpret_reply, Slot, waiting,
  filled, dropped,
}
use fabric_chaincode_rs.Handler.Link.Delivery.{pending-send, drop_pending_self}

module _ (k : TxKey) (n : ℕ) where
  pub route_response-entry :
      (msg : ChaincodeMessage) (l : PeerLink)
      → Map.get k (route_response msg l).pending ≡ some n
      → Map.get k l.pending ≡ some n
  unfolding route_response
  route_response-entry msg l = elim (Option-cases (Map.get (key_of msg) l.pending)) [
    | inl absent ↦ rw (absent, fulfil) (λ h. h)
    | inr (s, p) ↦ rw (p, fulfil) (λ h. ground (arith, get-remove (key_of msg) k l.pending, h))
  ]

  pub drop_pending-entry :
      (key : TxKey) (l : PeerLink)
      → Map.get k (drop_pending key l).pending ≡ some n
      → Map.get k l.pending ≡ some n
  unfolding drop_pending
  drop_pending-entry key l = elim (Option-cases (Map.get key l.pending)) [
    | inl absent ↦ rw (absent, release) (λ h. h)
    | inr (s, p) ↦ rw (p, release) (λ h. ground (arith, get-remove key k l.pending, h))
  ]

  sent_request-entry :
      (key : TxKey) (s : ℕ) (r : Result (Unit {0}) Error × PeerLink)
      → Map.get k (sent_request key s r).1.pending ≡ some n
      → Map.get k r.1.pending ≡ some n
  unfolding sent_request
  sent_request-entry key s (ok _, l) h = h
  sent_request-entry key s (err _, l) h = drop_pending-entry key l h

  pub start_request-entry :
      (now : Timestamp) (t : MsgType) (payload : Bytes) (channel tx : Text) (l : PeerLink)
      → (channel, tx) ≢ k
      → Map.get k (start_request now t payload channel tx l).1.pending ≡ some n
      → Map.get k l.pending ≡ some n
  unfolding start_request enter
  start_request-entry now t payload channel tx l other =
      elim (Bool-cases (Map.contains_key (channel, tx) l.pending)) [
        | inl busy ↦ rw busy (λ h. h)
        | inr free ↦ rw free (λ h.
            let entry =
              sent_request-entry (channel, tx) l.next
                (send (new_message now t payload channel tx) (enter (channel, tx) l)) h in
            let kept = Map.get-insert_ne (channel, tx) k l.next l.pending other in
            let seen =
              ap (λ p. Map.get k p)
                (pending-send (new_message now t payload channel tx) (enter (channel, tx) l)) in
            sym kept ∙ sym seen ∙ entry)
      ]

-- A request on a closed queue fails and leaves no entry.
pub start_request-closed :
    (now : Timestamp) (t : MsgType) (payload : Bytes) (channel tx : Text) (l : PeerLink)
    → Map.contains_key (channel, tx) l.pending ≡ false
    → l.out_open ≡ false
    → (l' : PeerLink) × (start_request now t payload channel tx l ≡ (err connection_closed, l'))
      × (Map.get (channel, tx) l'.pending ≡ none)
unfolding start_request sent_request send enter
start_request-closed now t payload channel tx l h down = (
  drop_pending (channel, tx) (enter (channel, tx) l),
  rw h (simp down refl),
  drop_pending_self (channel, tx) (enter (channel, tx) l),
)

module _ (tx : Text) where
  -- The error of a request that finds another one of its transaction in flight.
  abbrev pub already_in_flight : Error
  already_in_flight = protocol (str "another ledger request is already in flight for tx " ++ tx)

  interpret_reply-served : (m : ChaincodeMessage) → interpret_reply m ≢ err already_in_flight
  unfolding interpret_reply str
  interpret_reply-served m = λ e. ground (arith, e)

  poll_slot-served :
      (o : Option Slot) (r : Result ChaincodeMessage Error)
      → poll_slot o ≡ some r
      → r ≢ err already_in_flight
  unfolding poll_slot
  poll_slot-served none r h = cc
  poll_slot-served (some waiting) r h = cc
  poll_slot-served (some (filled m)) r h = λ e. interpret_reply-served m (cc (h, e))
  poll_slot-served (some dropped) r h = λ e. cc (h, e)

  -- What an awaited request gives is another error, or none.
  pub poll_request-served :
      (slot : ℕ) (l : PeerLink) (r : Result ChaincodeMessage Error)
      → poll_request slot l ≡ some r
      → r ≢ err already_in_flight
  unfolding poll_request
  poll_request-served slot l r = poll_slot-served (Map.get slot l.slots) r
