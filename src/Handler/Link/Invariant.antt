-- ===== src/Handler/Link/Invariant.antt =====
-- What holds of a link between two operations.
use fabric_chaincode_rs.Prelude.{
  ℕ, suc, ◌≡◌, ◌<◌, refl, none, some, Text, Bytes, nat_Eq, list_Eq, pair_Eq, arith, Eq,
  Option-cases, Bool-cases, inl, inr,
}
use fabric_chaincode_rs.Prelude.Map
use fabric_chaincode_rs.Prelude.Map.{get-insert, get-remove}
use fabric_chaincode_rs.Error.{Error, Result, ok, err}
use fabric_chaincode_rs.Protos.MsgType.{MsgType}
use fabric_chaincode_rs.Protos.Messages.{Timestamp, ChaincodeMessage}
use fabric_chaincode_rs.Handler.Link.{
  TxKey, Slot, waiting, filled, dropped, PeerLink, new_link, send, drop_pending, key_of,
  route_response, start_request, sent_request, new_message, release, fulfil, poll_request,
  poll_slot,
}

abbrev pub key_Eq : Eq TxKey
key_Eq = pair_Eq

-- Every sender in the map has a channel of its own, which still waits.
pub record IsLink (l : PeerLink) : Type 0 where
  pub waits : (k : TxKey) (s : ℕ) → Map.get k l.pending ≡ some s → Map.get s l.slots ≡ some waiting
  pub fresh : (k : TxKey) (s : ℕ) → Map.get k l.pending ≡ some s → s < l.next
  pub own :
      (j k : TxKey) (s : ℕ) → Map.get j l.pending ≡ some s → Map.get k l.pending ≡ some s → j ≡ k

pub IsLink-new : IsLink new_link
unfolding new_link Map.get
IsLink-new = record { waits = λ k s h. cc; fresh = λ k s h. cc; own = λ j k s h h'. cc }

-- A key leaves the map and its channel is filled or closed.
IsLink-remove :
    (l : PeerLink) (k : TxKey) (s : ℕ) (v : Slot)
    → IsLink l
    → Map.get k l.pending ≡ some s
    → IsLink (record l { pending = Map.remove k l.pending; slots = Map.insert s v l.slots })
IsLink-remove l k s v h p = record {
  waits = λ j t q. ground (
    arith,
    get-insert s t v l.slots,
    get-remove k j l.pending,
    h.waits j t,
    h.own k j s,
    key_Eq.same_iff k j,
  );
  fresh = λ j t q. ground (arith, get-remove k j l.pending, h.fresh j t);
  own =
      λ i j t q r. ground (arith, get-remove k i l.pending, get-remove k j l.pending, h.own i j t);
}

pub IsLink-drop_pending : (k : TxKey) (l : PeerLink) → IsLink l → IsLink (drop_pending k l)
unfolding drop_pending
IsLink-drop_pending k l h = elim (Option-cases (Map.get k l.pending)) [
  | inl absent ↦ rw (absent, release) h
  | inr (s, p) ↦ rw (p, release) (IsLink-remove l k s dropped h p)
]

pub IsLink-route_response :
    (msg : ChaincodeMessage) (l : PeerLink) → IsLink l → IsLink (route_response msg l)
unfolding route_response
IsLink-route_response msg l h = elim (Option-cases (Map.get (key_of msg) l.pending)) [
  | inl absent ↦ rw (absent, fulfil) h
  | inr (s, p) ↦ rw (p, fulfil) (IsLink-remove l (key_of msg) s (filled msg) h p)
]

pub IsLink-send : (msg : ChaincodeMessage) (l : PeerLink) → IsLink l → IsLink (send msg l).1
unfolding send
IsLink-send msg l h = elim (Bool-cases l.out_open) [
  | inl up ↦ rw up (record { waits = h.waits; fresh = h.fresh; own = h.own })
  | inr down ↦ simp down h
]

-- A key that is not in the map enters it with a channel of its own.
IsLink-insert :
    (l : PeerLink) (k : TxKey)
    → IsLink l
    → IsLink (record l {
      pending = Map.insert k l.next l.pending;
      slots = Map.insert l.next waiting l.slots;
      next = suc l.next;
    })
IsLink-insert l k h = record {
  waits = λ j t q.
      ground
        (arith, get-insert l.next t waiting l.slots, get-insert k j l.next l.pending, h.waits j t);
  fresh = λ j t q. ground (arith, get-insert k j l.next l.pending, h.fresh j t);
  own = λ i j t q r. ground (
    arith,
    get-insert k i l.next l.pending,
    get-insert k j l.next l.pending,
    h.own i j t,
    h.fresh i t,
    h.fresh j t,
    key_Eq.same_iff k i,
    key_Eq.same_iff k j,
  );
}

IsLink-sent_request :
    (k : TxKey) (s : ℕ) (r : Result (Unit {0}) Error × PeerLink)
    → IsLink r.1
    → IsLink (sent_request k s r).1
unfolding sent_request
IsLink-sent_request k s (ok _, l) h = h
IsLink-sent_request k s (err _, l) h = IsLink-drop_pending k l h

pub IsLink-start_request :
    (now : Timestamp) (t : MsgType) (payload : Bytes) (channel tx : Text) (l : PeerLink)
    → IsLink l
    → IsLink (start_request now t payload channel tx l).1
unfolding start_request
IsLink-start_request now t payload channel tx l h =
    elim (Bool-cases (Map.contains_key (channel, tx) l.pending)) [
      | inl busy ↦ rw busy h
      | inr free ↦ rw free (
          IsLink-sent_request (channel, tx) l.next _
            (IsLink-send (new_message now t payload channel tx) _
              (IsLink-insert l (channel, tx) h)))
    ]

-- A request in the map waits.
pub poll-pending :
    (k : TxKey) (s : ℕ) (l : PeerLink)
    → IsLink l
    → Map.get k l.pending ≡ some s
    → poll_request s l ≡ none
unfolding poll_request
poll-pending k s l h p = rw (h.waits k s p, poll_slot) refl
