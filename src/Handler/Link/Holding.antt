-- ===== src/Handler/Link/Holding.antt =====
-- A reply that has been delivered and not yet been taken.
use fabric_chaincode_rs.Prelude.{
  ℕ, ◌≡◌, ◌≢◌, ◌<◌, refl, some, Text, Bytes, nat_Eq, list_Eq, pair_Eq, arith, Option-cases,
  Bool-cases, inl, inr,
}
use fabric_chaincode_rs.Prelude.Map
use fabric_chaincode_rs.Prelude.Map.{get-insert, get-remove}
use fabric_chaincode_rs.Error.{Error, Result, ok, err}
use fabric_chaincode_rs.Protos.MsgType.{MsgType}
use fabric_chaincode_rs.Protos.Messages.{Timestamp, ChaincodeMessage}
use fabric_chaincode_rs.Handler.Link.{
  TxKey, Slot, waiting, filled, dropped, PeerLink, send, drop_pending, key_of, route_response,
  start_request, sent_request, new_message, release, fulfil, enter, poll_request, poll_slot,
  interpret_reply,
}
use fabric_chaincode_rs.Handler.Link.Invariant.{IsLink, key_Eq}

-- The channel holds the reply, and no key of the map names it any more.
pub record IsHolding (s : ℕ) (reply : ChaincodeMessage) (l : PeerLink) : Type 0 where
  pub held : Map.get s l.slots ≡ some (filled reply)
  pub unowned : (k : TxKey) → Map.get k l.pending ≢ some s
  pub old : s < l.next

pub poll-IsHolding :
    (s : ℕ) (reply : ChaincodeMessage) (l : PeerLink)
    → IsHolding s reply l
    → poll_request s l ≡ some (interpret_reply reply)
unfolding poll_request
poll-IsHolding s reply l h = rw (h.held, poll_slot) refl

pub IsHolding-route_self :
    (reply : ChaincodeMessage) (s : ℕ) (l : PeerLink)
    → IsLink l
    → Map.get (key_of reply) l.pending ≡ some s
    → IsHolding s reply (route_response reply l)
unfolding route_response
IsHolding-route_self reply s l inv p =
    rw (p, fulfil)
      (record {
        held = Map.get-insert_self s (filled reply) l.slots;
        unowned = λ k q. ground (
          arith,
          get-remove (key_of reply) k l.pending,
          inv.own (key_of reply) k s p,
          key_Eq.same_iff (key_of reply) k,
        );
        old = inv.fresh (key_of reply) s p;
      })

module _ (s : ℕ) (reply : ChaincodeMessage) where
  -- A key leaves the map, and its channel, which is another one, gets a new state.
  IsHolding-remove :
      (l : PeerLink) (k : TxKey) (t : ℕ) (v : Slot)
      → IsHolding s reply l
      → Map.get k l.pending ≡ some t
      → IsHolding s reply
          (record l { pending = Map.remove k l.pending; slots = Map.insert t v l.slots })
  IsHolding-remove l k t v h p = record {
    held = ground (arith, get-insert t s v l.slots, h.unowned k, h.held);
    unowned = λ j q. ground (arith, get-remove k j l.pending, h.unowned j);
    old = h.old;
  }

  pub IsHolding-drop_pending :
      (k : TxKey) (l : PeerLink) → IsHolding s reply l → IsHolding s reply (drop_pending k l)
  unfolding drop_pending
  IsHolding-drop_pending k l h = elim (Option-cases (Map.get k l.pending)) [
    | inl absent ↦ rw (absent, release) h
    | inr (t, p) ↦ rw (p, release) (IsHolding-remove l k t dropped h p)
  ]

  pub IsHolding-route_response :
      (msg : ChaincodeMessage) (l : PeerLink)
      → IsHolding s reply l
      → IsHolding s reply (route_response msg l)
  unfolding route_response
  IsHolding-route_response msg l h = elim (Option-cases (Map.get (key_of msg) l.pending)) [
    | inl absent ↦ rw (absent, fulfil) h
    | inr (t, p) ↦ rw (p, fulfil) (IsHolding-remove l (key_of msg) t (filled msg) h p)
  ]

  pub IsHolding-send :
      (msg : ChaincodeMessage) (l : PeerLink)
      → IsHolding s reply l
      → IsHolding s reply (send msg l).1
  unfolding send
  IsHolding-send msg l h = elim (Bool-cases l.out_open) [
    | inl up ↦ rw up (record { held = h.held; unowned = h.unowned; old = h.old })
    | inr down ↦ simp down h
  ]

  IsHolding-enter : (k : TxKey) (l : PeerLink) → IsHolding s reply l → IsHolding s reply (enter k l)
  unfolding enter
  IsHolding-enter k l h = record {
    held = ground (arith, get-insert l.next s waiting l.slots, h.old, h.held);
    unowned = λ j q. ground (arith, get-insert k j l.next l.pending, h.unowned j, h.old);
    old = omega (arith, h.old);
  }

  IsHolding-sent_request :
      (k : TxKey) (t : ℕ) (r : Result (Unit {0}) Error × PeerLink)
      → IsHolding s reply r.1
      → IsHolding s reply (sent_request k t r).1
  unfolding sent_request
  IsHolding-sent_request k t (ok _, l) h = h
  IsHolding-sent_request k t (err _, l) h = IsHolding-drop_pending k l h

  pub IsHolding-start_request :
      (now : Timestamp) (t : MsgType) (payload : Bytes) (channel tx : Text) (l : PeerLink)
      → IsHolding s reply l
      → IsHolding s reply (start_request now t payload channel tx l).1
  unfolding start_request
  IsHolding-start_request now t payload channel tx l h =
      elim (Bool-cases (Map.contains_key (channel, tx) l.pending)) [
        | inl busy ↦ rw busy h
        | inr free ↦ rw free (
            IsHolding-sent_request (channel, tx) l.next _
              (IsHolding-send (new_message now t payload channel tx) _
                (IsHolding-enter (channel, tx) l h)))
      ]
