-- ===== src/Session/Gate/Exclusion.antt =====
-- The calls that a transaction makes at the same time, on every run.
use fabric_chaincode_rs.Prelude.{
  ℕ, ◌≡◌, ◌≢◌, refl, Option, none, some, List, [], ◌∷◌, ◌++◌, list_Eq, pair_Eq, nat_Eq, All,
  Option-cases, Bool-cases, inl, inr,
}
use fabric_chaincode_rs.Prelude.Map
use fabric_chaincode_rs.Error.{Error, Result, err, connection_closed}
use fabric_chaincode_rs.Protos.Messages.{Timestamp, ChaincodeMessage}
use fabric_chaincode_rs.Handler.Link.{start_request, poll_request}
use fabric_chaincode_rs.Handler.Link.Invariant.{IsLink, poll-pending, IsLink-start_request}
use fabric_chaincode_rs.Handler.Link.Delivery.{start_request-free}
use fabric_chaincode_rs.Handler.Link.Entries.{
  start_request-closed, already_in_flight, poll_request-served,
}
use fabric_chaincode_rs.Handler.Connection.{Action, act}
use fabric_chaincode_rs.Handler.Connection.Links.{act-IsLink}
use fabric_chaincode_rs.Handler.Connection.Entries.{IsForeign, act-entry}
use fabric_chaincode_rs.Session.{StubCore}
use fabric_chaincode_rs.Session.Requests.{core_key}
use fabric_chaincode_rs.Session.Gate.{
  Call, Holder, nobody, entered, awaiting, Calls, Event, make, grant, start, poll, cancel, outside,
  take_call, granted, started, polled, leave_gate, with_link, step, happen, run_calls,
}

-- No call is dropped, and the transaction's requests are those of its calls.
abbrev pub IsPatient : StubCore → Event → Type 0
IsPatient core cancel = ⊥
IsPatient core (outside a) = IsForeign (core_key core) a
IsPatient core _ = Unit

abbrev pub IsServed : StubCore → Call × Result ChaincodeMessage Error → Type 0
IsServed core r = r.1 ≢ err (already_in_flight core.tx_id)

-- A request of the transaction that is in flight is that of the call in the gate, and no call was refused.
pub record IsExclusive (core : StubCore) (s : Calls) : Type 0 where
  pub link : IsLink s.conn.link
  pub own :
      (n : ℕ)
      → Map.get (core_key core) s.conn.link.pending ≡ some n
      → (c : Call) × (s.holder ≡ awaiting c n)
  pub served : All (IsServed core) s.returned

All-snoc :
    {A : Type 0} (P : A → Type 0) (xs : List A) (x : A) → All P xs → P x → All P (xs ++ x ∷ [])
All-snoc P [] x hs h = (h, tt)
All-snoc P (y ∷ xs) x hs h = (hs.0, All-snoc P xs x hs.1 h)

module _ (core : StubCore) where
  unowned :
      (s : Calls)
      → IsExclusive core s
      → ((c : Call) (n : ℕ) → s.holder ≢ awaiting c n)
      → Map.get (core_key core) s.conn.link.pending ≡ none
  unowned s h free = elim (Option-cases (Map.get (core_key core) s.conn.link.pending)) [
    | inl absent ↦ absent
    | inr (n, p) ↦ let (c, e) = h.own n p in absurd (free c n e)
  ]

  -- A state whose gate is empty and whose map has no entry of the transaction.
  IsExclusive-empty :
      (s : Calls)
      → IsLink s.conn.link
      → Map.get (core_key core) s.conn.link.pending ≡ none
      → All (IsServed core) s.returned
      → IsExclusive core s
  IsExclusive-empty s inv absent served = record { link = inv; own = λ n p. cc; served = served }

  start-IsExclusive :
      (now : Timestamp) (c : Call) (s : Calls)
      → s.holder ≡ entered c
      → IsExclusive core s
      → IsExclusive core (
          started c
            (start_request now c.msg_type c.payload core.channel_id core.tx_id s.conn.link)
            s)
  unfolding started
  start-IsExclusive now c s holds h =
      let absent = unowned s h (λ d n e. cc) in
      let free = Map.contains_key_absent (core_key core) s.conn.link.pending absent in
      let kept =
        IsLink-start_request now c.msg_type c.payload core.channel_id core.tx_id s.conn.link
          h.link in
      elim (Bool-cases s.conn.link.out_open) [
        | inl up ↦
            let (l, e, _, p, _, _) =
              start_request-free now c.msg_type c.payload core.channel_id core.tx_id s.conn.link
                free up in
            let inv : IsLink l = rw e at kept in
            rw (e, with_link)
              (record { link = inv; own = λ n q. (c, cc (p, q)); served = h.served })
        | inr down ↦
            let (l, e, p) =
              start_request-closed now c.msg_type c.payload core.channel_id core.tx_id s.conn.link
                free down in
            let inv : IsLink l = rw e at kept in
            rw (e, with_link, leave_gate)
              (IsExclusive-empty _ inv p (
                All-snoc (IsServed core) s.returned (c, err connection_closed) h.served
                  (λ q. cc q)))
      ]

  poll-IsExclusive :
      (c : Call) (slot : ℕ) (s : Calls)
      → s.holder ≡ awaiting c slot
      → IsExclusive core s
      → IsExclusive core (polled c (poll_request slot s.conn.link) s)
  unfolding polled
  poll-IsExclusive c slot s holds h = elim (Option-cases (poll_request slot s.conn.link)) [
    | inl still ↦ rw still h
    | inr (r, given) ↦
        let absent : Map.get (core_key core) s.conn.link.pending ≡ none =
          elim (Option-cases (Map.get (core_key core) s.conn.link.pending)) [
            | inl none_there ↦ none_there
            | inr (n, p) ↦
                let (d, e) = h.own n p in
                let same : n ≡ slot = cc (holds, e) in
                let still = poll-pending (core_key core) slot s.conn.link h.link (rw (← same) p) in
                cc (still, given)
          ] in
        rw (given, leave_gate)
          (IsExclusive-empty _ h.link absent (
            All-snoc (IsServed core) s.returned (c, r) h.served
              (poll_request-served core.tx_id slot s.conn.link r given)))
  ]

  granted-IsExclusive :
      (o : Option (Call × List Call)) (s : Calls)
      → s.holder ≡ nobody
      → IsExclusive core s
      → IsExclusive core (granted o s)
  unfolding granted
  granted-IsExclusive none s holds h = h
  granted-IsExclusive (some (c, cs)) s holds h =
      IsExclusive-empty _ h.link (unowned s h (λ d n e. cc (holds, e))) h.served

  outside-IsExclusive :
      (a : Action) (s : Calls)
      → IsForeign (core_key core) a
      → IsExclusive core s
      → IsExclusive core (record s { conn = act a s.conn })
  outside-IsExclusive a s f h = record {
    link = act-IsLink a s.conn h.link;
    own = λ n p. h.own n (act-entry (core_key core) n a s.conn f p);
    served = h.served;
  }

  step-IsExclusive :
      (h : Holder) (e : Event) (s : Calls)
      → s.holder ≡ h
      → IsPatient core e
      → IsExclusive core s
      → IsExclusive core (step core h e s)
  unfolding step
  step-IsExclusive h (make c) s holds p inv = record {
    link = inv.link;
    own = inv.own;
    served = inv.served;
  }
  step-IsExclusive h (outside a) s holds p inv = outside-IsExclusive a s p inv
  step-IsExclusive nobody (grant i) s holds p inv =
      granted-IsExclusive (take_call i s.waiting) s holds inv
  step-IsExclusive (entered c) (start now) s holds p inv = start-IsExclusive now c s holds inv
  step-IsExclusive (awaiting c slot) poll s holds p inv = poll-IsExclusive c slot s holds inv
  step-IsExclusive h cancel s holds p inv = absurd p
  step-IsExclusive _ _ s holds p inv = inv

  run_calls-keeps :
      (es : List Event) (s : Calls)
      → All (IsPatient core) es
      → IsExclusive core s
      → IsExclusive core (run_calls core es s)
  unfolding run_calls happen
  run_calls-keeps [] s p h = h
  run_calls-keeps (e ∷ es) s p h =
      run_calls-keeps es (happen core e s) p.1 (step-IsExclusive s.holder e s refl p.0 h)

  -- From a transaction that has no request in flight and none of whose calls has returned, on a link
  -- that keeps its invariant: however the calls that it makes at the same time interleave with one
  -- another and with the rest of the connection, if none is dropped, a request of the transaction that
  -- is in flight is that of the call in the gate, and no call is refused because another one is in
  -- flight.
  pub run_calls-IsExclusive :
      (es : List Event) (s : Calls)
      → IsLink s.conn.link
      → Map.get (core_key core) s.conn.link.pending ≡ none
      → s.returned ≡ []
      → All (IsPatient core) es
      → IsExclusive core (run_calls core es s)
  run_calls-IsExclusive es s inv absent fresh p =
      run_calls-keeps es s p (IsExclusive-empty s inv absent (rw fresh tt))
