-- ===== src/Session/Gate/Cancellation.antt =====
-- A call whose future is dropped while it awaits its reply.
use fabric_chaincode_rs.Prelude.{
  ℕ, ◌≡◌, refl, sym, ap, ◌∙◌, true, Option, none, some, List, [], ◌∷◌, ◌++◌, append_assoc,
  append-nil, All, All-append, list_Eq, pair_Eq, nat_Eq, arith,
}
use fabric_chaincode_rs.Prelude.Map.{Map}
use fabric_chaincode_rs.Prelude.Map
use fabric_chaincode_rs.Handler.Link.{TxKey}
use fabric_chaincode_rs.Error.{Error, Result, err}
use fabric_chaincode_rs.Protos.Messages.{Timestamp, ChaincodeMessage}
use fabric_chaincode_rs.Handler.Link.Delivery.{start_request-busy}
use fabric_chaincode_rs.Handler.Link.Entries.{already_in_flight}
use fabric_chaincode_rs.Handler.Connection.{run}
use fabric_chaincode_rs.Handler.Connection.Delivery.{IsUnrelated, IsWaiting, run-IsWaiting}
use fabric_chaincode_rs.Session.{StubCore}
use fabric_chaincode_rs.Session.Requests.{core_key}
use fabric_chaincode_rs.Session.Gate.Steps.{happen_at}
use fabric_chaincode_rs.Session.Gate.{
  Call, Holder, nobody, entered, awaiting, Calls, Event, make, grant, start, poll, cancel, outside,
  take_call, granted, started, leave_gate, with_link, step, happen, run_calls,
}

-- Neither a reply to the transaction nor its end.
abbrev pub IsApart : StubCore → Event → Type 0
IsApart core (outside a) = IsUnrelated (core_key core) a
IsApart core _ = Unit

-- No call is at its reply.
pub data IsOut : Holder → Type 0 where
  free : IsOut nobody
  inside : {c : Call} → IsOut (entered c)

not-IsOut : (c : Call) (n : ℕ) → ¬ IsOut (awaiting c n)
not-IsOut c n = elim [ ]

-- a key that the map finds is in it
present : (k : TxKey) (n : ℕ) (m : Map TxKey ℕ) → Map.get k m ≡ some n → Map.contains_key k m ≡ true
unfolding Map.contains_key
present k n m h = ground arith

module _ (core : StubCore) where
  -- The dropped call's entry is still there, no call is at its reply, and the calls that have returned
  -- since then were refused.
  pub record IsBlocked (slot : ℕ) (before : List (Call × Result ChaincodeMessage Error)) (s : Calls)
      : Type 0 where
    pub waits : IsWaiting (core_key core) slot s.conn
    pub gate : IsOut s.holder
    pub since : List (Call × Result ChaincodeMessage Error)
    pub returned : s.returned ≡ before ++ since
    pub refused : All (λ r. r.1 ≡ err (already_in_flight core.tx_id)) since

  module _ (slot : ℕ) (before : List (Call × Result ChaincodeMessage Error)) where
    granted-IsBlocked :
        (o : Option (Call × List Call)) (s : Calls)
        → IsBlocked slot before s
        → IsBlocked slot before (granted o s)
    unfolding granted
    granted-IsBlocked none s b = b
    granted-IsBlocked (some (c, cs)) s b = record {
      waits = b.waits;
      gate = inside;
      since = b.since;
      returned = b.returned;
      refused = b.refused;
    }

    left-IsBlocked :
        (c : Call) (s : Calls)
        → IsBlocked slot before s
        → IsBlocked slot before (leave_gate c (err (already_in_flight core.tx_id)) s)
    unfolding leave_gate
    left-IsBlocked c s b =
        let last = (c, err (already_in_flight core.tx_id)) ∷ [] in
        record {
          waits = b.waits;
          gate = free;
          since = b.since ++ last;
          returned = ap (λ r. r ++ last) b.returned ∙ append_assoc before b.since last;
          refused =
              All-append (λ r. r.1 ≡ err (already_in_flight core.tx_id)) b.since last b.refused
                (refl, tt);
        }

    started-IsBlocked :
        (now : Timestamp) (c : Call) (s : Calls)
        → IsBlocked slot before s
        → IsBlocked slot before (step core (entered c) (start now) s)
    unfolding step started with_link
    started-IsBlocked now c s b =
        rw
          (start_request-busy now c.msg_type c.payload core.channel_id core.tx_id s.conn.link
            (present (core_key core) slot s.conn.link.pending b.waits.waits))
          (left-IsBlocked c s b)

    step-IsBlocked :
        (h : Holder) (e : Event) (s : Calls)
        → IsOut h
        → IsApart core e
        → IsBlocked slot before s
        → IsBlocked slot before (step core h e s)
    unfolding step
    step-IsBlocked h (make c) s out o b = record {
      waits = b.waits;
      gate = b.gate;
      since = b.since;
      returned = b.returned;
      refused = b.refused;
    }
    step-IsBlocked h (outside a) s out o b = record {
      waits = unfold run in run-IsWaiting (core_key core) slot (a ∷ []) s.conn (o, tt) b.waits;
      gate = b.gate;
      since = b.since;
      returned = b.returned;
      refused = b.refused;
    }
    step-IsBlocked nobody (grant i) s out o b = granted-IsBlocked (take_call i s.waiting) s b
    step-IsBlocked (entered c) (start now) s out o b = started-IsBlocked now c s b
    step-IsBlocked (awaiting c n) poll s out o b = absurd (not-IsOut c n out)
    step-IsBlocked (entered c) cancel s out o b = record {
      waits = b.waits;
      gate = free;
      since = b.since;
      returned = b.returned;
      refused = b.refused;
    }
    step-IsBlocked (awaiting c n) cancel s out o b = absurd (not-IsOut c n out)
    step-IsBlocked _ _ s out o b = b

    run_calls-IsBlocked :
        (es : List Event) (s : Calls)
        → All (IsApart core) es
        → IsBlocked slot before s
        → IsBlocked slot before (run_calls core es s)
    unfolding run_calls happen
    run_calls-IsBlocked [] s o b = b
    run_calls-IsBlocked (e ∷ es) s o b =
        run_calls-IsBlocked es (happen core e s) o.1 (step-IsBlocked s.holder e s b.gate o.0 b)

  -- The call in the gate is dropped while its request is in flight, on a ready connection whose link keeps
  -- its invariant. Whatever happens then, calls of the transaction included, until a reply to the
  -- transaction comes or the transaction ends: every call that returns is refused, since the dropped
  -- call's entry is still there, and no call comes to wait for a reply.
  pub run_calls-cancelled :
      (es : List Event) (c : Call) (slot : ℕ) (s : Calls)
      → s.holder ≡ awaiting c slot
      → IsWaiting (core_key core) slot s.conn
      → All (IsApart core) es
      → IsBlocked slot s.returned (run_calls core (cancel ∷ es) s)
  unfolding run_calls
  run_calls-cancelled es c slot s holds waits o =
      run_calls-IsBlocked slot s.returned es (happen core cancel s) o (
        rw (happen_at core (awaiting c slot) cancel s holds) (
          unfold step in
          record {
            waits = waits;
            gate = free;
            since = [];
            returned = sym (append-nil s.returned);
            refused = tt;
          }))
