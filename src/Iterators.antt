-- ===== src/Iterators.antt =====
-- fabric-shim/src/iterators.rs: query iterators, which fetch further batches with QUERY_STATE_NEXT.
--
-- A method on `&mut self` returns the iterator beside its result, on error too. `next_raw` is a
-- `loop` that ends only if the peer stops announcing more: it takes fuel, one for each fetch, and is
-- `hung` when the fuel runs out.
pub mod Paging
pub mod Connected
use fabric_chaincode_rs.Prelude.{
  ℕ, zero, suc, Bool, true, false, not, ◌||◌, Option, none, some, List, [], ◌∷◌, ◌++◌, Text, Bytes,
  if◌then◌else◌,
}
use fabric_chaincode_rs.Error.{Error, Result, ok, err, decoded}
use fabric_chaincode_rs.Protos.MsgType.{MsgType}
use fabric_chaincode_rs.Protos.Messages.{QueryResponse, QueryResultBytes, Kv, KeyModification}
use fabric_chaincode_rs.Session.{
  Env, Session, StubCore, Outcome, done, hung, Exec, pure, lift, core_request, ◌>>=◌,
}

pub record QueryIter : Type 0 where
  pub core : StubCore
  pub id : Text
  pub batch : List QueryResultBytes
  pub has_more : Bool
  pub closed : Bool

unfoldable pub new_iter : StubCore → QueryResponse → QueryIter
new_iter core resp = record {
  core = core;
  id = resp.id;
  batch = resp.results;
  has_more = resp.has_more;
  closed = false;
}

-- the result of a method on an iterator
abbrev pub Iter : Type 0 → Type 0 → Type 0
Iter W A = Outcome A × QueryIter × Session W

module _ {W : Type 0} (env : Env W) where
  -- lines 41-48: the next batch
  unfoldable pub fetch : QueryIter → Exec W QueryIter
  fetch it = do
    reply ←
        core_request env it.core MsgType.query_state_next
          (env.codecs.query_state_next.encode (record { id = it.id }))
    resp ← lift (decoded (env.codecs.query_response.decode reply.payload))
    pure (record it { batch = resp.results; has_more = resp.has_more })

  unfoldable pub next_raw : ℕ → QueryIter → Session W → Iter W (Option Bytes)
  next_raw zero it s = elim it.batch [
    | [] ↦ if not it.has_more || it.closed then (done (ok none), it, s) else (hung, it, s)
    | qrb ∷ rest ↦ (done (ok (some qrb.result_bytes)), record it { batch = rest }, s)
  ]
  next_raw (suc fuel) it s = elim it.batch [
    | [] ↦
        let fetched : Iter W (Option Bytes) = elim (fetch it s).0 [
          | done r ↦ elim r [
            | ok it' ↦ next_raw fuel it' (fetch it s).1
            | err e ↦ (done (err e), it, (fetch it s).1)
          ]
          | hung ↦ (hung, it, (fetch it s).1)
        ] in
        if not it.has_more || it.closed then (done (ok none), it, s) else fetched
    | qrb ∷ rest ↦ (done (ok (some qrb.result_bytes)), record it { batch = rest }, s)
  ]

  unit : {A : Type 0} → Outcome A → Outcome (Unit {0})
  unit (done (ok _)) = done (ok tt)
  unit (done (err e)) = done (err e)
  unit hung = hung

  unfoldable pub close : QueryIter → Session W → Iter W (Unit {0})
  unfolding unit
  close it s =
      if it.closed
      then (done (ok tt), it, s)
      else (let (r, s') =
            core_request env it.core MsgType.query_state_close
              (env.codecs.query_state_close.encode (record { id = it.id })) s in
          (unit r, record it { closed = true }, s'))

  -- `StateQueryIterator::next` and `HistoryQueryIterator::next`: a record is decoded
  decode_record :
      {A : Type 0} → (Bytes → Result A Error) → Outcome (Option Bytes) → Outcome (Option A)
  decode_record decode hung = hung
  decode_record decode (done (err e)) = done (err e)
  decode_record decode (done (ok none)) = done (ok none)
  decode_record decode (done (ok (some bytes))) = elim (decode bytes) [
    | ok a ↦ done (ok (some a))
    | err e ↦ done (err e)
  ]

  decode_next : {A : Type 0} → (Bytes → Result A Error) → Iter W (Option Bytes) → Iter W (Option A)
  unfolding decode_record
  decode_next decode (r, it, s) = (decode_record decode r, it, s)

  unfoldable pub next : ℕ → QueryIter → Session W → Iter W (Option Kv)
  unfolding decode_next
  next fuel it s = decode_next (λ b. decoded (env.codecs.kv.decode b)) (next_raw fuel it s)

  unfoldable pub next_modification : ℕ → QueryIter → Session W → Iter W (Option KeyModification)
  unfolding decode_next
  next_modification fuel it s =
      decode_next (λ b. decoded (env.codecs.key_modification.decode b)) (next_raw fuel it s)

  -- lines 95-96, once the loop has ended
  closed_with : List Kv → Iter W (Unit {0}) → Outcome (List Kv) × Session W
  closed_with out (done (ok _), it, s) = (done (ok out), s)
  closed_with out (done (err e), it, s) = (done (err e), s)
  closed_with out (hung, it, s) = (hung, s)

  -- one round of the `while let`, `again` being the next one
  collected :
      (QueryIter → List Kv → Exec W (List Kv))
      → List Kv
      → Iter W (Option Kv)
      → Outcome (List Kv) × Session W
  unfolding closed_with
  collected again out (done (ok (some kv)), it, s) = again it (out ++ kv ∷ []) s
  collected again out (done (ok none), it, s) = closed_with out (close it s)
  collected again out (done (err e), it, s) = (done (err e), s)
  collected again out (hung, it, s) = (hung, s)

  -- lines 91-96; each round of the loop takes one fuel
  unfoldable pub collect : ℕ → QueryIter → List Kv → Exec W (List Kv)
  unfolding collected
  collect zero it out s = (hung, s)
  collect (suc fuel) it out s = collected (collect fuel) out (next (suc fuel) it s)

  unfoldable pub collect_remaining : ℕ → QueryIter → Exec W (List Kv)
  collect_remaining fuel it = collect fuel it []
