-- ===== src/Stub/Calls/Scan.antt =====
-- A range query read to its end: the query, the batches and the close.
use fabric_chaincode_rs.Prelude.{ℕ, ◌+◌, ◌<◌, ◌≡◌, refl, ◌∙◌, List, [], ◌++◌, Text, Bytes, length}
use fabric_chaincode_rs.Error.{ok}
use fabric_chaincode_rs.Protos.MsgType.{MsgType}
use fabric_chaincode_rs.Protos.Messages.{QueryResponse, QueryResultBytes, Kv}
use fabric_chaincode_rs.Session.{Env, Session, done}
use fabric_chaincode_rs.Session.Requests.{IsIdle, Responds, Stays, request-Responds}
use fabric_chaincode_rs.Iterators.{QueryIter, collect_remaining, new_iter}
use fabric_chaincode_rs.Iterators.Paging.{Serves, Decodes, close_payload, collect_remaining-Serves}
use fabric_chaincode_rs.Stub.{ChaincodeStub}
use fabric_chaincode_rs.Stub.Calls.{
  get_state_by_range, range_query, query_metadata, response_metadata,
}

-- From `w` the peer serves these records of a range of the public state, in batches, and is in `w'` once
-- the query has been closed; there is fuel for each record and each batch.
pub record Scans {W : Type 0} (env : Env W) (stub : ChaincodeStub) (fuel : ℕ)
    (start_key end_key : Text) (w : W) (kvs : List Kv) (w' : W) : Type 0 where
  pub body : Bytes
  pub resp : QueryResponse
  pub asked : W
  pub responds :
      Responds env stub.core MsgType.get_state_by_range
        (env.codecs.get_state_by_range.encode
          (record { start_key = start_key; end_key = end_key; collection = []; metadata = [] }))
        w
        body
        asked
  pub decodes : env.codecs.query_response.decode body ≡ ok resp
  pub no_metadata : resp.metadata ≡ []
  pub rest : List QueryResultBytes
  pub batches : ℕ
  pub ended : W
  pub serves : Serves env stub.core resp.id asked resp.has_more rest batches ended
  pub records : Decodes env stub.core resp.id (resp.results ++ rest) kvs
  pub enough : length kvs + batches < fuel
  pub answer : Bytes
  pub closes :
      Responds env stub.core MsgType.query_state_close
        (close_payload env stub.core resp.id)
        ended
        answer
        w'

module _ {W : Type 0} (env : Env W) (stub : ChaincodeStub) (fuel : ℕ)
    (start_key end_key : Text) where
  range_opens :
      (s : Session W) (kvs : List Kv) (w' : W)
      → IsIdle stub.core s
      → (scan : Scans env stub fuel start_key end_key s.world kvs w')
      → (s' : Session W) × (get_state_by_range env stub start_key end_key s
          ≡ (done (ok (new_iter stub.core scan.resp)), s'))
        × Stays stub.core s s' scan.asked
  unfolding get_state_by_range range_query query_metadata response_metadata
  range_opens s kvs w' idle scan =
      let (reply, s', asked, same, st) =
        request-Responds env stub.core MsgType.get_state_by_range _ s idle scan.responds in
      (s', rw (asked, same, scan.decodes, scan.no_metadata) refl, st)

  -- What is read is every record of the range, in order; the transaction is idle again.
  pub range-Scans :
      (s : Session W) (kvs : List Kv) (w' : W)
      → IsIdle stub.core s
      → Scans env stub fuel start_key end_key s.world kvs w'
      → (it : QueryIter) × (s1 s' : Session W) × (get_state_by_range env stub start_key end_key s
          ≡ (done (ok it), s1))
        × (collect_remaining env fuel it s1 ≡ (done (ok kvs), s'))
        × Stays stub.core s s' w'
  range-Scans s kvs w' idle scan =
      let (s1, opened, st) = range_opens s kvs w' idle scan in
      let (s2, read, st') =
        collect_remaining-Serves env stub.core scan.resp scan.rest scan.batches fuel s1 kvs
          scan.ended scan.answer w' st.idle (rw st.world scan.serves) scan.records scan.enough
          scan.closes in
      (
        new_iter stub.core scan.resp,
        s1,
        s2,
        opened,
        read,
        record { idle = st'.idle; world = st'.world; event = st'.event ∙ st.event },
      )
