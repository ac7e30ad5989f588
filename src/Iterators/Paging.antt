-- ===== src/Iterators/Paging.antt =====
-- How an iterator goes through the batches of a query.
use fabric_chaincode_rs.Prelude.{
  ℕ, zero, suc, ◌+◌, ◌≤◌, ◌<◌, ◌≡◌, refl, ◌∙◌, Bool, true, false, Option, none, some, List, [], ◌∷◌,
  ◌++◌, Text, Bytes, length, arith, append_assoc, append-nil,
}
use fabric_chaincode_rs.Error.{ok, decoded}
use fabric_chaincode_rs.Protos.MsgType.{MsgType}
use fabric_chaincode_rs.Protos.Messages.{QueryResponse, QueryResultBytes, Kv}
use fabric_chaincode_rs.Session.{Env, Session, StubCore, Outcome, done}
use fabric_chaincode_rs.Session.Requests.{IsIdle, Responds, Stays, request-Responds}
use fabric_chaincode_rs.Iterators.{
  QueryIter, new_iter, fetch, next_raw, close, next, collect, collect_remaining, decode_next,
  collected, closed_with, unit,
}

module _ {W : Type 0} (env : Env W) (core : StubCore) (id : Text) where
  -- What the peer still holds for the query: from `w`, with or without more announced, it serves
  -- these records in so many batches, and is then in the last state.
  pub data Serves : W → Bool → List QueryResultBytes → ℕ → W → Type 0 where
    exhausted : {w : W} → Serves w false [] 0 w
    page :
        {w w' w'' : W} {rest : List QueryResultBytes} {n : ℕ} (body : Bytes) (resp : QueryResponse)
        → Responds env core MsgType.query_state_next
            (env.codecs.query_state_next.encode (record { id = id }))
            w
            body
            w'
        → env.codecs.query_response.decode body ≡ ok resp
        → Serves w' resp.has_more rest n w''
        → Serves w true (resp.results ++ rest) (suc n) w''

  abbrev iter : List QueryResultBytes → Bool → QueryIter
  iter batch more = record { core = core; id = id; batch = batch; has_more = more; closed = false }

  -- A fetch takes the next batch.
  fetch-page :
      (s : Session W) {w : W} {body : Bytes} {resp : QueryResponse}
      → IsIdle core s
      → Responds env core MsgType.query_state_next
          (env.codecs.query_state_next.encode (record { id = id }))
          s.world
          body
          w
      → env.codecs.query_response.decode body ≡ ok resp
      → (s' : Session W) × (fetch env (iter [] true) s
          ≡ (done (ok (iter resp.results resp.has_more)), s'))
        × Stays core s s' w
  unfolding fetch
  fetch-page s idle r d =
      let (reply, s', e, b, st) =
        request-Responds env core MsgType.query_state_next
          (env.codecs.query_state_next.encode (record { id = id })) s idle r in
      (s', rw (e, b, d) refl, st)

  -- What one call of `next_raw` gives while these records are still to come: the first of them, if
  -- there is one, and an iterator over the others.
  data Pulled (s : Session W) (w : W)
      : List QueryResultBytes → ℕ → Outcome (Option Bytes) × QueryIter × Session W → Type 0 where
    ended :
        {n : ℕ} {s' : Session W} (batch : List QueryResultBytes) (more : Bool)
        → Stays core s s' w
        → Pulled s w [] n (done (ok none), iter batch more, s')
    pulled :
        {n : ℕ} {s' : Session W} {qrb : QueryResultBytes} {rest : List QueryResultBytes} {m : ℕ}
        (batch : List QueryResultBytes) (more : Bool)
        → IsIdle core s'
        → s'.event ≡ s.event
        → Serves s'.world more rest m w
        → m ≤ n
        → Pulled s w
            (qrb ∷ batch ++ rest)
            n
            (done (ok (some qrb.result_bytes)), iter batch more, s')

  widen :
      (s' s : Session W) {w : W} {items : List QueryResultBytes} {n : ℕ}
      {r : Outcome (Option Bytes) × QueryIter × Session W}
      → s'.event ≡ s.event
      → Pulled s' w items n r
      → Pulled s w items (suc n) r
  widen s' s e (ended batch more st) =
      ended batch more (record { idle = st.idle; world = st.world; event = st.event ∙ e })
  widen s' s e (pulled {m = m} batch more idle ev serves le) =
      pulled {m = m} batch more idle (ev ∙ e) serves (omega arith)

  pull :
      (fuel : ℕ) (batch rest : List QueryResultBytes) (more : Bool) (n : ℕ) (s : Session W)
      {w0 w : W}
      → IsIdle core s
      → s.world ≡ w0
      → Serves w0 more rest n w
      → n ≤ fuel
      → Pulled s w (batch ++ rest) n (next_raw env fuel (iter batch more) s)
  unfolding next_raw
  pull zero (q ∷ batch) rest more n s idle e serves h =
      pulled {m = n} batch more idle refl (rw e serves) (omega arith)
  pull (suc fuel) (q ∷ batch) rest more n s idle e serves h =
      pulled {m = n} batch more idle refl (rw e serves) (omega arith)
  pull zero [] _ _ _ s idle e exhausted h =
      ended [] false (record { idle = idle; world = e; event = refl })
  pull zero [] _ _ _ s idle e (page body resp r d serves) h = absurd (omega arith)
  pull (suc fuel) [] _ _ _ s idle e exhausted h =
      ended [] false (record { idle = idle; world = e; event = refl })
  pull (suc fuel) [] _ _ _ s idle e (page {w' = w1} {rest = rest} {n = n} body resp r d serves) h =
      let (s', f, st) = fetch-page s {w = w1} {body = body} {resp = resp} idle (rw e r) d in
      rw f (
        rw f (
          widen s' s st.event
            (pull fuel resp.results rest resp.has_more n s' st.idle st.world serves (omega arith))))

  -- The records of the batches, decoded.
  pub data Decodes : List QueryResultBytes → List Kv → Type 0 where
    no_records : Decodes [] []
    record_decodes :
        {qrb : QueryResultBytes} {kv : Kv} {items : List QueryResultBytes} {kvs : List Kv}
        → env.codecs.kv.decode qrb.result_bytes ≡ ok kv
        → Decodes items kvs
        → Decodes (qrb ∷ items) (kv ∷ kvs)

  abbrev pub close_payload : Bytes
  close_payload = env.codecs.query_state_close.encode (record { id = id })

  closes :
      (batch : List QueryResultBytes) (more : Bool) (s : Session W) {body : Bytes} {w : W}
      → IsIdle core s
      → Responds env core MsgType.query_state_close close_payload s.world body w
      → (it' : QueryIter) × (s' : Session W) × (close env (iter batch more) s
          ≡ (done (ok tt), it', s'))
        × Stays core s s' w
  unfolding close
  closes batch more s idle r =
      let (reply, s', e, b, st) =
        request-Responds env core MsgType.query_state_close close_payload s idle r in
      (record (iter batch more) { closed = true }, s', rw (e, unit) refl, st)

  -- With this fuel `collect` gives what it holds and the records still to come, and closes the query.
  abbrev Collects : ℕ → Type 0
  Collects fuel =
      (batch rest : List QueryResultBytes) (more : Bool) (n : ℕ) (s : Session W) (out kvs : List Kv)
      (w : W) (body : Bytes) (w' : W)
      → IsIdle core s
      → Serves s.world more rest n w
      → Decodes (batch ++ rest) kvs
      → length kvs + n < fuel
      → Responds env core MsgType.query_state_close close_payload w body w'
      → (s' : Session W) × (collect env fuel (iter batch more) out s ≡ (done (ok (out ++ kvs)), s'))
        × Stays core s s' w'

  collected-Pulled :
      (fuel : ℕ) (s : Session W) (out kvs : List Kv) (n : ℕ) {items : List QueryResultBytes}
      {r : Outcome (Option Bytes) × QueryIter × Session W} (w : W) (body : Bytes) (w' : W)
      → Collects fuel
      → Pulled s w items n r
      → Decodes items kvs
      → length kvs + n ≤ fuel
      → Responds env core MsgType.query_state_close close_payload w body w'
      → (s' : Session W) × (collected env
            (collect env fuel)
            out
            (decode_next env (λ b. decoded (env.codecs.kv.decode b)) r)
          ≡ (done (ok (out ++ kvs)), s'))
        × Stays core s s' w'
  unfolding collected decode_next
  collected-Pulled fuel s out _ n w body w' ih (ended {s' = s1} batch more st) no_records le r =
      let (it', s', e, st') = closes batch more s1 {body = body} {w = w'} st.idle (rw st.world r) in
      (
        s',
        rw (e, closed_with, append-nil) refl,
        record { idle = st'.idle; world = st'.world; event = st'.event ∙ st.event },
      )
  collected-Pulled fuel s out _ n w body w' ih
        (pulled {s' = s1} {rest = rest} {m = m} batch more idle ev serves lt)
        (record_decodes {kv = kv} {kvs = kvs} d ds) le r =
      let (s', e, st) =
        ih batch rest more m s1 (out ++ kv ∷ []) kvs w body w' idle serves ds (omega arith) r in
      (
        s',
        rw (d, collected) (rw append_assoc at e),
        record { idle = st.idle; world = st.world; event = st.event ∙ ev },
      )

  collect-serves : (fuel : ℕ) → Collects fuel
  unfolding collect next
  collect-serves zero batch rest more n s out kvs w body w' idle serves ds h r =
      absurd (omega arith)
  collect-serves (suc fuel) batch rest more n s out kvs w body w' idle serves ds h r =
      collected-Pulled fuel s out kvs n w body w' (collect-serves fuel)
        (pull (suc fuel) batch rest more n s idle refl serves (omega arith)) ds (omega arith) r

-- An iterator made from the peer's first response, in an idle session: if the peer serves the other
-- batches and answers the close, and every record decodes, then with fuel for each record and each
-- batch `collect_remaining` returns the records of all batches in order, and it has closed the query.
pub collect_remaining-Serves :
    {W : Type 0} (env : Env W) (core : StubCore) (resp : QueryResponse)
    (rest : List QueryResultBytes) (n fuel : ℕ) (s : Session W) (kvs : List Kv) (w : W)
    (body : Bytes) (w' : W)
    → IsIdle core s
    → Serves env core resp.id s.world resp.has_more rest n w
    → Decodes env core resp.id (resp.results ++ rest) kvs
    → length kvs + n < fuel
    → Responds env core MsgType.query_state_close (close_payload env core resp.id) w body w'
    → (s' : Session W) × (collect_remaining env fuel (new_iter core resp) s ≡ (done (ok kvs), s'))
      × Stays core s s' w'
unfolding collect_remaining new_iter
collect_remaining-Serves env core resp rest n fuel s kvs w body w' idle serves ds h r =
    collect-serves env core resp.id fuel resp.results rest resp.has_more n s [] kvs w body w' idle
      serves ds h r
