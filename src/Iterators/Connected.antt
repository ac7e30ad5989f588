-- ===== src/Iterators/Connected.antt =====
-- The iterators' requests on the connection.
use fabric_chaincode_rs.Prelude.{
  ℕ, zero, suc, ◌≡◌, refl, ◌∙◌, ◌⊎◌, arith, Option, none, some, List, [], ◌∷◌, ◌++◌, not, ◌||◌,
  Bool-cases, inl, inr,
}
use fabric_chaincode_rs.Error.{Error, ok, err, decoded}
use fabric_chaincode_rs.Protos.MsgType.{MsgType}
use fabric_chaincode_rs.Protos.Messages.{Kv}
use fabric_chaincode_rs.Session.{Env, Session, StubCore, Outcome, done, hung, Exec}
use fabric_chaincode_rs.Session.Connected.{
  IsReplying, Leads, Follows, Leads-stay, Leads-trans, Follows-then, core_request-Follows,
  request-Follows,
}
use fabric_chaincode_rs.Iterators.{
  QueryIter, Iter, fetch, next_raw, close, next, closed_with, collected, collect, collect_remaining,
}

-- A method of an iterator leads to the session that it leaves, and its iterator is of the same
-- transaction.
record IterLeads {W A : Type 0} (core : StubCore) (s : Session W) (r : Iter W A) : Type 0 where
  leads : Leads core s r.2
  core_eq : r.1.core ≡ core

List-cases : {A : Type 0} (xs : List A) → (xs ≡ []) ⊎ ((x : A) × (rest : List A) × (xs ≡ x ∷ rest))
List-cases [] = inl refl
List-cases (x ∷ rest) = inr (x, rest, refl)

Outcome-cases :
    {A : Type 0} (o : Outcome A)
    → ((a : A) × (o ≡ done (ok a))) ⊎ (((e : Error) × (o ≡ done (err e))) ⊎ (o ≡ hung))
Outcome-cases (done (ok a)) = inl (a, refl)
Outcome-cases (done (err e)) = inr (inl (e, refl))
Outcome-cases hung = inr (inr refl)

module _ {W : Type 0} (env : Env W) (core : StubCore) (peer : IsReplying env) where
  fetch-Follows : (it : QueryIter) → it.core ≡ core → Follows core (fetch env it)
  unfolding fetch
  fetch-Follows it same = rw (← same) (
      request-Follows env it.core peer MsgType.query_state_next
        (env.codecs.query_state_next.encode (record { id = it.id })) _
        (λ reply.
          Follows-then it.core (decoded (env.codecs.query_response.decode reply.payload)) _
            (λ resp s. Leads-stay it.core s _ refl)))

  fetch-core :
      (it it' : QueryIter) (s : Session W) → (fetch env it s).0 ≡ done (ok it') → it'.core ≡ it.core
  unfolding fetch
  fetch-core it it' s h = ground (arith, h)

  still :
      {A : Type 0} (r : Outcome A) (it : QueryIter) (s : Session W)
      → it.core ≡ core
      → IterLeads core s (r, it, s)
  still r it s same = record { leads = Leads-stay core s s refl; core_eq = same }

  next_raw-IterLeads :
      (fuel : ℕ) (it : QueryIter) (s : Session W)
      → it.core ≡ core
      → IterLeads core s (next_raw env fuel it s)
  unfolding next_raw
  next_raw-IterLeads zero it s same = elim (List-cases it.batch) [
    | inl empty ↦ elim (Bool-cases (not it.has_more || it.closed)) [
      | inl over ↦ simp (next_raw, empty, over) (still (done (ok none)) it s same)
      | inr more ↦ simp (next_raw, empty, more) (still hung it s same)
    ]
    | inr (q, rest, e) ↦
        simp (next_raw, e)
          (still (done (ok (some q.result_bytes))) (record it { batch = rest }) s same)
  ]
  next_raw-IterLeads (suc fuel) it s same = elim (List-cases it.batch) [
    | inl empty ↦ elim (Bool-cases (not it.has_more || it.closed)) [
      | inl over ↦ simp (next_raw, empty, over) (still (done (ok none)) it s same)
      | inr more ↦ elim (Outcome-cases (fetch env it s).0) [
        | inl (it', got) ↦
            let again =
              next_raw-IterLeads fuel it' (fetch env it s).1 (fetch-core it it' s got ∙ same) in
            simp (next_raw, empty, more, got)
              (record {
                leads = Leads-trans core (fetch-Follows it same s) again.leads;
                core_eq = again.core_eq;
              })
        | inr (inl (e, failed)) ↦
            simp (next_raw, empty, more, failed)
              (record { leads = fetch-Follows it same s; core_eq = same })
        | inr (inr waits) ↦
            simp (next_raw, empty, more, waits)
              (record { leads = fetch-Follows it same s; core_eq = same })
      ]
    ]
    | inr (q, rest, e) ↦
        simp (next_raw, e)
          (still (done (ok (some q.result_bytes))) (record it { batch = rest }) s same)
  ]

  close-IterLeads :
      (it : QueryIter) (s : Session W) → it.core ≡ core → IterLeads core s (close env it s)
  unfolding close
  close-IterLeads it s same = elim (Bool-cases it.closed) [
    | inl shut ↦ simp shut (still (done (ok tt)) it s same)
    | inr open_yet ↦ simp open_yet (record {
      leads = rw (← same) (
          core_request-Follows env it.core peer MsgType.query_state_close
            (env.codecs.query_state_close.encode (record { id = it.id })) s);
      core_eq = same;
    })
  ]

  closed_with-Leads :
      (s : Session W) (out : List Kv) (r : Iter W (Unit {0}))
      → IterLeads core s r
      → Leads core s (closed_with env out r).1
  unfolding closed_with
  closed_with-Leads s out (done (ok _), it, s') h = h.leads
  closed_with-Leads s out (done (err e), it, s') h = h.leads
  closed_with-Leads s out (hung, it, s') h = h.leads

  collected-Leads :
      (again : QueryIter → List Kv → Exec W (List Kv)) (s : Session W) (out : List Kv)
      (r : Iter W (Option Kv))
      → ((it : QueryIter) (out' : List Kv) → it.core ≡ core → Follows core (again it out'))
      → IterLeads core s r
      → Leads core s (collected env again out r).1
  unfolding collected
  collected-Leads again s out (done (ok (some kv)), it, s') k h =
      Leads-trans core h.leads (k it (out ++ kv ∷ []) h.core_eq s')
  collected-Leads again s out (done (ok none), it, s') k h =
      Leads-trans core h.leads
        (closed_with-Leads s' out (close env it s') (close-IterLeads it s' h.core_eq))
  collected-Leads again s out (done (err e), it, s') k h = h.leads
  collected-Leads again s out (hung, it, s') k h = h.leads

  next-IterLeads :
      (fuel : ℕ) (it : QueryIter) (s : Session W)
      → it.core ≡ core
      → IterLeads core s (next env fuel it s)
  unfolding next
  next-IterLeads fuel it s same =
      let h = next_raw-IterLeads fuel it s same in record { leads = h.leads; core_eq = h.core_eq }

  collect-Follows :
      (fuel : ℕ) (it : QueryIter) (out : List Kv)
      → it.core ≡ core
      → Follows core (collect env fuel it out)
  unfolding collect
  collect-Follows zero it out same s = Leads-stay core s s refl
  collect-Follows (suc fuel) it out same s =
      collected-Leads (collect env fuel) s out (next env (suc fuel) it s)
        (λ it' out' e. collect-Follows fuel it' out' e) (next-IterLeads (suc fuel) it s same)

  pub collect_remaining-Follows :
      (fuel : ℕ) (it : QueryIter) → it.core ≡ core → Follows core (collect_remaining env fuel it)
  unfolding collect_remaining
  collect_remaining-Follows fuel it same = collect-Follows fuel it [] same
