-- ===== src/Stub/Calls/Connected.antt =====
-- The stub's calls on the connection.
use fabric_chaincode_rs.Prelude.{[], ◌∷◌, none, Text, Bytes, refl, ◌≡◌, arith}
use fabric_chaincode_rs.Error.{ok, decoded}
use fabric_chaincode_rs.Protos.MsgType.{MsgType}
use fabric_chaincode_rs.Session.{Env, Session, done}
use fabric_chaincode_rs.Session.Connected.{
  IsReplying, Follows, Leads-stay, Follows-bind, Follows-then, request-Follows,
}
use fabric_chaincode_rs.Iterators.{QueryIter, new_iter}
use fabric_chaincode_rs.Stub.{ChaincodeStub}
use fabric_chaincode_rs.Stub.Calls.{
  response_metadata, range_query, get_state, put_state, del_state, get_state_by_range, set_event,
}

module _ {W : Type 0} (env : Env W) (stub : ChaincodeStub) (peer : IsReplying env) where
  pub get_state-Follows : (key : Text) → Follows stub.core (get_state env stub key)
  unfolding get_state
  get_state-Follows key =
      request-Follows env stub.core peer MsgType.get_state _ _
        (λ reply s. Leads-stay stub.core s _ refl)

  pub put_state-Follows :
      (key : Text) (value : Bytes) → Follows stub.core (put_state env stub key value)
  unfolding put_state
  put_state-Follows [] value = λ s. Leads-stay stub.core s _ refl
  put_state-Follows (c ∷ key) value =
      request-Follows env stub.core peer MsgType.put_state _ _
        (λ reply s. Leads-stay stub.core s _ refl)

  pub del_state-Follows : (key : Text) → Follows stub.core (del_state env stub key)
  unfolding del_state
  del_state-Follows key =
      request-Follows env stub.core peer MsgType.del_state _ _
        (λ reply s. Leads-stay stub.core s _ refl)

  pub set_event-Follows :
      (name : Text) (payload : Bytes) → Follows stub.core (set_event env stub name payload)
  unfolding set_event
  set_event-Follows [] payload s = Leads-stay stub.core s _ refl
  set_event-Follows (c ∷ name) payload s = Leads-stay stub.core s _ refl

  pub range-Follows :
      (start_key end_key : Text) → Follows stub.core (get_state_by_range env stub start_key end_key)
  unfolding get_state_by_range range_query
  range-Follows start_key end_key =
      Follows-bind stub.core (range_query env stub [] start_key end_key none) _
        (request-Follows env stub.core peer MsgType.get_state_by_range _ _ (λ reply.
          Follows-then stub.core (decoded (env.codecs.query_response.decode reply.payload)) _
            (λ resp.
              Follows-then stub.core (response_metadata env stub resp.metadata) _
                (λ meta s. Leads-stay stub.core s _ refl))))
        (λ found s. Leads-stay stub.core s _ refl)

  -- The iterator of a query is of the stub's transaction.
  pub range-core :
      (start_key end_key : Text) (s : Session W) (it : QueryIter)
      → (get_state_by_range env stub start_key end_key s).0 ≡ done (ok it)
      → it.core ≡ stub.core
  unfolding get_state_by_range range_query new_iter
  range-core start_key end_key s it h = ground (arith, h)
