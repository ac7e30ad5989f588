-- ===== src/Stub/Calls/Callee.antt =====
-- What `invoke_chaincode` gives, by the message that the peer's RESPONSE nests.
use fabric_chaincode_rs.Prelude.{◌≡◌, ◌≢◌, refl, List, ◌++◌, Text, Bytes, str, inl, inr}
use fabric_chaincode_rs.Error.{
  Error, Result, ok, err, decode, peer, protocol, DecodeError, result_cases, decoded,
}
use fabric_chaincode_rs.Utf8.{from_utf8_lossy}
use fabric_chaincode_rs.Response.{Response, from_proto}
use fabric_chaincode_rs.Protos.MsgType.{MsgType, debug}
use fabric_chaincode_rs.Protos.Messages.{PbResponse, ChaincodeMessage, type_of}
use fabric_chaincode_rs.Session.{Env, Session, done, lift, ◌>>=◌}
use fabric_chaincode_rs.Session.Requests.{IsIdle, Responds, Stays, request-Responds}
use fabric_chaincode_rs.Stub.{ChaincodeStub}
use fabric_chaincode_rs.Stub.Calls.{invoke_chaincode, callee_spec, nested_response}

module _ {W : Type 0} (env : Env W) (stub : ChaincodeStub) where
  -- The callee's terminal message, as its caller is to see it.
  pub data CalleeGives (inner : ChaincodeMessage) : Result Response Error → Type 0 where
    completed :
        {p : PbResponse}
        → type_of inner ≡ MsgType.completed
        → env.codecs.response.decode inner.payload ≡ ok p
        → CalleeGives inner (ok (from_proto p))
    no_response :
        {e : DecodeError}
        → type_of inner ≡ MsgType.completed
        → env.codecs.response.decode inner.payload ≡ err e
        → CalleeGives inner (err (decode e))
    failed :
        type_of inner ≡ MsgType.error
        → CalleeGives inner (err (peer (from_utf8_lossy inner.payload)))
    unexpected :
        type_of inner ≢ MsgType.completed
        → type_of inner ≢ MsgType.error
        → CalleeGives inner (
            err (
              protocol (
                str "unexpected nested message type "
                ++ debug (type_of inner)
                ++ str " from invoked chaincode")))

  -- The nested message is none, or the callee's.
  pub data NestedGives (body : Bytes) : Result Response Error → Type 0 where
    nothing :
        {e : DecodeError}
        → env.codecs.chaincode_message.decode body ≡ err e
        → NestedGives body (err (decode e))
    nested :
        {inner : ChaincodeMessage} {r : Result Response Error}
        → env.codecs.chaincode_message.decode body ≡ ok inner
        → CalleeGives inner r
        → NestedGives body r

  unexpected_type :
      (inner : ChaincodeMessage) (t : MsgType)
      → type_of inner ≡ t
      → t ≢ MsgType.completed
      → t ≢ MsgType.error
      → CalleeGives inner (
          err (
            protocol
              (str "unexpected nested message type " ++ debug t ++ str " from invoked chaincode")))
  unexpected_type inner t e c f = rw (← e) (unexpected (rw e c) (rw e f))

  gives :
      (inner : ChaincodeMessage) (t : MsgType)
      → type_of inner ≡ t
      → CalleeGives inner (nested_response env stub inner)
  unfolding nested_response
  gives inner MsgType.completed t =
      rw (nested_response, t)
        (elim (result_cases (env.codecs.response.decode inner.payload)) [
          | inl (p, read) ↦ rw read (completed t read)
          | inr (e, bad) ↦ rw bad (no_response t bad)
        ])
  gives inner MsgType.error t = rw (nested_response, t) (failed t)
  gives inner other t = rw (nested_response, t) (unexpected_type inner other t (λ e. cc) (λ e. cc))

  nested_gives :
      (body : Bytes) (m : Result ChaincodeMessage DecodeError)
      → env.codecs.chaincode_message.decode body ≡ m
      → (r : Result Response Error) × NestedGives body r
        × ((s : Session W)
            → (lift (decoded m) >>= λ inner. lift (nested_response env stub inner)) s ≡ (done r, s))
  nested_gives body (ok inner) h =
      (nested_response env stub inner, nested h (gives inner (type_of inner) refl), λ s. refl)
  nested_gives body (err e) h = (err (decode e), nothing h, λ s. refl)

  -- If the transaction is idle and the peer answers the call of another chaincode by a RESPONSE, the
  -- call returns: the callee's response if the nested message is a COMPLETED, the callee's text as an
  -- error of the peer if it is an ERROR, an error of the protocol that names its type if it is another
  -- message, and the decoder's error if there is no such message or no response in it. The transaction
  -- is idle again, with its event slot as it was.
  pub invoke_chaincode-NestedGives :
      (name channel : Text) (args : List Bytes) (body : Bytes) (s : Session W) {w : W}
      → IsIdle stub.core s
      → Responds env stub.core MsgType.invoke_chaincode
          (env.codecs.chaincode_spec.encode (callee_spec env stub name args channel))
          s.world
          body
          w
      → (r : Result Response Error) × (s' : Session W) × (invoke_chaincode env stub name args
            channel s
          ≡ (done r, s'))
        × NestedGives body r
        × Stays stub.core s s' w
  unfolding invoke_chaincode
  invoke_chaincode-NestedGives name channel args body s idle answered =
      let (reply, s', e, b, st) =
        request-Responds env stub.core MsgType.invoke_chaincode
          (env.codecs.chaincode_spec.encode (callee_spec env stub name args channel)) s idle
          answered in
      let (r, n, given) = nested_gives body (env.codecs.chaincode_message.decode body) refl in
      (r, s', rw (e, b) (given s'), n, st)
