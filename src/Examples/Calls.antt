-- ===== src/Examples/Calls.antt =====
-- Calls on private data and of another chaincode.
use fabric_chaincode_rs.Prelude.{◌≡◌, refl, some, [], Bytes, str}
use fabric_chaincode_rs.Error.{Error, Result, ok}
use fabric_chaincode_rs.Utf8.{into_bytes}
use fabric_chaincode_rs.Response.{Response}
use fabric_chaincode_rs.Protos.MsgType.{MsgType, try_from, to_i32}
use fabric_chaincode_rs.Protos.Messages.{ChaincodeMessage, type_of}
use fabric_chaincode_rs.Handler.Link.{new_message}
use fabric_chaincode_rs.Session.{Env, Session, done}
use fabric_chaincode_rs.Session.Requests.{Stays}
use fabric_chaincode_rs.Stub.Calls.{invoke_chaincode}
use fabric_chaincode_rs.Stub.Calls.Callee.{NestedGives, invoke_chaincode-NestedGives}
use fabric_chaincode_rs.Examples.Wire.{wire}
use fabric_chaincode_rs.Examples.Keys.{stub_of}
use fabric_chaincode_rs.Examples.Peer.{World, core, midnight, session, session-IsIdle}

abbrev message_of : MsgType → Bytes → ChaincodeMessage
message_of t payload = new_message midnight t payload (str "mychannel") (str "tx1")

-- a peer on which the callee fails
abbrev calling : Env World
calling = record {
  codecs = record wire {
    chaincode_message = record {
      encode = λ m. [];
      decode = λ b. ok (message_of MsgType.error (into_bytes (str "no such asset")));
    };
  };
  debug_str = λ t. t;
  now = λ w. midnight;
  reply = λ m w. (some (message_of MsgType.response []), w);
}

abbrev empty : World
empty = record { state = []; batches = [] }

invoke_chaincode-NestedGives_example :
    (r : Result Response Error) × (s' : Session World) × (invoke_chaincode calling
        (stub_of [])
        (str "basic")
        []
        []
        (session empty)
      ≡ (done r, s'))
    × NestedGives calling (stub_of []) [] r
    × Stays core (session empty) s' empty
unfolding session new_message type_of try_from to_i32 str
invoke_chaincode-NestedGives_example =
    invoke_chaincode-NestedGives calling (stub_of []) (str "basic") [] [] [] (session empty)
      (session-IsIdle empty)
      (record {
        message = message_of MsgType.response [];
        replied = refl;
        key = refl;
        type = refl;
        body_eq = refl;
      })
