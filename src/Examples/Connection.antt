-- ===== src/Examples/Connection.antt =====
-- A link and a connection at concrete inputs.
use fabric_chaincode_rs.Prelude.{
  ◌≡◌, ◌≢◌, ◌↔◌, refl, true, false, none, List, [], ◌∷◌, ◌++◌, Text, str, nat_Eq, list_Eq, pair_Eq,
}
use fabric_chaincode_rs.Prelude.Map
use fabric_chaincode_rs.Protos.MsgType.{MsgType, try_from, to_i32, debug}
use fabric_chaincode_rs.Protos.Messages.{ChaincodeMessage, type_of}
use fabric_chaincode_rs.Handler.Link.{
  PeerLink, new_link, new_message, start_request, send, poll_request, key_of,
}
use fabric_chaincode_rs.Handler.Link.Invariant.{IsLink, IsLink-new, IsLink-start_request}
use fabric_chaincode_rs.Handler.Connection.{
  created, ready, Conn, message, end_of_stream, receive, Action, inbound, request, complete,
  hang_up, run, act, send_link, debug_state,
}
use fabric_chaincode_rs.Handler.Connection.Handshake.{
  Legal, receive_iff_Legal, Handshake, received_types, run-Handshake, spawned-Handshake,
}
use fabric_chaincode_rs.Utf8.{into_bytes}
use fabric_chaincode_rs.Handler.Connection.Replies.{receive-illegal}
use fabric_chaincode_rs.Handler.Connection.Shutdown.{run-waits_forever}
use fabric_chaincode_rs.Examples.Peer.{midnight}

abbrev msg : MsgType → Text → ChaincodeMessage
msg t tx = new_message midnight t [] (str "mychannel") tx

-- the link with tx1's GET_STATE in flight
abbrev asked : PeerLink
asked = (start_request midnight MsgType.get_state [] (str "mychannel") (str "tx1") new_link).1

asked-IsLink : IsLink asked
asked-IsLink =
    IsLink-start_request midnight MsgType.get_state [] (str "mychannel") (str "tx1") new_link
      IsLink-new

other_key : key_of (msg MsgType.response (str "tx")) ≢ (str "mychannel", str "tx1")
unfolding new_message str
other_key = λ e. cc e

abbrev fresh : Conn
fresh = record { state = created; link = new_link; spawned = []; running = true }

receive_iff_Legal_example :
    ((receive midnight (message (msg MsgType.registered [])) fresh).running ≡ true)
    ↔ Legal created (type_of (msg MsgType.registered []))
receive_iff_Legal_example = receive_iff_Legal midnight (msg MsgType.registered []) fresh refl

-- a handshake, a transaction, its request and its end
abbrev one_transaction : List Action
one_transaction =
    inbound midnight (message (msg MsgType.registered []))
    ∷ inbound midnight (message (msg MsgType.keepalive []))
    ∷ inbound midnight (message (msg MsgType.ready []))
    ∷ inbound midnight (message (msg MsgType.transaction (str "tx1")))
    ∷ request midnight MsgType.get_state [] (str "mychannel") (str "tx1")
    ∷ inbound midnight (message (msg MsgType.response (str "tx1")))
    ∷ complete (str "mychannel", str "tx1") (msg MsgType.completed (str "tx1"))
    ∷ []

run-Handshake_example : Handshake created (received_types one_transaction)
unfolding run act receive send_link type_of try_from new_message to_i32
run-Handshake_example = run-Handshake one_transaction fresh refl

spawned_some : (run one_transaction fresh).spawned ≢ []
unfolding run act receive send_link type_of try_from new_message to_i32
spawned_some = λ e. cc e

spawned-Handshake_example : Handshake created (received_types one_transaction)
spawned-Handshake_example = spawned-Handshake one_transaction fresh refl spawned_some

-- The stream ends while tx1 waits; later the loop's caller hangs up and another task ends.
run-waits_forever_example :
    poll_request 0
      (run
        (inbound midnight end_of_stream
          ∷ hang_up
          ∷ complete (str "mychannel", str "tx") (msg MsgType.completed (str "tx"))
          ∷ [])
        (record { state = ready; link = asked; spawned = []; running = true })).link
    ≡ none
unfolding start_request new_link new_message Map.contains_key Map.get Map.insert str send pair_Eq
    list_Eq receive
run-waits_forever_example =
    run-waits_forever (str "mychannel", str "tx1") 0 midnight
      (record { state = ready; link = asked; spawned = []; running = true }) end_of_stream
      (hang_up ∷ complete (str "mychannel", str "tx") (msg MsgType.completed (str "tx")) ∷ [])
      asked-IsLink refl refl refl (_, (other_key, _))

not_yet : Legal created MsgType.transaction → ⊥
not_yet = elim [ ]

not_legal : ¬ Legal created (type_of (msg MsgType.transaction (str "tx1")))
unfolding new_message type_of try_from to_i32
not_legal = λ l. not_yet l

receive-illegal_example :
    receive midnight (message (msg MsgType.transaction (str "tx1"))) fresh ≡ record fresh {
      link = record new_link {
        sent =
            new_link.sent
            ++ new_message midnight MsgType.error
                (into_bytes (
                  str "received "
                  ++ debug (type_of (msg MsgType.transaction (str "tx1")))
                  ++ str " in state "
                  ++ debug_state created))
                (str "mychannel")
                (str "tx1")
              ∷ [];
      };
      running = false;
    }
unfolding new_link new_message
receive-illegal_example =
    receive-illegal midnight (msg MsgType.transaction (str "tx1")) fresh not_legal refl
