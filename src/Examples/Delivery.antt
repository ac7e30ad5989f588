-- ===== src/Examples/Delivery.antt =====
-- One transaction's request on a connection where another transaction is busy.
use fabric_chaincode_rs.Prelude.{
  ◌≡◌, ◌≢◌, refl, true, none, some, List, [], ◌∷◌, ◌++◌, Text, str, list_Eq, pair_Eq, nat_Eq, inl,
}
use fabric_chaincode_rs.Prelude.Map
use fabric_chaincode_rs.Protos.MsgType.{MsgType, try_from, to_i32}
use fabric_chaincode_rs.Protos.Messages.{ChaincodeMessage, type_of}
use fabric_chaincode_rs.Handler.Link.{
  PeerLink, new_link, new_message, start_request, send, poll_request, interpret_reply, key_of,
}
use fabric_chaincode_rs.Handler.Link.Invariant.{IsLink-new, IsLink-start_request}
use fabric_chaincode_rs.Handler.Connection.{
  ready, Conn, message, receive, Action, inbound, request, complete, hang_up, run, act,
}
use fabric_chaincode_rs.Handler.Connection.Delivery.{run-delivers}
use fabric_chaincode_rs.Examples.Peer.{midnight}

abbrev msg : MsgType → Text → ChaincodeMessage
msg t tx = new_message midnight t [] (str "mychannel") tx

-- the link with tx1's GET_STATE in flight
abbrev asked : PeerLink
asked = (start_request midnight MsgType.get_state [] (str "mychannel") (str "tx1") new_link).1

abbrev conn : Conn
conn = record { state = ready; link = asked; spawned = []; running = true }

-- the other transaction asks and is answered
abbrev before : List Action
before =
    inbound midnight (message (msg MsgType.transaction (str "tx")))
    ∷ request midnight MsgType.get_state [] (str "mychannel") (str "tx")
    ∷ inbound midnight (message (msg MsgType.response (str "tx")))
    ∷ []

-- the other transaction ends, and the peer stops reading
abbrev after : List Action
after = complete (str "mychannel", str "tx") (msg MsgType.completed (str "tx")) ∷ hang_up ∷ []

other_key : (t : MsgType) → key_of (msg t (str "tx")) ≢ (str "mychannel", str "tx1")
unfolding new_message str
other_key t = λ e. cc e

run-delivers_example :
    (poll_request 0 (run before conn).link ≡ none)
    × (poll_request 0
          (run
            (before ++ inbound midnight (message (msg MsgType.response (str "tx1"))) ∷ after)
            conn).link
        ≡ some (interpret_reply (msg MsgType.response (str "tx1"))))
unfolding start_request new_link new_message Map.contains_key Map.get Map.insert str send pair_Eq
    list_Eq run act receive type_of try_from to_i32
run-delivers_example =
    run-delivers (str "mychannel", str "tx1") 0 before after midnight
      (msg MsgType.response (str "tx1")) conn refl
      (IsLink-start_request midnight MsgType.get_state [] (str "mychannel") (str "tx1") new_link
        IsLink-new)
      refl (other_key MsgType.transaction, (_, (other_key MsgType.response, _))) refl (inl refl)
      refl
