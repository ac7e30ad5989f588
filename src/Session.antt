-- ===== src/Session.antt =====
-- One transaction's conversation with the peer: `StubCore` of fabric-shim/src/stub.rs, lines 20-41,
-- and what a chaincode's code does with it, as actions on a session.
--
-- The peer and the clock are parameters: `reply` takes the message that was sent and gives the
-- message that the connection's loop routes back, if any. A transaction's calls follow one another,
-- as the gate in `StubCore` makes them, so the gate is always free. An action that awaits a reply
-- which never comes is `hung`.
pub mod Requests
pub mod Ledger
pub mod Refinement
pub mod Gate
pub mod Connected
use fabric_chaincode_rs.Prelude.{ℕ, Option, none, some, List, [], ◌∷◌, Text, Bytes}
use fabric_chaincode_rs.Error.{Error, Result, ok, err}
use fabric_chaincode_rs.Protos.MsgType.{MsgType}
use fabric_chaincode_rs.Protos.Messages.{Timestamp, ChaincodeMessage, ChaincodeEvent}
use fabric_chaincode_rs.Protos.Codec.{Codecs}
use fabric_chaincode_rs.Handler.Link.{
  PeerLink, new_message, start_request, route_response, poll_request,
}

pub record Env (W : Type 0) : Type 0 where
  pub codecs : Codecs
  -- the standard library's `Debug` for `str`
  pub debug_str : Text → Text
  pub now : W → Timestamp
  pub reply : ChaincodeMessage → W → Option ChaincodeMessage × W

-- What a transaction shares with the connection, its event slot, and the peer.
pub record Session (W : Type 0) : Type 0 where
  pub link : PeerLink
  pub event : Option ChaincodeEvent
  pub world : W

pub record StubCore : Type 0 where
  pub channel_id : Text
  pub tx_id : Text

pub data Outcome (A : Type 0) : Type 0 where
  done : Result A Error → Outcome A
  hung : Outcome A

abbrev pub Exec : Type 0 → Type 0 → Type 0
Exec W A = Session W → Outcome A × Session W

module _ {W : Type 0} where
  module _ {A : Type 0} where
    abbrev pub pure : A → Exec W A
    pure a s = (done (ok a), s)

    abbrev pub fail : Error → Exec W A
    fail e s = (done (err e), s)

    abbrev pub lift : Result A Error → Exec W A
    lift r s = (done r, s)

  module _ {A B : Type 0} where
    abbrev pub continue : Outcome A → (A → Exec W B) → Exec W B
    continue (done (ok a)) f s = f a s
    continue (done (err e)) f s = (done (err e), s)
    continue hung f s = (hung, s)

    infixl 5 ◌>>=◌ ◌>>◌
    abbrev pub ◌>>=◌ : Exec W A → (A → Exec W B) → Exec W B
    ◌>>=◌ m f s = let (r, s') = m s in continue r f s'

    abbrev pub ◌>>◌ : Exec W A → Exec W B → Exec W B
    m >> k = m >>= λ _. k

module _ {W : Type 0} (env : Env W) (core : StubCore) where
  -- the loop routes the peer's message, if one comes
  abbrev deliver : Option ChaincodeMessage → PeerLink → PeerLink
  deliver none l = l
  deliver (some msg) l = route_response msg l

  awaited : Option (Result ChaincodeMessage Error) → Outcome ChaincodeMessage
  awaited none = hung
  awaited (some r) = done r

  await_reply :
      MsgType → Bytes → Result ℕ Error × PeerLink → Session W → Outcome ChaincodeMessage × Session W
  unfolding awaited
  await_reply msg_type payload (err e, l) s = (done (err e), record s { link = l })
  await_reply msg_type payload (ok slot, l) s =
      let (msg, w) =
        env.reply (new_message (env.now s.world) msg_type payload core.channel_id core.tx_id)
          s.world in
      let l' = deliver msg l in (awaited (poll_request slot l'), record s { link = l'; world = w })

  -- `StubCore::request`
  unfoldable pub core_request : MsgType → Bytes → Exec W ChaincodeMessage
  unfolding await_reply
  core_request msg_type payload s =
      await_reply msg_type payload
        (start_request (env.now s.world) msg_type payload core.channel_id core.tx_id s.link) s
