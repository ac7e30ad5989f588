-- ===== src/Stub.antt =====
-- `ChaincodeStub` of fabric-shim/src/stub.rs: how it is built from a transaction's message, and the
-- calls that need no peer. The calls that do are in the child `Calls`.
pub mod Identity
pub mod Arguments
pub mod Calls
use fabric_chaincode_rs.Prelude.{
  Option, none, some, List, [], ◌∷◌, ◌≡◌, refl, map, Text, Bytes, str, is_empty, if◌then◌else◌,
}
use fabric_chaincode_rs.Prelude.Map.{Map}
use fabric_chaincode_rs.Utf8.{from_utf8_lossy}
use fabric_chaincode_rs.Error.{Error, Result, ok, err, protocol, ◌>>=◌, decoded, ok_or}
use fabric_chaincode_rs.Protos.Messages.{
  Timestamp, ChaincodeInput, SignedProposal, Proposal, Header, ChannelHeader, SignatureHeader,
  ChaincodeProposalPayload, SerializedIdentity,
}
use fabric_chaincode_rs.Protos.Codec.{Codecs}
use fabric_chaincode_rs.Session.{StubCore}

-- The event slot, which the stub shares with the transaction's task, is in the session.
pub record ChaincodeStub : Type 0 where
  pub core : StubCore
  pub args : List Bytes
  pub decorations : Map Text Bytes
  pub signed_proposal : Option SignedProposal
  pub creator : Bytes
  pub transient : Map Text Bytes
  pub tx_timestamp : Option Timestamp

-- what `new` reads from the proposal
pub record ProposalFields : Type 0 where
  pub creator : Bytes
  pub transient : Map Text Bytes
  pub tx_timestamp : Option Timestamp

module _ (codecs : Codecs) where
  -- lines 65-82
  unfoldable pub read_proposal : Option SignedProposal → Result ProposalFields Error
  read_proposal none = ok (record { creator = []; transient = []; tx_timestamp = none })
  read_proposal (some sp) = do
    proposal ← decoded (codecs.proposal.decode sp.proposal_bytes)
    header ← decoded (codecs.header.decode proposal.header)
    channel_header ← decoded (codecs.channel_header.decode header.channel_header)
    signature_header ← decoded (codecs.signature_header.decode header.signature_header)
    payload ← decoded (codecs.proposal_payload.decode proposal.payload)
    ok (record {
      creator = signature_header.creator;
      transient = payload.transient_map;
      tx_timestamp = channel_header.timestamp;
    })

  unfoldable pub new_stub :
      Text → Text → ChaincodeInput → Option SignedProposal → Result ChaincodeStub Error
  unfolding read_proposal
  new_stub channel_id tx_id input signed_proposal = do
    fields ← read_proposal signed_proposal
    ok (record {
      core = record { channel_id = channel_id; tx_id = tx_id };
      args = input.args;
      decorations = input.decorations;
      signed_proposal = signed_proposal;
      creator = fields.creator;
      transient = fields.transient;
      tx_timestamp = fields.tx_timestamp;
    })

  unfoldable pub get_creator_identity : ChaincodeStub → Result SerializedIdentity Error
  get_creator_identity stub = decoded (codecs.identity.decode stub.creator)

unfoldable pub get_tx_id : ChaincodeStub → Text
get_tx_id stub = stub.core.tx_id

unfoldable pub get_channel_id : ChaincodeStub → Text
get_channel_id stub = stub.core.channel_id

unfoldable pub get_tx_timestamp : ChaincodeStub → Result Timestamp Error
get_tx_timestamp stub =
    ok_or stub.tx_timestamp (protocol (str "transaction has no timestamp (no proposal)"))

unfoldable pub get_args : ChaincodeStub → List Bytes
get_args stub = stub.args

unfoldable pub get_string_args : ChaincodeStub → List Text
get_string_args stub = map from_utf8_lossy stub.args

function_of : List Text → Text × List Text
function_of [] = ([], [])
function_of (function ∷ args) = (function, args)

unfoldable pub get_function_and_args : ChaincodeStub → Text × List Text
unfolding function_of
get_function_and_args stub = function_of (get_string_args stub)

unfoldable pub get_creator : ChaincodeStub → Bytes
get_creator stub = stub.creator

unfoldable pub get_transient : ChaincodeStub → Map Text Bytes
get_transient stub = stub.transient

unfoldable pub get_decorations : ChaincodeStub → Map Text Bytes
get_decorations stub = stub.decorations

unfoldable pub get_signed_proposal : ChaincodeStub → Option SignedProposal
get_signed_proposal stub = stub.signed_proposal
