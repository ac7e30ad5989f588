-- ===== src/Protos/Codec.antt =====
-- prost's encoding of the messages, a parameter of the model: one codec for each message that the
-- shim encodes or decodes.
use fabric_chaincode_rs.Prelude.{◌≡◌, Bytes}
use fabric_chaincode_rs.Error.{DecodeError, Result, ok}
use fabric_chaincode_rs.Protos.Messages.{
  ChaincodeId, ChaincodeInput, ChaincodeSpec, PbResponse, Proposal, ChaincodeProposalPayload,
  Header, ChannelHeader, SignatureHeader, SerializedIdentity, ChaincodeMessage, GetState, PutState,
  DelState, PurgePrivateState, GetStateByRange, GetQueryResult, QueryMetadata, GetHistoryForKey,
  QueryStateNext, QueryStateClose, QueryResponse, QueryResponseMetadata, Kv, KeyModification,
}

-- `Message::encode_to_vec` and `Message::decode`
pub record Codec (A : Type 0) : Type 0 where
  pub encode : A → Bytes
  pub decode : Bytes → Result A DecodeError

-- What prost documents: an encoded message decodes to itself.
abbrev pub IsLossless : {A : Type 0} → Codec A → Type 0
IsLossless {A} c = (a : A) → c.decode (c.encode a) ≡ ok a

pub record Codecs : Type 0 where
  pub chaincode_id : Codec ChaincodeId
  pub chaincode_input : Codec ChaincodeInput
  pub chaincode_spec : Codec ChaincodeSpec
  pub response : Codec PbResponse
  pub proposal : Codec Proposal
  pub proposal_payload : Codec ChaincodeProposalPayload
  pub header : Codec Header
  pub channel_header : Codec ChannelHeader
  pub signature_header : Codec SignatureHeader
  pub identity : Codec SerializedIdentity
  pub chaincode_message : Codec ChaincodeMessage
  pub get_state : Codec GetState
  pub put_state : Codec PutState
  pub del_state : Codec DelState
  pub purge_private_state : Codec PurgePrivateState
  pub get_state_by_range : Codec GetStateByRange
  pub get_query_result : Codec GetQueryResult
  pub query_metadata : Codec QueryMetadata
  pub get_history_for_key : Codec GetHistoryForKey
  pub query_state_next : Codec QueryStateNext
  pub query_state_close : Codec QueryStateClose
  pub query_response : Codec QueryResponse
  pub query_response_metadata : Codec QueryResponseMetadata
  pub kv : Codec Kv
  pub key_modification : Codec KeyModification
