-- ===== src/Protos/Messages.antt =====
-- The protobuf messages that the shim reads and writes, fabric-shim-protos/src/generated. A
-- `bytes` or `string` field is a list of numbers; an `i32` is an integer.
use fabric_chaincode_rs.Prelude.{ℕ, Option, List, Bool, Text, Bytes, ℤ, or_else}
use fabric_chaincode_rs.Prelude.Map.{Map}
use fabric_chaincode_rs.Protos.MsgType.{MsgType, undefined, try_from}

-- prost_types::Timestamp
pub record Timestamp : Type 0 where
  pub seconds : ℤ
  pub nanos : ℤ

pub record ChaincodeEvent : Type 0 where
  pub chaincode_id : Text
  pub tx_id : Text
  pub event_name : Text
  pub payload : Bytes

pub record ChaincodeId : Type 0 where
  pub path : Text
  pub name : Text
  pub version : Text

pub record ChaincodeInput : Type 0 where
  pub args : List Bytes
  pub decorations : Map Text Bytes
  pub is_init : Bool

pub record ChaincodeSpec : Type 0 where
  pub type : ℤ
  pub chaincode_id : Option ChaincodeId
  pub input : Option ChaincodeInput
  pub timeout : ℤ

-- the protobuf `Response`
pub record PbResponse : Type 0 where
  pub status : ℤ
  pub message : Text
  pub payload : Bytes

pub record SignedProposal : Type 0 where
  pub proposal_bytes : Bytes
  pub signature : Bytes

pub record Proposal : Type 0 where
  pub header : Bytes
  pub payload : Bytes
  pub extension : Bytes

pub record ChaincodeProposalPayload : Type 0 where
  pub input : Bytes
  pub transient_map : Map Text Bytes

pub record Header : Type 0 where
  pub channel_header : Bytes
  pub signature_header : Bytes

pub record ChannelHeader : Type 0 where
  pub type : ℤ
  pub version : ℤ
  pub timestamp : Option Timestamp
  pub channel_id : Text
  pub tx_id : Text
  pub epoch : ℕ
  pub extension : Bytes
  pub tls_cert_hash : Bytes

pub record SignatureHeader : Type 0 where
  pub creator : Bytes
  pub nonce : Bytes

pub record SerializedIdentity : Type 0 where
  pub mspid : Text
  pub id_bytes : Bytes

pub record ChaincodeMessage : Type 0 where
  pub type : ℤ
  pub timestamp : Option Timestamp
  pub payload : Bytes
  pub txid : Text
  pub proposal : Option SignedProposal
  pub chaincode_event : Option ChaincodeEvent
  pub channel_id : Text

-- the accessor `r#type()`: an unknown number is the default, `Undefined`
unfoldable pub type_of : ChaincodeMessage → MsgType
type_of m = or_else (try_from m.type) undefined

pub record GetState : Type 0 where
  pub key : Text
  pub collection : Text

pub record PutState : Type 0 where
  pub key : Text
  pub value : Bytes
  pub collection : Text

pub record DelState : Type 0 where
  pub key : Text
  pub collection : Text

pub record PurgePrivateState : Type 0 where
  pub key : Text
  pub collection : Text

pub record GetStateByRange : Type 0 where
  pub start_key : Text
  pub end_key : Text
  pub collection : Text
  pub metadata : Bytes

pub record GetQueryResult : Type 0 where
  pub query : Text
  pub collection : Text
  pub metadata : Bytes

pub record QueryMetadata : Type 0 where
  pub page_size : ℤ
  pub bookmark : Text

pub record GetHistoryForKey : Type 0 where
  pub key : Text

pub record QueryStateNext : Type 0 where
  pub id : Text

pub record QueryStateClose : Type 0 where
  pub id : Text

pub record QueryResultBytes : Type 0 where
  pub result_bytes : Bytes

pub record QueryResponse : Type 0 where
  pub results : List QueryResultBytes
  pub has_more : Bool
  pub id : Text
  pub metadata : Bytes

pub record QueryResponseMetadata : Type 0 where
  pub fetched_records_count : ℤ
  pub bookmark : Text

pub record Kv : Type 0 where
  pub namespace : Text
  pub key : Text
  pub value : Bytes

pub record KeyModification : Type 0 where
  pub tx_id : Text
  pub value : Bytes
  pub timestamp : Option Timestamp
  pub is_delete : Bool
