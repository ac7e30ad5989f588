-- ===== src/Examples/Routing.antt =====
-- The generated routing and the stub at concrete inputs.
use fabric_chaincode_rs.Prelude.{
  ℕ, ◌≡◌, false, some, List, [], ◌∷◌, Text, Bytes, str, pos, list_Eq, nat_Eq,
}
use fabric_chaincode_rs.Error.{Result, ok}
use fabric_chaincode_rs.Utf8.{into_bytes}
use fabric_chaincode_rs.Protos.Messages.{
  ChannelHeader, SignatureHeader, ChaincodeProposalPayload, ChaincodeInput,
}
use fabric_chaincode_rs.Stub.{
  ChaincodeStub, new_stub, get_creator, get_transient, get_args, get_tx_id, get_channel_id,
}
use fabric_chaincode_rs.Stub.Identity.{sign, new_stub-sign}
use fabric_chaincode_rs.Contract.{TxMethod, gave}
use fabric_chaincode_rs.Examples.Wire.{wire, wire-IsLosslessProposal}
use fabric_chaincode_rs.Examples.Peer.{World, midnight}
use fabric_chaincode_rs.Examples.Keys.{stub_of}

abbrev empty : World
empty = record { state = []; batches = [] }

-- a contract whose one method gives its argument back
abbrev echo : TxMethod World Bytes Bytes
echo = record {
  wire_name = str "Echo";
  params = record { name = str "value"; from_arg = λ b. ok b } ∷ [];
  method = λ stub args s. (gave (ok (or_first args)), s);
}
  where
    or_first : List Bytes → Bytes
    or_first [] = []
    or_first (a ∷ _) = a

abbrev show : ℕ → Text
show n = n ∷ []

abbrev payload_of : Bytes → Result Bytes Text
payload_of b = ok b

abbrev called : ChaincodeStub
called = stub_of (into_bytes (str "Echo") ∷ (7 ∷ []) ∷ [])

abbrev no_methods : List (TxMethod World Bytes Bytes)
no_methods = []

abbrev channel_header : ChannelHeader
channel_header = record {
  type = pos 3;
  version = pos 1;
  timestamp = some midnight;
  channel_id = str "mychannel";
  tx_id = str "tx1";
  epoch = 0;
  extension = [];
  tls_cert_hash = [];
}

abbrev signature_header : SignatureHeader
signature_header = record { creator = 1 ∷ 2 ∷ []; nonce = 3 ∷ [] }

abbrev proposal_payload : ChaincodeProposalPayload
proposal_payload = record { input = []; transient_map = (str "asset_properties", 9 ∷ []) ∷ [] }

abbrev input : ChaincodeInput
input = record { args = (7 ∷ []) ∷ []; decorations = []; is_init = false }

new_stub-sign_example :
    (stub : ChaincodeStub) × (new_stub wire
        (str "mychannel")
        (str "tx1")
        input
        (some (sign wire channel_header signature_header proposal_payload [] []))
      ≡ ok stub)
    × (get_creator stub ≡ 1 ∷ 2 ∷ [])
    × (get_transient stub ≡ (str "asset_properties", 9 ∷ []) ∷ [])
    × (stub.tx_timestamp ≡ some midnight)
    × (get_args stub ≡ (7 ∷ []) ∷ [])
    × (get_tx_id stub ≡ str "tx1")
    × (get_channel_id stub ≡ str "mychannel")
new_stub-sign_example =
    new_stub-sign wire (str "mychannel") (str "tx1") input channel_header signature_header
      proposal_payload [] [] wire-IsLosslessProposal
