-- ===== src/Examples/Documented.antt =====
-- The metadata and the routing of a contract with one transaction.
use fabric_chaincode_rs.Prelude.{refl, ◌≡◌, some, [], map, Text, Bytes, List, str, list_Eq, nat_Eq}
use fabric_chaincode_rs.Prelude.Map
use fabric_chaincode_rs.Error.{Result, ok}
use fabric_chaincode_rs.Metadata.{Contract}
use fabric_chaincode_rs.Session.{Session}
use fabric_chaincode_rs.Stub.{ChaincodeStub}
use fabric_chaincode_rs.Contract.{Called, gave}
use fabric_chaincode_rs.Contract.Describe.{TypeSchema}
use fabric_chaincode_rs.Contract.Syntax.{SynType}
use fabric_chaincode_rs.Contract.Parsing.{ParsedTx}
use fabric_chaincode_rs.Contract.Routing.{letters, letters-IsSimple}
use fabric_chaincode_rs.Contract.Expansion.{expanded_metadata, routed}
use fabric_chaincode_rs.Contract.Expansion.Documented.{Agree, metadata-Agree}
use fabric_chaincode_rs.Examples.Parsing.{expansion}
use fabric_chaincode_rs.Examples.Peer.{World}

abbrev text_schema : SynType → TypeSchema Text
text_schema ty = record { schema = str "string"; components = λ out. out }

abbrev raw_arg : SynType → Bytes → Result Bytes Text
raw_arg ty raw = ok raw

-- every method gives no bytes
abbrev silent : ParsedTx → ChaincodeStub → List Bytes → Session World → Called Bytes × Session World
silent tx stub args s = (gave (ok []), s)

metadata-Agree_example :
    (c : Contract Text) × (Map.get
        (str "Assets")
        (expanded_metadata (λ s. s) text_schema (str "0.1.0") expansion).contracts
      ≡ some c)
    × Agree
        (λ s. s)
        text_schema
        raw_arg
        silent
        (str "read_asset")
        (map (routed (λ s. s) raw_arg silent) expansion.txs)
        c.transactions
unfolding letters str
metadata-Agree_example =
    metadata-Agree (λ s. s) text_schema raw_arg silent (str "0.1.0") expansion (str "read_asset")
      (letters-IsSimple (str "read_asset") refl)
