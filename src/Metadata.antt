-- ===== src/Metadata.antt =====
-- fabric-shim/src/metadata.rs: the contract's metadata and its builders. `V` is serde_json's
-- `Value`, a parameter.
use fabric_chaincode_rs.Prelude.{
  ◌++◌, Bool, true, Option, none, some, List, [], ◌∷◌, Text, str, list_Eq, nat_Eq,
}
use fabric_chaincode_rs.Prelude.Map
use fabric_chaincode_rs.Prelude.Map.{Map}

unfoldable pub metadata_function : Text
unfolding str
metadata_function = str "org.hyperledger.fabric:GetMetadata"

pub contract_schema_url : Text
contract_schema_url =
    str "https://hyperledger.github.io/fabric-chaincode-node/main/api/contract-schema.json"

pub record Info : Type 0 where
  pub title : Text
  pub version : Text
  pub description : Option Text

pub record Parameter (V : Type 0) : Type 0 where
  pub name : Text
  pub schema : V
  pub description : Option Text

pub record Transaction (V : Type 0) : Type 0 where
  pub name : Text
  pub tag : List Text
  pub parameters : List (Parameter V)
  pub returns : Option V

pub record Contract (V : Type 0) : Type 0 where
  pub name : Text
  pub info : Info
  pub transactions : List (Transaction V)
  pub default : Bool

pub record Components (V : Type 0) : Type 0 where
  pub schemas : Map Text V

pub record Metadata (V : Type 0) : Type 0 where
  pub schema : Text
  pub info : Info
  pub contracts : Map Text (Contract V)
  pub components : Components V

module _ {V : Type 0} where
  unfoldable pub new_metadata : Text → Text → Metadata V
  new_metadata title version = record {
    schema = contract_schema_url;
    info = record { title = title; version = version; description = none };
    contracts = [];
    components = record { schemas = [] };
  }

  unfoldable pub add_contract : Contract V → Metadata V → Metadata V
  add_contract c md = record md { contracts = Map.insert c.name c md.contracts }

  unfoldable pub add_component : Text → V → Metadata V → Metadata V
  add_component name schema md = record md {
    components = record { schemas = Map.insert name schema md.components.schemas };
  }

  unfoldable pub new_contract : Text → Contract V
  new_contract name = record {
    name = name;
    info = record { title = name; version = str "latest"; description = none };
    transactions = [];
    default = true;
  }

  unfoldable pub add_transaction : Transaction V → Contract V → Contract V
  add_transaction tx c = record c { transactions = c.transactions ++ tx ∷ [] }

  unfoldable pub submit : Text → Transaction V
  submit name = record { name = name; tag = str "submit" ∷ []; parameters = []; returns = none }

  unfoldable pub evaluate : Text → Transaction V
  evaluate name = record { name = name; tag = str "evaluate" ∷ []; parameters = []; returns = none }

  unfoldable pub add_parameter : Text → V → Transaction V → Transaction V
  add_parameter name schema tx = record tx {
    parameters = tx.parameters ++ record { name = name; schema = schema; description = none } ∷ [];
  }

  unfoldable pub set_returns : V → Transaction V → Transaction V
  set_returns schema tx = record tx { returns = some schema }
