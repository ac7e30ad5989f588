-- ===== src/Examples/Contracts.antt =====
-- A derived schema and the server's start at concrete inputs.
use fabric_chaincode_rs.Prelude.{
  ◌≡◌, ◌↔◌, false, Option, none, some, List, [], ◌∷◌, ◌++◌, Text, Bytes, str, list_Eq, nat_Eq, ◌==◌,
  if◌then◌else◌,
}
use fabric_chaincode_rs.Prelude.Map.{Map}
use fabric_chaincode_rs.Error.{Result, ok}
use fabric_chaincode_rs.Contract.Describe.{TypeSchema}
use fabric_chaincode_rs.Contract.DataType.{Heck}
use fabric_chaincode_rs.Contract.Syntax.{
  SynType, no_arguments, angle_bracketed, type_argument, no_more, literal, SerdeItem, DataField,
  named, DeriveInput,
}
use fabric_chaincode_rs.Server.Listening.{start_from_env, EndsWell, start_from_env_iff}
use fabric_chaincode_rs.Server.{Server, default_max_message_size}

-- a primitive type's schema is its name
abbrev primitive : Text → TypeSchema Text
primitive name = record { schema = name; components = λ out. out }

abbrev plain_heck : Heck
plain_heck = record {
  lower_camel = λ s. s;
  upper_camel = λ s. s;
  uppercase = λ s. s;
  lowercase = λ s. s;
  shouty_snake = λ s. s;
  kebab = λ s. s;
}

abbrev join : List Text → Map Text Text → Text
join [] props = []
join (name ∷ names) props = name ++ join names props

abbrev utf8_error : Bytes → Text
utf8_error b = []

-- an address resolves to its own text
abbrev resolve : Text → Result (List Text) Text
resolve a = ok (a ∷ [])

abbrev vars : Text → Option Text
vars name = if name == str "CORE_CHAINCODE_ID" then some (str "basic_1.0:abc") else none

abbrev configured : Server Text
configured = record {
  chaincode_id = str "basic_1.0:abc";
  address = str "0.0.0.0:7052";
  limit = default_max_message_size;
}

-- every address can be bound, and the server runs until it is shut down
start_from_env_iff_example :
    (start_from_env (λ a. ok a) (λ t l. ok tt) (λ a. a) resolve (λ t. t) vars ≡ ok tt)
    ↔ EndsWell (λ a. ok a) (λ t l. ok tt) (λ a. a) resolve (λ t. t) vars
start_from_env_iff_example =
    start_from_env_iff {Listener = Text} (λ a. ok a) (λ t l. ok tt) (λ a. a) resolve (λ t. t) vars

abbrev string_field : Text → List SerdeItem → SynType → DataField
string_field name items ty = record {
  ident = name;
  attrs = record { ident = some (str "serde"); items = items } ∷ [];
  ty = ty;
}

-- an identifier that is renamed, and a note that may be left out
abbrev asset_fields : List DataField
asset_fields =
    string_field (str "id") (record { key = some (str "rename"); value = literal (str "ID") } ∷ [])
      (SynType.path (str "String") no_arguments)
    ∷ string_field (str "note") [] (
        SynType.path (str "Option")
          (angle_bracketed (type_argument (SynType.path (str "String") no_arguments) no_more)))
    ∷ []

abbrev asset_input : DeriveInput
asset_input = record {
  ident = str "Asset";
  attrs = [];
  is_generic = false;
  body = named asset_fields;
}
