-- ===== src/Contract/DataType.antt =====
-- fabric-shim-macros/src/lib.rs, lines 399-465 and 516-526: the schema that `derive(DataType)`
-- generates for a struct. `V` is serde_json's `Value`; `object` makes the struct's schema of the names
-- required and the properties. `heck` holds heck's case conversions and the standard library's.
use fabric_chaincode_rs.Prelude.{
  Bool, Option, none, some, List, [], ◌∷◌, ◌++◌, Text, Bytes, str, list_Eq, nat_Eq, ◌==◌,
  if◌then◌else◌,
}
use fabric_chaincode_rs.Prelude.Map
use fabric_chaincode_rs.Prelude.Map.{Map}
use fabric_chaincode_rs.Error.{Result, map_err}
use fabric_chaincode_rs.Contract.Describe.{TypeSchema}

pub record Heck : Type 0 where
  pub lower_camel : Text → Text
  pub upper_camel : Text → Text
  pub uppercase : Text → Text
  pub lowercase : Text → Text
  pub shouty_snake : Text → Text
  pub kebab : Text → Text

unfoldable pub apply_rename_all : Heck → Text → Option Text → Text
apply_rename_all heck field none = field
apply_rename_all heck field (some rule) =
    if rule == str "camelCase"
    then heck.lower_camel field
    else if rule == str "PascalCase"
    then heck.upper_camel field
    else if rule == str "UPPERCASE"
    then heck.uppercase field
    else if rule == str "lowercase"
    then heck.lowercase field
    else if rule == str "SCREAMING_SNAKE_CASE"
    then heck.shouty_snake field
    else if rule == str "kebab-case"
    then heck.kebab field
    else field

-- lines 454-463: the conversions that are generated for the struct `name`; `from_slice` and `to_vec` are
-- serde_json's, with their errors displayed
unfoldable pub struct_from_arg :
    {A : Type 0} → Text → (Bytes → Result A Text) → Bytes → Result A Text
struct_from_arg name from_slice raw =
    map_err (λ e. str "invalid JSON for " ++ name ++ str ": " ++ e) (from_slice raw)

unfoldable pub struct_into_payload :
    {A : Type 0} → Text → (A → Result Bytes Text) → A → Result Bytes Text
struct_into_payload name to_vec a =
    map_err (λ e. str "failed to serialize " ++ name ++ str ": " ++ e) (to_vec a)

-- A field: its `serde(rename)`, its type within an `Option`, and whether there was one.
pub record Field (V : Type 0) : Type 0 where
  pub ident : Text
  pub rename : Option Text
  pub type : TypeSchema V
  pub optional : Bool

pub record Struct (V : Type 0) : Type 0 where
  pub name : Text
  pub rename_all : Option Text
  pub fields : List (Field V)

module _ {V : Type 0} (heck : Heck) (object : List Text → Map Text V → V) where
  unfoldable pub json_name : Option Text → Field V → Text
  json_name rule f = elim f.rename [ some name ↦ name | none ↦ apply_rename_all heck f.ident rule ]

  unfoldable pub required : Option Text → List (Field V) → List Text
  unfolding json_name
  required rule [] = []
  required rule (f ∷ fs) =
      let rest = required rule fs in if f.optional then rest else json_name rule f ∷ rest

  properties : Option Text → List (Field V) → Map Text V → Map Text V
  unfolding json_name
  properties rule [] props = props
  properties rule (f ∷ fs) props =
      properties rule fs (Map.insert (json_name rule f) f.type.schema props)

  nested : List (Field V) → Map Text V → Map Text V
  nested [] out = out
  nested (f ∷ fs) out = nested fs (f.type.components out)

  unfoldable pub struct_schema : Struct V → V
  unfolding required properties
  struct_schema d = object (required d.rename_all d.fields) (properties d.rename_all d.fields [])

  -- the generated `components`
  unfoldable pub components_of : Struct V → Map Text V → Map Text V
  unfolding nested
  components_of d out =
      let registered = nested d.fields (Map.insert d.name (struct_schema d) out) in
      if Map.contains_key d.name out then out else registered
