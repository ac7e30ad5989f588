-- ===== src/Contract/Syntax.antt =====
-- What the macros of fabric-shim-macros/src/lib.rs see of their input: the parts of syn's trees that
-- the source matches on. syn's parsing, and where in the text an error stands, are left out.
use fabric_chaincode_rs.Prelude.{Bool, Option, List, Text}
use fabric_chaincode_rs.Error.{Result}

mutual
  -- `syn::Type`: a path by its last segment, a tuple, or anything else by its text
  pub data SynType : Type 0 where
    path : Text → PathArguments → SynType
    tuple : SynTypes → SynType
    verbatim : Text → SynType

  pub data SynTypes : Type 0 where
    no_types : SynTypes
    element : SynType → SynTypes → SynTypes

  -- `syn::PathArguments`
  pub data PathArguments : Type 0 where
    no_arguments : PathArguments
    angle_bracketed : GenericArguments → PathArguments
    parenthesized : PathArguments

  -- `syn::GenericArgument`, in a list: types, lifetimes and the rest
  pub data GenericArguments : Type 0 where
    no_more : GenericArguments
    type_argument : SynType → GenericArguments → GenericArguments
    other_argument : GenericArguments → GenericArguments

-- `syn::Meta`: the path's identifier, if it is one, and a value that is a string literal
pub data Meta : Type 0 where
  path : Option Text → Meta
  name_value : Option Text → Option Text → Meta
  list : Option Text → Meta

-- An attribute: the path's identifier, and what the argument list parses to, if there is a list.
pub record Attribute : Type 0 where
  pub ident : Option Text
  pub arguments : Option (Result (List Meta) Text)

-- `syn::FnArg`, a typed argument by its pattern's identifier, if it is one
pub data FnArg : Type 0 where
  receiver : FnArg
  typed : Option Text → SynType → FnArg

-- `syn::ImplItemFn`
pub record Method : Type 0 where
  pub attrs : List Attribute
  pub ident : Text
  pub asyncness : Bool
  pub inputs : List FnArg
  pub output : Option SynType

-- `syn::ImplItem`
pub data ImplItem : Type 0 where
  fn : Method → ImplItem
  other_item : ImplItem

-- `syn::ItemImpl`: its type's last segment, if the type is a path
pub record ItemImpl : Type 0 where
  pub is_generic : Bool
  pub self_ty : Option Text
  pub items : List ImplItem

-- What stands behind a key in a `serde` attribute: a string literal, another expression, nothing, or
-- what cannot be read on, such as a list in parentheses.
pub data SerdeValue : Type 0 where
  literal : Text → SerdeValue
  expression bare unreadable : SerdeValue

pub record SerdeItem : Type 0 where
  pub key : Option Text
  pub value : SerdeValue

-- An attribute of a struct or a field, with the items that `parse_nested_meta` goes through.
pub record DataAttribute : Type 0 where
  pub ident : Option Text
  pub items : List SerdeItem

pub record DataField : Type 0 where
  pub ident : Text
  pub attrs : List DataAttribute
  pub ty : SynType

-- `syn::Data`: a struct with named fields, another struct, or no struct
pub data Data : Type 0 where
  named : List DataField → Data
  unnamed no_struct : Data

-- `syn::DeriveInput`
pub record DeriveInput : Type 0 where
  pub ident : Text
  pub attrs : List DataAttribute
  pub is_generic : Bool
  pub body : Data
