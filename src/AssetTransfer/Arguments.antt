-- ===== src/AssetTransfer/Arguments.antt =====
-- How the asset contract reads a client's call: the arguments' values, and the functions' names.
use fabric_chaincode_rs.Prelude.{
  ℕ, ◌≤◌, ◌≡◌, refl, true, false, List, [], ◌∷◌, map, Text, Bytes, IsText, str, pos, list_Eq,
  nat_Eq, ◌==◌,
}
use fabric_chaincode_rs.Utf8.{encode_char, into_bytes}
use fabric_chaincode_rs.Error.{ok}
use fabric_chaincode_rs.Metadata.{metadata_function}
use fabric_chaincode_rs.Contract.{Param, parse_args}
use fabric_chaincode_rs.Contract.Routing.{letters, parse_args-cons}
use fabric_chaincode_rs.Contract.Conversions.{string_from_arg-into_bytes}
use fabric_chaincode_rs.Contract.Numbers.{IntType, u32, u64, max_value, int_text}
use fabric_chaincode_rs.Contract.Numbers.Reading.{int_from_arg-int_text}
use fabric_chaincode_rs.AssetTransfer.{Asset}
use fabric_chaincode_rs.AssetTransfer.Contract.{Value, int, string_param, int_param, asset_params}
use fabric_chaincode_rs.AssetTransfer.Calls.{
  Request, init_ledger, create_asset, read_asset, update_asset, delete_asset, asset_exists,
  transfer_asset, read_transient, function, asset_texts, IsAsset,
}

module _ (utf8_error : Bytes → Text) where
  string_param-into_bytes :
      (name s : Text)
      → IsText s
      → (string_param utf8_error name).from_arg (into_bytes s) ≡ ok (Value.string s)
  unfolding string_param
  string_param-into_bytes name s h = rw (string_from_arg-into_bytes utf8_error s h) refl

  int_param-into_bytes :
      (t : IntType) (name : Text) (n : ℕ)
      → n ≤ max_value t
      → (int_param utf8_error t name).from_arg (into_bytes (int_text (pos n))) ≡ ok (int (pos n))
  unfolding int_param
  int_param-into_bytes t name n h = rw (int_from_arg-int_text utf8_error t (pos n) h) refl

  pub string_args :
      (ps : List (Param Value)) (args : List Bytes) (as' : List Value) (name s : Text)
      → IsText s
      → parse_args ps args ≡ ok as'
      → parse_args (string_param utf8_error name ∷ ps) (into_bytes s ∷ args)
        ≡ ok (Value.string s ∷ as')
  string_args ps args as' name s h k =
      parse_args-cons (string_param utf8_error name) ps (into_bytes s) args (Value.string s) as'
        (string_param-into_bytes name s h) k

  int_args :
      (ps : List (Param Value)) (args : List Bytes) (as' : List Value) (t : IntType) (name : Text)
      (n : ℕ)
      → n ≤ max_value t
      → parse_args ps args ≡ ok as'
      → parse_args (int_param utf8_error t name ∷ ps) (into_bytes (int_text (pos n)) ∷ args)
        ≡ ok (int (pos n) ∷ as')
  int_args ps args as' t name n h k =
      parse_args-cons (int_param utf8_error t name) ps (into_bytes (int_text (pos n))) args
        (int (pos n)) as' (int_param-into_bytes t name n h) k

  pub no_args : parse_args {A = Value} [] [] ≡ ok []
  unfolding parse_args
  no_args = refl

  abbrev pub asset_values : Asset → List Value
  asset_values a =
      Value.string a.id
      ∷ Value.string a.color
      ∷ int (pos a.size)
      ∷ Value.string a.owner
      ∷ int (pos a.appraised_value)
      ∷ []

  pub asset_args :
      (a : Asset)
      → IsAsset a
      → parse_args (asset_params utf8_error) (map into_bytes (asset_texts a)) ≡ ok (asset_values a)
  unfolding asset_params asset_texts
  asset_args a h = string_args _ _ _ (str "id") a.id h.id (
      string_args _ _ _ (str "color") a.color h.color (
        int_args _ _ _ u32 (str "size") a.size h.size (
          string_args _ _ _ (str "owner") a.owner h.owner (
            int_args _ _ _ u64 (str "appraisedValue") a.appraised_value h.appraised_value
              no_args))))

pub function-letters : (r : Request) → letters (function r) ≡ true
unfolding function str letters
function-letters init_ledger = refl
function-letters (create_asset a) = refl
function-letters (read_asset id) = refl
function-letters (update_asset a) = refl
function-letters (delete_asset id) = refl
function-letters (asset_exists id) = refl
function-letters (transfer_asset id owner) = refl
function-letters read_transient = refl

pub function-metadata :
    (r : Request) → (into_bytes (function r) == into_bytes metadata_function) ≡ false
unfolding function str into_bytes encode_char metadata_function list_Eq
function-metadata init_ledger = refl
function-metadata (create_asset a) = refl
function-metadata (read_asset id) = refl
function-metadata (update_asset a) = refl
function-metadata (delete_asset id) = refl
function-metadata (asset_exists id) = refl
function-metadata (transfer_asset id owner) = refl
function-metadata read_transient = refl
