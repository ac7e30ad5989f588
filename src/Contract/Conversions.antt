-- ===== src/Contract/Conversions.antt =====
-- fabric-shim/src/contract.rs, lines 82-114, 145-156 and 168-178: how texts, Booleans, the unit and
-- vectors are read from an argument and written as a payload. `utf8_error` is the text of `Utf8Error`.
use fabric_chaincode_rs.Prelude.{
  ◌≡◌, refl, Bool, true, false, Option, none, some, List, [], ◌++◌, Text, Bytes, IsText, str, ◌==◌,
  list_Eq, nat_Eq, if◌then◌else◌, arith,
}
use fabric_chaincode_rs.Error.{Result, ok, ok_or, map_err, ◌>>=◌}
use fabric_chaincode_rs.Contract.Trim.{
  is_whitespace, trim, IsBlank, IsWord, trim-padded, from_utf8-padded,
}
use fabric_chaincode_rs.Utf8.{into_bytes, from_utf8}
use fabric_chaincode_rs.Utf8.RoundTrip.{from_utf8-into_bytes}

-- `bool::from_str`
parse_bool : Text → Option Bool
parse_bool s = if s == str "true" then some true else if s == str "false" then some false else none

-- `bool::to_string`
unfoldable pub bool_text : Bool → Text
bool_text true = str "true"
bool_text false = str "false"

module _ (utf8_error : Bytes → Text) where
  unfoldable pub string_from_arg : Bytes → Result Text Text
  string_from_arg raw = ok_or (from_utf8 raw) (utf8_error raw)

  unfoldable pub bool_from_arg : Bytes → Result Bool Text
  unfolding parse_bool
  bool_from_arg raw = do
    s ← ok_or (from_utf8 raw) (utf8_error raw)
    ok_or (parse_bool (trim s)) (str "expected \"true\" or \"false\"")

unfoldable pub string_into_payload : Text → Result Bytes Text
string_into_payload s = ok (into_bytes s)

unfoldable pub bool_into_payload : Bool → Result Bytes Text
bool_into_payload b = ok (into_bytes (bool_text b))

unfoldable pub unit_into_payload : Unit {0} → Result Bytes Text
unit_into_payload _ = ok []

-- lines 168-178: `from_slice` and `to_vec` are serde_json's on vectors, with their errors displayed
unfoldable pub vec_from_arg :
    {A : Type 0} → (Bytes → Result (List A) Text) → Bytes → Result (List A) Text
vec_from_arg from_slice raw = map_err (λ e. str "invalid JSON array: " ++ e) (from_slice raw)

unfoldable pub vec_into_payload :
    {A : Type 0} → (List A → Result Bytes Text) → List A → Result Bytes Text
vec_into_payload to_vec xs = to_vec xs

bool_text-IsWord : (b : Bool) → IsWord (bool_text b)
unfolding bool_text str is_whitespace
bool_text-IsWord true = (refl, (refl, (refl, (refl, _))))
bool_text-IsWord false = (refl, (refl, (refl, (refl, (refl, _)))))

bool_text-IsText : (b : Bool) → IsText (bool_text b)
unfolding bool_text str
bool_text-IsText true = omega arith
bool_text-IsText false = omega arith

parse_bool-bool_text : (b : Bool) → parse_bool (bool_text b) ≡ some b
unfolding parse_bool bool_text str list_Eq
parse_bool-bool_text true = refl
parse_bool-bool_text false = refl

module _ (utf8_error : Bytes → Text) where
  pub string_from_arg-into_bytes :
      (s : Text) → IsText s → string_from_arg utf8_error (into_bytes s) ≡ ok s
  unfolding string_from_arg
  string_from_arg-into_bytes s h = rw (from_utf8-into_bytes s h) refl

  -- A text that one transaction returns is read back by another's text parameter.
  pub string_from_arg-string_into_payload :
      (s : Text) → IsText s → (string_into_payload s >>= string_from_arg utf8_error) ≡ ok s
  unfolding string_into_payload
  string_from_arg-string_into_payload s h = string_from_arg-into_bytes s h

  -- A Boolean's text is read back as that Boolean, whatever white space stands around it.
  pub bool_from_arg-padded :
      (before after : Text) (b : Bool)
      → IsBlank before
      → IsBlank after
      → bool_from_arg utf8_error (into_bytes (before ++ (bool_text b ++ after))) ≡ ok b
  unfolding bool_from_arg
  bool_from_arg-padded before after b h k =
      rw
        (
          from_utf8-padded before (bool_text b) after h (bool_text-IsText b) k,
          trim-padded before (bool_text b) after h (bool_text-IsWord b) k,
          parse_bool-bool_text b,
        )
        refl
