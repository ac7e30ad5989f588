-- ===== src/Examples/Numbers.antt =====
-- Integers read from arguments, at concrete inputs.
use fabric_chaincode_rs.Prelude.{
  ◌≡◌, refl, [], ◌++◌, Text, Bytes, str, ltb, if◌then◌else◌, pos, negsuc, arith,
}
use fabric_chaincode_rs.Error.{ok, err}
use fabric_chaincode_rs.Utf8.{into_bytes}
use fabric_chaincode_rs.Contract.Trim.{is_whitespace}
use fabric_chaincode_rs.Contract.Numbers.{
  u8, i16, max_value, is_signed, pos_overflow, parse_error_text, int_text, int_from_arg,
}
use fabric_chaincode_rs.Contract.Numbers.RoundTrip.{spelled}
use fabric_chaincode_rs.Contract.Numbers.Reading.{int_from_arg-padded, int_from_arg-numeral}

abbrev no_text : Bytes → Text
no_text b = []

int_from_arg-padded_example :
    int_from_arg no_text i16 (into_bytes (str " " ++ (int_text (negsuc 32767) ++ str "\n")))
    ≡ ok (negsuc 32767)
unfolding str is_whitespace max_value is_signed
int_from_arg-padded_example =
    int_from_arg-padded no_text i16 (str " ") (str "\n") (negsuc 32767) (refl, omega arith)
      (refl, _) (refl, _)

int_from_arg-numeral_example : int_from_arg no_text u8 (into_bytes ([] ++ (str "0256" ++ []))) ≡ (
    if ltb (max_value u8) (spelled 0 (str "0256"))
    then err (parse_error_text pos_overflow)
    else ok (pos (spelled 0 (str "0256"))))
unfolding str
int_from_arg-numeral_example =
    int_from_arg-numeral no_text u8 [] (str "0256") [] (omega arith) tt tt
