-- ===== src/Contract/Numbers.antt =====
-- fabric-shim/src/contract.rs, lines 116-142: how integers are read from an argument and written as a
-- payload. `parse` and `Display` of the integer types are the standard library's; `usize` and `isize`
-- are those of a 64-bit target.
pub mod RoundTrip
pub mod Reading
use fabric_chaincode_rs.Prelude.{
  ℕ, zero, suc, ◌+◌, ◌-◌, ◌*◌, ◌/◌, ◌%◌, ◌^◌, ◌≤◌, ◌<◌, Bool, true, false, Option, none, some, [],
  ◌∷◌, ◌&&◌, Text, Bytes, str, ltb, leb, nat_eq, if◌then◌else◌, ℤ, pos, negsuc,
}
use fabric_chaincode_rs.Error.{Result, ok, err, ok_or, map_err, ◌>>=◌}
use fabric_chaincode_rs.Utf8.{into_bytes, from_utf8}
use fabric_chaincode_rs.Contract.Trim.{trim}

-- the integer types of line 142
pub data IntType : Type 0 where
  u8 u16 u32 u64 usize i8 i16 i32 i64 isize : IntType

-- the greatest value
unfoldable pub max_value : IntType → ℕ
max_value u8 = 2 ^ 8 - 1
max_value u16 = 2 ^ 16 - 1
max_value u32 = 2 ^ 32 - 1
max_value u64 = 2 ^ 64 - 1
max_value usize = 2 ^ 64 - 1
max_value i8 = 2 ^ 7 - 1
max_value i16 = 2 ^ 15 - 1
max_value i32 = 2 ^ 31 - 1
max_value i64 = 2 ^ 63 - 1
max_value isize = 2 ^ 63 - 1

unfoldable pub is_signed : IntType → Bool
is_signed i8 = true
is_signed i16 = true
is_signed i32 = true
is_signed i64 = true
is_signed isize = true
is_signed _ = false

-- `IntErrorKind`
pub data ParseIntError : Type 0 where
  empty invalid_digit pos_overflow neg_overflow : ParseIntError

-- its `Display`
unfoldable pub parse_error_text : ParseIntError → Text
parse_error_text empty = str "cannot parse integer from empty string"
parse_error_text invalid_digit = str "invalid digit found in string"
parse_error_text pos_overflow = str "number too large to fit in target type"
parse_error_text neg_overflow = str "number too small to fit in target type"

-- The digits of a number, behind `n`: the digit is looked at before the overflow.
unfoldable pub parse_digits : ℕ → ParseIntError → ℕ → Text → Result ℕ ParseIntError
parse_digits bound overflow n [] = ok n
parse_digits bound overflow n (c ∷ s) =
    let m = n * 10 + (c - 48) in
    let rest = parse_digits bound overflow m s in
    if leb 48 c && leb c 57 then (if ltb bound m then err overflow else rest) else err invalid_digit

-- a magnitude behind a minus sign
unfoldable pub negative : ℕ → ℤ
negative zero = pos 0
negative (suc n) = negsuc n

parse_negative : IntType → Text → Result ℤ ParseIntError
unfolding negative
parse_negative t s = do n ← parse_digits (max_value t + 1) neg_overflow 0 s; ok (negative n)

parse_positive : IntType → Text → Result ℤ ParseIntError
parse_positive t s = do n ← parse_digits (max_value t) pos_overflow 0 s; ok (pos n)

-- A sign alone is no number; only a signed type takes a minus.
unfoldable pub parse_int : IntType → Text → Result ℤ ParseIntError
unfolding parse_negative parse_positive
parse_int t [] = err empty
parse_int t (c ∷ []) =
    if nat_eq c b'+'
    then err invalid_digit
    else if nat_eq c b'-'
    then err invalid_digit
    else parse_positive t (c ∷ [])
parse_int t (c ∷ d ∷ s) =
    if nat_eq c b'+'
    then parse_positive t (d ∷ s)
    else if is_signed t && nat_eq c b'-'
    then parse_negative t (d ∷ s)
    else parse_positive t (c ∷ d ∷ s)

-- The digits of `n` before `out`; a round for each digit, and no more than the fuel.
unfoldable pub digits : ℕ → ℕ → Text → Text
digits zero n out = out
digits (suc fuel) n out =
    let more = digits fuel (n / 10) ((48 + n % 10) ∷ out) in
    if ltb n 10 then (48 + n) ∷ out else more

unfoldable pub decimal : ℕ → Text
decimal n = digits (suc n) n []

-- `to_string`
unfoldable pub int_text : ℤ → Text
int_text (pos n) = decimal n
int_text (negsuc n) = b'-' ∷ decimal (suc n)

unfoldable pub int_from_arg : (Bytes → Text) → IntType → Bytes → Result ℤ Text
int_from_arg utf8_error t raw = do
  s ← ok_or (from_utf8 raw) (utf8_error raw)
  map_err parse_error_text (parse_int t (trim s))

unfoldable pub int_into_payload : ℤ → Result Bytes Text
int_into_payload z = ok (into_bytes (int_text z))
