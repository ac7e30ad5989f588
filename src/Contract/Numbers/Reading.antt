-- ===== src/Contract/Numbers/Reading.antt =====
-- fabric-shim/src/contract.rs, lines 123-139: the conversions of integers, by the parser and the
-- printer of the integer types.
use fabric_chaincode_rs.Prelude.{
  ℕ, suc, ◌≡◌, refl, sym, append-nil, ap, ◌∙◌, false, [], ◌∷◌, ◌++◌, Text, Bytes, IsText, ltb,
  if◌then◌else◌, ℤ, pos, negsuc, All, arith,
}
use fabric_chaincode_rs.Error.{ok, err, map_err}
use fabric_chaincode_rs.Utf8.{into_bytes}
use fabric_chaincode_rs.Contract.Trim.{
  is_whitespace, IsBlank, IsWord, trim-padded, from_utf8-padded,
}
use fabric_chaincode_rs.Contract.Numbers.{
  IntType, max_value, pos_overflow, parse_int, decimal, int_text, int_from_arg, parse_error_text,
}
use fabric_chaincode_rs.Contract.Numbers.RoundTrip.{
  InRange, IsDigit, spelled, IsNumeral, decimal-IsNumeral, parse_int-numeral, parse_int-int_text,
}

digit-IsWord : (c : ℕ) → IsDigit c → is_whitespace c ≡ false
unfolding is_whitespace
digit-IsWord c h = ground arith

digits-IsBlank-free : (s : Text) → All IsDigit s → All (λ c. is_whitespace c ≡ false) s
digits-IsBlank-free [] h = tt
digits-IsBlank-free (c ∷ s) h = (digit-IsWord c h.0, digits-IsBlank-free s h.1)

digits-IsText : (s : Text) → All IsDigit s → IsText s
digits-IsText [] h = tt
digits-IsText (c ∷ s) h = (omega (arith, h.0), digits-IsText s h.1)

numeral-IsWord : (s : Text) → IsNumeral s → IsWord s
numeral-IsWord [] h = absurd h
numeral-IsWord (c ∷ s) h = digits-IsBlank-free (c ∷ s) h

numeral-IsText : (s : Text) → IsNumeral s → IsText s
numeral-IsText [] h = absurd h
numeral-IsText (c ∷ s) h = digits-IsText (c ∷ s) h

minus-IsWord : (s : Text) → IsWord s → IsWord (b'-' ∷ s)
unfolding is_whitespace
minus-IsWord [] h = absurd h
minus-IsWord (c ∷ s) h = (refl, h)

int_text-IsWord : (z : ℤ) → IsWord (int_text z)
unfolding int_text
int_text-IsWord (pos n) = numeral-IsWord (decimal n) (decimal-IsNumeral n)
int_text-IsWord (negsuc n) =
    minus-IsWord (decimal (suc n)) (numeral-IsWord (decimal (suc n)) (decimal-IsNumeral (suc n)))

int_text-IsText : (z : ℤ) → IsText (int_text z)
unfolding int_text
int_text-IsText (pos n) = numeral-IsText (decimal n) (decimal-IsNumeral n)
int_text-IsText (negsuc n) =
    (omega arith, numeral-IsText (decimal (suc n)) (decimal-IsNumeral (suc n)))

module _ (utf8_error : Bytes → Text) (t : IntType) where
  int_from_arg-word :
      (before word after : Text)
      → IsBlank before
      → IsWord word
      → IsText word
      → IsBlank after
      → int_from_arg utf8_error t (into_bytes (before ++ (word ++ after)))
        ≡ map_err parse_error_text (parse_int t word)
  unfolding int_from_arg
  int_from_arg-word before word after h w k b =
      rw (from_utf8-padded before word after h k b, trim-padded before word after h w b) refl

  -- The printed text of a value of the integer type is read back as that value, whatever white space
  -- stands around it.
  pub int_from_arg-padded :
      (before after : Text) (z : ℤ)
      → InRange t z
      → IsBlank before
      → IsBlank after
      → int_from_arg utf8_error t (into_bytes (before ++ (int_text z ++ after))) ≡ ok z
  int_from_arg-padded before after z r h k =
      int_from_arg-word before (int_text z) after h (int_text-IsWord z) (int_text-IsText z) k
      ∙ ap (map_err parse_error_text) (parse_int-int_text t z r)

  pub int_from_arg-int_text :
      (z : ℤ) → InRange t z → int_from_arg utf8_error t (into_bytes (int_text z)) ≡ ok z
  int_from_arg-int_text z r =
      ap (λ s. int_from_arg utf8_error t (into_bytes s)) (sym (append-nil (int_text z)))
      ∙ int_from_arg-padded [] [] z r tt tt

  -- A run of decimal digits is read as the number that it spells, or refused with the text of an
  -- overflow where that number is above the type's greatest value.
  pub int_from_arg-numeral :
      (before numeral after : Text)
      → IsNumeral numeral
      → IsBlank before
      → IsBlank after
      → int_from_arg utf8_error t (into_bytes (before ++ (numeral ++ after))) ≡ (
          if ltb (max_value t) (spelled 0 numeral)
          then err (parse_error_text pos_overflow)
          else ok (pos (spelled 0 numeral)))
  int_from_arg-numeral before s after n h k =
      int_from_arg-word before s after h (numeral-IsWord s n) (numeral-IsText s n) k
      ∙ ap (map_err parse_error_text) (parse_int-numeral t s n)
      ∙ ground arith
