-- ===== src/Contract/Numbers/RoundTrip.antt =====
-- What the parser of integers accepts, and what it makes of a printed integer.
use fabric_chaincode_rs.Prelude.{
  ℕ, zero, suc, ◌+◌, ◌-◌, ◌*◌, ◌/◌, ◌%◌, ◌≤◌, ◌<◌, ◌≡◌, ◌≢◌, refl, ap, ◌∙◌, true, [], ◌∷◌, Text,
  ltb, if◌then◌else◌, ℤ, pos, negsuc, All, arith, Bool-cases, inl, inr,
}
use fabric_chaincode_rs.Error.{ok, err}
use fabric_chaincode_rs.Contract.Numbers.{
  IntType, max_value, is_signed, ParseIntError, pos_overflow, neg_overflow, parse_digits, negative,
  parse_negative, parse_positive, parse_int, digits, decimal, int_text,
}

-- The integer is a value of the type.
abbrev pub InRange : IntType → ℤ → Type 0
InRange t (pos n) = n ≤ max_value t
InRange t (negsuc n) = (is_signed t ≡ true) × (n ≤ max_value t)

abbrev pub IsDigit : ℕ → Type 0
IsDigit c = (48 ≤ c) × (c ≤ 57)

-- the number that digits spell behind `n`
abbrev pub spelled : ℕ → Text → ℕ
spelled n [] = n
spelled n (c ∷ s) = spelled (n * 10 + (c - 48)) s

le-spelled : (n : ℕ) (s : Text) → n ≤ spelled n s
le-spelled n [] = omega arith
le-spelled n (c ∷ s) = omega (arith, le-spelled (n * 10 + (c - 48)) s)

-- Digits are read as the number that they spell, or refused if that number is above the bound.
pub parse_digits-spelled :
    (bound : ℕ) (e : ParseIntError) (n : ℕ) (s : Text)
    → All IsDigit s
    → n ≤ bound
    → parse_digits bound e n s ≡ (if ltb bound (spelled n s) then err e else ok (spelled n s))
unfolding parse_digits
parse_digits-spelled bound e n [] h le = ground arith
parse_digits-spelled bound e n (c ∷ s) h le =
    let m = n * 10 + (c - 48) in
    ground (arith, parse_digits-spelled bound e m s h.1, le-spelled m s)

digits-IsDigit : (fuel n : ℕ) (out : Text) → All IsDigit out → All IsDigit (digits fuel n out)
unfolding digits
digits-IsDigit zero n out h = h
digits-IsDigit (suc fuel) n out h = elim (Bool-cases (ltb n 10)) [
  | inl last ↦ rw last (ground arith, h)
  | inr more ↦ rw more (digits-IsDigit fuel (n / 10) ((48 + n % 10) ∷ out) (omega arith, h))
]

-- The printer has fuel enough: what it prints spells the number.
spelled-digits :
    (fuel n : ℕ) (out : Text) → n < fuel → spelled 0 (digits fuel n out) ≡ spelled n out
unfolding digits
spelled-digits zero n out h = elim h [ ]
spelled-digits (suc fuel) n out h = elim (Bool-cases (ltb n 10)) [
  | inl last ↦ rw last (ap (λ k. spelled k out) (omega arith))
  | inr more ↦ rw more (
      spelled-digits fuel (n / 10) ((48 + n % 10) ∷ out) (ground arith)
      ∙ ap (λ k. spelled k out) (omega arith))
]

-- One digit at least.
abbrev pub IsNumeral : Text → Type 0
IsNumeral [] = ⊥
IsNumeral (c ∷ s) = All IsDigit (c ∷ s)

ne-nil-IsNumeral : (s : Text) → s ≢ [] → All IsDigit s → IsNumeral s
ne-nil-IsNumeral [] n h = absurd (n refl)
ne-nil-IsNumeral (c ∷ s) n h = h

digits-ne-nil : (fuel n : ℕ) (out : Text) → out ≢ [] → digits fuel n out ≢ []
unfolding digits
digits-ne-nil zero n out h = h
digits-ne-nil (suc fuel) n out h = elim (Bool-cases (ltb n 10)) [
  | inl last ↦ rw last (λ e. cc e)
  | inr more ↦ rw more (digits-ne-nil fuel (n / 10) ((48 + n % 10) ∷ out) (λ e. cc e))
]

decimal-ne-nil : (n : ℕ) → decimal n ≢ []
unfolding decimal digits
decimal-ne-nil n = elim (Bool-cases (ltb n 10)) [
  | inl last ↦ rw last (λ e. cc e)
  | inr more ↦ rw more (digits-ne-nil n (n / 10) ((48 + n % 10) ∷ []) (λ e. cc e))
]

pub decimal-IsNumeral : (n : ℕ) → IsNumeral (decimal n)
decimal-IsNumeral n =
    ne-nil-IsNumeral (decimal n) (decimal-ne-nil n)
      (unfold decimal in digits-IsDigit (suc n) n [] tt)

spelled-decimal : (n : ℕ) → spelled 0 (decimal n) ≡ n
unfolding decimal
spelled-decimal n = spelled-digits (suc n) n [] (omega arith)

-- A printed number is a run of decimal digits, one at least, that spells the number: the rounds of the
-- printer are enough for every number.
pub decimal_lem : (n : ℕ) → IsNumeral (decimal n) × (spelled 0 (decimal n) ≡ n)
decimal_lem n = (decimal-IsNumeral n, spelled-decimal n)

module _ (t : IntType) where
  parse_int-IsNumeral : (s : Text) → IsNumeral s → parse_int t s ≡ parse_positive t s
  unfolding parse_int
  parse_int-IsNumeral [] h = absurd h
  parse_int-IsNumeral (c ∷ []) h = ground arith
  parse_int-IsNumeral (c ∷ d ∷ s) h = ground arith

  parse_int-minus :
      (s : Text) → is_signed t ≡ true → IsNumeral s → parse_int t (b'-' ∷ s) ≡ parse_negative t s
  unfolding parse_int
  parse_int-minus [] signed h = absurd h
  parse_int-minus (c ∷ s) signed h = rw signed refl

  parse_positive-IsNumeral :
      (s : Text)
      → IsNumeral s
      → parse_positive t s
        ≡ (if ltb (max_value t) (spelled 0 s) then err pos_overflow else ok (pos (spelled 0 s)))
  unfolding parse_positive
  parse_positive-IsNumeral [] h = absurd h
  parse_positive-IsNumeral (c ∷ s) h =
      ground (arith, parse_digits-spelled (max_value t) pos_overflow 0 (c ∷ s) h (omega arith))

  pub parse_int-numeral :
      (s : Text)
      → IsNumeral s
      → parse_int t s
        ≡ (if ltb (max_value t) (spelled 0 s) then err pos_overflow else ok (pos (spelled 0 s)))
  parse_int-numeral s h = parse_int-IsNumeral s h ∙ parse_positive-IsNumeral s h

  parse_negative-IsNumeral :
      (s : Text)
      → IsNumeral s
      → parse_negative t s ≡ (
          if ltb (max_value t + 1) (spelled 0 s)
          then err neg_overflow
          else ok (negative (spelled 0 s)))
  unfolding parse_negative
  parse_negative-IsNumeral [] h = absurd h
  parse_negative-IsNumeral (c ∷ s) h =
      ground (arith, parse_digits-spelled (max_value t + 1) neg_overflow 0 (c ∷ s) h (omega arith))

  pub parse_int-int_text : (z : ℤ) → InRange t z → parse_int t (int_text z) ≡ ok z
  unfolding int_text
  parse_int-int_text (pos n) h =
      parse_int-IsNumeral (decimal n) (decimal-IsNumeral n)
      ∙ parse_positive-IsNumeral (decimal n) (decimal-IsNumeral n)
      ∙ rw (spelled-decimal n) (ground arith)
  parse_int-int_text (negsuc n) h =
      parse_int-minus (decimal (suc n)) h.0 (decimal-IsNumeral (suc n))
      ∙ parse_negative-IsNumeral (decimal (suc n)) (decimal-IsNumeral (suc n))
      ∙ rw (spelled-decimal (suc n)) (unfold negative in ground arith)
