-- ===== src/GatewayBench/Calls.antt =====
-- scripts/gateway-bench/src/main.rs, lines 99-112 and 152-169: the ids of the assets that the benchmark
-- creates on one chaincode. The run's id and the chaincode's name are arguments of the tool.
use mathlib.Core.List.{append_cancel_left}
use fabric_chaincode_rs.Prelude.{
  ℕ, ◌≡◌, ◌≢◌, refl, ap, ◌∙◌, sym, [], ◌∷◌, ◌++◌, Text, str, All, arith,
}
use fabric_chaincode_rs.Contract.Numbers.{decimal}
use fabric_chaincode_rs.Contract.Numbers.RoundTrip.{IsDigit, IsNumeral, spelled, decimal_lem}

-- A call of CreateAsset: the `i`th of the calls made one at a time, or the `i`th of a task.
pub data CreateCall : Type 0 where
  sequential : ℕ → CreateCall
  concurrent : ℕ → ℕ → CreateCall

module _ (run_id chaincode : Text) where
  -- `format!("{run_id}-{cc}-seq-{i}")`
  sequential_id : ℕ → Text
  sequential_id i = run_id ++ (str "-" ++ (chaincode ++ (str "-seq-" ++ decimal i)))

  -- `format!("{run_id}-{cc}-c{t}-{i}")`
  concurrent_id : ℕ → ℕ → Text
  concurrent_id t i =
      run_id ++ (str "-" ++ (chaincode ++ (str "-c" ++ (decimal t ++ (str "-" ++ decimal i)))))

  unfoldable pub asset_id : CreateCall → Text
  unfolding sequential_id concurrent_id
  asset_id (sequential i) = sequential_id i
  asset_id (concurrent t i) = concurrent_id t i

numeral-digits : (s : Text) → IsNumeral s → All IsDigit s
numeral-digits [] h = absurd h
numeral-digits (c ∷ s) h = h

-- Digits end at the first dash.
dash_cancel :
    (a b x y : Text)
    → All IsDigit a
    → All IsDigit b
    → a ++ b'-' ∷ x ≡ b ++ b'-' ∷ y
    → (a ≡ b) × (x ≡ y)
dash_cancel [] [] x y h k e = (refl, cc e)
dash_cancel [] (d ∷ b) x y h k e = let same : b'-' ≡ d = cc e in absurd (omega (arith, same, k.0))
dash_cancel (c ∷ a) [] x y h k e = let same : c ≡ b'-' = cc e in absurd (omega (arith, same, h.0))
dash_cancel (c ∷ a) (d ∷ b) x y h k e =
    let (same, rest) = dash_cancel a b x y h.1 k.1 (cc e) in (cc (e, same), rest)

decimal-injective : (m n : ℕ) → decimal m ≡ decimal n → m ≡ n
decimal-injective m n e = sym (decimal_lem m).1 ∙ ap (spelled 0) e ∙ (decimal_lem n).1

-- the letter that tells the two kinds of calls apart
letter : Text → ℕ
letter (_ ∷ c ∷ _) = c
letter _ = 0

distinct : (c d : ℕ) → c ≡ 115 → d ≡ 99 → c ≢ d
distinct c d h k e = omega (arith, h, k, e)

module _ (run_id chaincode : Text) where
  -- what stands behind the run's id and the chaincode's name
  same_ends :
      (a b : Text)
      → run_id ++ (str "-" ++ (chaincode ++ a)) ≡ run_id ++ (str "-" ++ (chaincode ++ b))
      → a ≡ b
  same_ends a b e =
      append_cancel_left chaincode a b
        (append_cancel_left (str "-") _ _ (append_cancel_left run_id _ _ e))

  asset_id-injective :
      (a b : CreateCall) → asset_id run_id chaincode a ≡ asset_id run_id chaincode b → a ≡ b
  unfolding asset_id str letter
  asset_id-injective (sequential i) (sequential j) e =
      ap sequential (decimal-injective i j (append_cancel_left (str "-seq-") _ _ (same_ends _ _ e)))
  asset_id-injective (sequential i) (concurrent t j) e =
      absurd (distinct _ _ refl refl (ap letter (same_ends _ _ e)))
  asset_id-injective (concurrent t i) (sequential j) e =
      absurd (distinct _ _ refl refl (sym (ap letter (same_ends _ _ e))))
  asset_id-injective (concurrent t i) (concurrent u j) e =
      let (same, rest) =
        dash_cancel (decimal t) (decimal u) (decimal i) (decimal j)
          (numeral-digits _ (decimal_lem t).0) (numeral-digits _ (decimal_lem u).0)
          (append_cancel_left (str "-c") _ _ (same_ends _ _ e)) in
      cc (decimal-injective t u same, decimal-injective i j rest)

  -- In the benchmark's pass over one chaincode name of its list, two different calls of CreateAsset, made
  -- one at a time or by the concurrent tasks, ask for assets of different ids.
  pub asset_id-ne :
      (a b : CreateCall) → a ≢ b → asset_id run_id chaincode a ≢ asset_id run_id chaincode b
  asset_id-ne a b apart = λ e. apart (asset_id-injective a b e)
