-- ===== src/Prelude/Equality.antt =====
-- Equality tests as an interface: numbers, lists (texts and byte strings among them) and pairs.
use Prim.Native.Nat.{ℕ}
use mathlib.Core.Path.{◌≡◌, refl}
use mathlib.Core.Logic.{◌↔◌, ◌≢◌}
use mathlib.Core.Bool.{Bool, true, false, ◌&&◌}
use mathlib.Core.List.{List, [], ◌∷◌}
use native.Mathlib.Omega.{arith}
use fabric_chaincode_rs.Prelude.Tests.{nat_eq}

pub record Eq {ℓ} (K : Type ℓ) : Type ℓ where
  -- the test, and that it decides equality
  pub same : K → K → Bool
  pub same_iff : (x y : K) → (same x y ≡ true) ↔ (x ≡ y)

module _ {ℓ} {K : Type ℓ} ⦃eq : Eq K⦄ where
  infix 50 ◌==◌
  abbrev pub ◌==◌ : K → K → Bool
  x == y = eq.same x y

pub nat_eq_iff : (a b : ℕ) → (nat_eq a b ≡ true) ↔ (a ≡ b)
nat_eq_iff a b = ground arith

instance abbrev pub nat_Eq : Eq ℕ
nat_Eq = record { same = nat_eq; same_iff = nat_eq_iff }

module _ {ℓ} {A : Type ℓ} ⦃e : Eq A⦄ where
  pub list_eq : List A → List A → Bool
  list_eq [] [] = true
  list_eq (x ∷ xs) (y ∷ ys) = x == y && list_eq xs ys
  list_eq _ _ = false

  pub list_eq_iff : (xs ys : List A) → (list_eq xs ys ≡ true) ↔ (xs ≡ ys)
  unfolding list_eq
  list_eq_iff [] [] = ground arith
  list_eq_iff [] (y ∷ ys) = ground arith
  list_eq_iff (x ∷ xs) [] = ground arith
  list_eq_iff (x ∷ xs) (y ∷ ys) = ground (arith, e.same_iff x y, list_eq_iff xs ys)

  instance unfoldable pub list_Eq : Eq (List A)
  unfolding list_eq
  list_Eq = record { same = list_eq; same_iff = list_eq_iff }

module _ {ℓ} {A B : Type ℓ} ⦃e : Eq A⦄ ⦃f : Eq B⦄ where
  pub pair_eq : A × B → A × B → Bool
  pair_eq (a, b) (c, d) = a == c && b == d

  pub pair_eq_iff : (p q : A × B) → (pair_eq p q ≡ true) ↔ (p ≡ q)
  unfolding pair_eq
  pair_eq_iff (a, b) (c, d) = ground (arith, e.same_iff a c, f.same_iff b d)

  instance unfoldable pub pair_Eq : Eq (A × B)
  unfolding pair_eq
  pair_Eq = record { same = pair_eq; same_iff = pair_eq_iff }

module _ {ℓ} {A : Type ℓ} ⦃e : Eq A⦄ where
  pub ==-refl : (a : A) → a == a ≡ true
  ==-refl a = (e.same_iff a a).1 refl

  pub ==-false : (a b : A) → a ≢ b → a == b ≡ false
  ==-false a b h = ground (arith, e.same_iff a b)
