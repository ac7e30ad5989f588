-- ===== src/Prelude/Lists.antt =====
-- Lists measured by native numbers, and the list functions of the standard library that the
-- program calls.
use Prim.Native.Nat.{ℕ, zero, suc, ◌+◌}
use mathlib.Core.Path.{◌≡◌, refl, ap}
use mathlib.Core.Bool.{Bool, true, false}
use mathlib.Core.List.{List, [], ◌∷◌, ◌++◌, map}
use mathlib.Core.Option.{Option, none, some}
use native.Mathlib.Omega.{arith}
use fabric_chaincode_rs.Prelude.Tests.{if◌then◌else◌}

module _ {ℓ} {A : Type ℓ} where
  abbrev pub length : List A → ℕ
  length [] = 0
  length (x ∷ xs) = suc (length xs)

  abbrev pub get_elem? : List A → ℕ → Option A
  get_elem? [] i = none
  get_elem? (x ∷ xs) zero = some x
  get_elem? (x ∷ xs) (suc i) = get_elem? xs i

  -- Vec::is_empty, str::is_empty
  abbrev pub is_empty : List A → Bool
  is_empty [] = true
  is_empty (x ∷ xs) = false

  abbrev pub head? : List A → Option A
  head? [] = none
  head? (x ∷ xs) = some x

  pub length-append : (xs ys : List A) → length (xs ++ ys) ≡ length xs + length ys
  length-append [] ys = omega arith
  length-append (x ∷ xs) ys = omega (arith, length-append xs ys)

-- A predicate on every element.
module _ {ℓ κ} {A : Type ℓ} (P : A → Type κ) where
  abbrev pub All : List A → Type κ
  All [] = Unit
  All (a ∷ as') = P a × All as'

  pub All-append : (front back : List A) → All front → All back → All (front ++ back)
  All-append [] back _ h = h
  All-append (a ∷ front) back (p, ps) h = (p, All-append front back ps h)

infixr 5 ◌∷∀◌
-- the proof of one more element, before those of the others
pub ◌∷∀◌ {ℓ κ} : {A : Type ℓ} {B : Type κ} → A → B → A × B
p ∷∀ ps = (p, ps)

-- What follows from the predicate holds of every element too.
pub All-map {ℓ κ μ} :
    {A : Type ℓ} {P : A → Type κ} {Q : A → Type μ}
    → ((a : A) → P a → Q a)
    → (as' : List A) → All P as'
    → All Q as'
All-map f [] h = tt
All-map f (a ∷ as') (p, ps) = (f a p, All-map f as' ps)

abbrev pub or_else {ℓ} : {A : Type ℓ} → Option A → A → A
or_else none d = d
or_else (some a) d = a

-- Iterator::filter with a Boolean test
unfoldable pub filter_by {ℓ} : {A : Type ℓ} → (A → Bool) → List A → List A
filter_by p [] = []
filter_by p (x ∷ xs) = let rest = filter_by p xs in if p x then x ∷ rest else rest

pub length-map {ℓ κ} :
    {A : Type ℓ} {B : Type κ} (f : A → B) (xs : List A) → length (map f xs) ≡ length xs
length-map f [] = refl
length-map f (x ∷ xs) = ap suc (length-map f xs)
