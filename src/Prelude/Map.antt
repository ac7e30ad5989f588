-- ===== src/Prelude/Map.antt =====
-- Maps as association lists: `HashMap` and `BTreeMap`, of which the program never uses the order.
use mathlib.Core.Path.{◌≡◌, refl}
use mathlib.Core.Logic.{◌≢◌}
use mathlib.Core.Bool.{Bool, true, false}
use mathlib.Core.List.{List, [], ◌∷◌}
use mathlib.Core.Option.{Option, none, some}
use native.Mathlib.Omega.{arith}
use fabric_chaincode_rs.Prelude.Tests.{if◌then◌else◌}
use fabric_chaincode_rs.Prelude.Equality.{Eq, ◌==◌, ==-refl, ==-false}

abbrev pub Map {ℓ} : Type ℓ → Type ℓ → Type ℓ
Map K V = List (K × V)

module _ {ℓ} {K V : Type ℓ} ⦃e : Eq K⦄ where
  unfoldable pub get : K → Map K V → Option V
  get k [] = none
  get k ((j, v) ∷ m) = if j == k then some v else get k m

  unfoldable pub remove : K → Map K V → Map K V
  remove k [] = []
  remove k ((j, v) ∷ m) = let rest = remove k m in if j == k then rest else (j, v) ∷ rest

  unfoldable pub insert : K → V → Map K V → Map K V
  unfolding remove
  insert k v m = (k, v) ∷ remove k m

  pub get-remove : (k j : K) (m : Map K V) → get j (remove k m) ≡ (if k == j then none else get j m)
  unfolding get remove
  get-remove k j [] = ground arith
  get-remove k j ((i, v) ∷ m) =
      ground (arith, get-remove k j m, e.same_iff i k, e.same_iff i j, e.same_iff k j)

  pub get-insert :
      (k j : K) (v : V) (m : Map K V) → get j (insert k v m) ≡ (if k == j then some v else get j m)
  unfolding get insert
  get-insert k j v m = ground (arith, get-remove k j m)

unfoldable pub contains_key {ℓ} : {K V : Type ℓ} ⦃e : Eq K⦄ → K → Map K V → Bool
contains_key k m = elim (get k m) [ none ↦ false | some v ↦ true ]

module _ {ℓ} {K V : Type ℓ} ⦃e : Eq K⦄ where
  pub get-remove_self : (k : K) (m : Map K V) → get k (remove k m) ≡ none
  get-remove_self k m = rw (get-remove k k m, ==-refl k) refl

  pub get-insert_self : (k : K) (v : V) (m : Map K V) → get k (insert k v m) ≡ some v
  get-insert_self k v m = rw (get-insert k k v m, ==-refl k) refl

  pub get-remove_ne : (k j : K) (m : Map K V) → k ≢ j → get j (remove k m) ≡ get j m
  get-remove_ne k j m h = rw (get-remove k j m, ==-false k j h) refl

  pub get-insert_ne : (k j : K) (v : V) (m : Map K V) → k ≢ j → get j (insert k v m) ≡ get j m
  get-insert_ne k j v m h = rw (get-insert k j v m, ==-false k j h) refl

  pub get-absent : (k : K) (m : Map K V) → contains_key k m ≡ false → get k m ≡ none
  unfolding contains_key
  get-absent k m h = ground arith

  pub contains_key_absent : (k : K) (m : Map K V) → get k m ≡ none → contains_key k m ≡ false
  unfolding contains_key
  contains_key_absent k m h = ground arith
