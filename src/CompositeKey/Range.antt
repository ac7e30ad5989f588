-- ===== src/CompositeKey/Range.antt =====
-- The range that `get_state_by_partial_composite_key` asks for (fabric-shim/src/stub.rs, lines
-- 253-261), and the composite keys that lie in it.
use fabric_chaincode_rs.Prelude.{
  ◌≡◌, ◌<◌, refl, ap, ◌∙◌, List, [], ◌∷◌, ◌++◌, Bool, true, false, ◌&&◌, not, Text, ltb, ◌==◌, Eq,
  nat_Eq, list_Eq, if◌then◌else◌, All, All-append, IsText, arith,
}
use fabric_chaincode_rs.Error.{Error, Result, ok, ◌>>=◌, >>=-eq-ok}
use fabric_chaincode_rs.CompositeKey.{
  composite_key_namespace, max_unicode_rune, contains, create_composite_key,
}
use fabric_chaincode_rs.CompositeKey.RoundTrip.{
  IsComponent, joined, composite, create-IsComponent, create-eq_composite,
}

-- `prefix` and `end`
unfoldable pub partial_range : (Text → Text) → Text → List Text → Result (Text × Text) Error
partial_range debug_str object_type attributes = do
  prefix ← create_composite_key debug_str object_type attributes
  ok (prefix, prefix ++ max_unicode_rune ∷ [])

-- The order of keys: by code points, which is the order of their UTF-8 bytes.
unfoldable pub text_lt : Text → Text → Bool
text_lt s [] = false
text_lt [] (y ∷ t) = true
text_lt (x ∷ s) (y ∷ t) = if x == y then text_lt s t else ltb x y

-- `[start_key, end_key)`
unfoldable pub in_range : Text → Text → Text → Bool
unfolding text_lt
in_range start end k = not (text_lt k start) && text_lt k end

module _ {ℓ} {A : Type ℓ} ⦃e : Eq A⦄ where
  unfoldable pub starts_with : List A → List A → Bool
  starts_with [] ys = true
  starts_with (x ∷ xs) [] = false
  starts_with (x ∷ xs) (y ∷ ys) = x == y && starts_with xs ys

-- Among keys without U+10FFFF the range holds those that begin with the prefix, and no other.
pub in_range-starts_with :
    (p k : Text)
    → All (λ c. c < max_unicode_rune) k
    → in_range p (p ++ max_unicode_rune ∷ []) k ≡ starts_with p k
unfolding in_range starts_with
in_range-starts_with [] [] h = refl
in_range-starts_with [] (x ∷ k) h = ground arith
in_range-starts_with (y ∷ p) [] h = refl
in_range-starts_with (y ∷ p) (x ∷ k) h = ground (arith, in_range-starts_with p k h.1)

starts_with-component :
    (a b r s : Text)
    → contains composite_key_namespace a ≡ false
    → contains composite_key_namespace b ≡ false
    → starts_with (a ++ composite_key_namespace ∷ r) (b ++ composite_key_namespace ∷ s)
      ≡ (a == b && starts_with r s)
unfolding starts_with contains list_Eq
starts_with-component [] [] r s h k = refl
starts_with-component [] (y ∷ b) r s h k = ground arith
starts_with-component (x ∷ a) [] r s h k = ground arith
starts_with-component (x ∷ a) (y ∷ b) r s h k = ground (arith, starts_with-component a b r s)

starts_with_nil : (a r : Text) → starts_with (a ++ composite_key_namespace ∷ r) [] ≡ false
unfolding starts_with
starts_with_nil [] r = refl
starts_with_nil (x ∷ a) r = refl

starts_with-joined :
    (as' bs : List Text)
    → All IsComponent as'
    → All IsComponent bs
    → starts_with (joined as') (joined bs) ≡ starts_with as' bs
unfolding joined starts_with
starts_with-joined [] bs h k = refl
starts_with-joined (a ∷ as') [] h k = starts_with_nil a (joined as')
starts_with-joined (a ∷ as') (b ∷ bs) h k =
    rw (starts_with-component a b (joined as') (joined bs) h.0.no_separator k.0.no_separator)
      (ap (λ (r : Bool). a == b && r) (starts_with-joined as' bs h.1 k.1))

below_max :
    (s : Text) → IsText s → contains max_unicode_rune s ≡ false → All (λ c. c < max_unicode_rune) s
unfolding contains
below_max [] h n = tt
below_max (x ∷ s) h n = (ground (arith, h.0), below_max s h.1 (ground arith))

joined-below_max :
    (cs : List Text)
    → All IsText cs
    → All IsComponent cs
    → All (λ c. c < max_unicode_rune) (joined cs)
unfolding joined
joined-below_max [] h k = tt
joined-below_max (c ∷ cs) h k =
    All-append (λ c. c < max_unicode_rune) c (composite_key_namespace ∷ joined cs)
      (below_max c h.0 k.0.no_max_rune) (omega arith, joined-below_max cs h.1 k.1)

in_range-composite :
    (t t' : Text) (attrs attrs' : List Text)
    → All IsText (t' ∷ attrs')
    → All IsComponent (t ∷ attrs)
    → All IsComponent (t' ∷ attrs')
    → in_range
        (composite t attrs)
        (composite t attrs ++ max_unicode_rune ∷ [])
        (composite t' attrs')
      ≡ (t == t' && starts_with attrs attrs')
in_range-composite t t' attrs attrs' texts h k =
    in_range-starts_with (composite t attrs) (composite t' attrs')
      (unfold composite in (omega arith, joined-below_max (t' ∷ attrs') texts k))
    ∙ unfold composite starts_with in starts_with-joined (t ∷ attrs) (t' ∷ attrs') h k

-- Of the keys that `create_composite_key` builds, the range of a partial key holds exactly those of
-- the same object type whose attributes begin with the attributes given.
pub partial_range-create :
    (debug_str : Text → Text) (t t' : Text) (attrs attrs' : List Text) {start end k : Text}
    → All IsText (t' ∷ attrs')
    → partial_range debug_str t attrs ≡ ok (start, end)
    → create_composite_key debug_str t' attrs' ≡ ok k
    → in_range start end k ≡ (t == t' && starts_with attrs attrs')
unfolding partial_range
partial_range-create debug_str t t' attrs attrs' {start} {end} {k} texts p q =
    let (prefix, made, e) = >>=-eq-ok _ (create_composite_key debug_str t attrs) p in
    let start_eq : start ≡ composite t attrs = cc (create-eq_composite debug_str t attrs made) in
    let end_eq : end ≡ composite t attrs ++ max_unicode_rune ∷ [] =
      cc (create-eq_composite debug_str t attrs made) in
    rw (start_eq, end_eq, create-eq_composite debug_str t' attrs' q)
      (in_range-composite t t' attrs attrs' texts (create-IsComponent debug_str t attrs made)
        (create-IsComponent debug_str t' attrs' q))
