-- ===== src/CompositeKey/RoundTrip.antt =====
-- What `create_composite_key` accepts and what it builds.
use fabric_chaincode_rs.Prelude.{
  ◌≡◌, refl, inl, inr, List, [], ◌∷◌, ◌++◌, false, not, Text, is_empty, filter_by, nat_Eq, All,
  arith, append_assoc, append-nil, ◌⊎◌,
}
use fabric_chaincode_rs.Error.{result_cases, Error, ok, err}
use fabric_chaincode_rs.CompositeKey.{
  composite_key_namespace, max_unicode_rune, contains, split, validate_composite_component,
  push_attributes, create_composite_key, split_composite_key,
}

-- What a component must be: not empty, and free of the two reserved characters.
pub record IsComponent (s : Text) : Type 0 where
  pub nonempty : is_empty s ≡ false
  pub no_separator : contains composite_key_namespace s ≡ false
  pub no_max_rune : contains max_unicode_rune s ≡ false

-- The attributes behind the object type, each closed by a separator.
unfoldable pub joined : List Text → Text
joined [] = []
joined (a ∷ as') = a ++ composite_key_namespace ∷ joined as'

-- `\x00{object_type}\x00{attr1}\x00{attr2}\x00...`
unfoldable pub composite : Text → List Text → Text
unfolding joined
composite t attrs = composite_key_namespace ∷ joined (t ∷ attrs)

module _ (debug_str : Text → Text) where
  validate-ok : (s : Text) → validate_composite_component debug_str s ≡ ok tt → IsComponent s
  unfolding validate_composite_component
  validate-ok s h = ground arith

  ok-validate : (s : Text) → IsComponent s → validate_composite_component debug_str s ≡ ok tt
  unfolding validate_composite_component
  ok-validate s h = ground arith

  validate_cases :
      (s : Text)
      → (validate_composite_component debug_str s ≡ ok tt)
        ⊎ ((e : Error) × (validate_composite_component debug_str s ≡ err e))
  validate_cases s = elim (result_cases (validate_composite_component debug_str s)) [
    | inl (a, e) ↦ inl e
    | inr p ↦ inr p
  ]

  push_attributes-ok :
      (key : Text) (attrs : List Text)
      → All IsComponent attrs
      → push_attributes debug_str key attrs ≡ ok (key ++ joined attrs)
  unfolding push_attributes joined
  push_attributes-ok key [] h = rw append-nil refl
  push_attributes-ok key (a ∷ as') h = rw (ok-validate a h.0) (
      rw (push_attributes-ok (key ++ a ++ composite_key_namespace ∷ []) as' h.1)
        (simp append_assoc))

  ok-push_attributes :
      (key : Text) (attrs : List Text) {k : Text}
      → push_attributes debug_str key attrs ≡ ok k
      → All IsComponent attrs
  unfolding push_attributes
  ok-push_attributes key [] h = tt
  ok-push_attributes key (a ∷ as') h = elim (validate_cases a) [
    | inl valid ↦ (
      validate-ok a valid,
      ok-push_attributes (key ++ a ++ composite_key_namespace ∷ []) as' (rw valid at h),
    )
    | inr (e, refused) ↦ absurd (cc (rw refused at h))
  ]

  -- A valid object type with valid attributes is accepted, and the key is the components, each
  -- closed by U+0000, behind one U+0000.
  pub create-composite :
      (t : Text) (attrs : List Text)
      → All IsComponent (t ∷ attrs)
      → create_composite_key debug_str t attrs ≡ ok (composite t attrs)
  unfolding create_composite_key composite joined
  create-composite t attrs h = rw (ok-validate t h.0) (
      rw
        (push_attributes-ok (composite_key_namespace ∷ (t ++ composite_key_namespace ∷ [])) attrs
          h.1)
        (simp append_assoc))

  -- Whatever is accepted has valid components only.
  pub create-IsComponent :
      (t : Text) (attrs : List Text) {k : Text}
      → create_composite_key debug_str t attrs ≡ ok k
      → All IsComponent (t ∷ attrs)
  unfolding create_composite_key
  create-IsComponent t attrs h = elim (validate_cases t) [
    | inl valid ↦ (
      validate-ok t valid,
      ok-push_attributes (composite_key_namespace ∷ (t ++ composite_key_namespace ∷ [])) attrs
          (rw valid at h),
    )
    | inr (e, refused) ↦ absurd (cc (rw refused at h))
  ]

  pub create-eq_composite :
      (t : Text) (attrs : List Text) {k : Text}
      → create_composite_key debug_str t attrs ≡ ok k
      → k ≡ composite t attrs
  create-eq_composite t attrs h = cc (create-composite t attrs (create-IsComponent t attrs h))

split-component :
    (a r : Text)
    → contains composite_key_namespace a ≡ false
    → split composite_key_namespace (a ++ composite_key_namespace ∷ r)
      ≡ a ∷ split composite_key_namespace r
unfolding split contains
split-component [] r h = refl
split-component (x ∷ a) r h = ground (arith, split-component a r)

filter-split :
    (cs : List Text)
    → All IsComponent cs
    → filter_by (λ p. not (is_empty p)) (split composite_key_namespace (joined cs)) ≡ cs
unfolding split joined filter_by
filter-split [] h = refl
filter-split (c ∷ cs) h =
    rw (split-component c (joined cs) h.0.no_separator) (ground (arith, h.0, filter-split cs h.1))

pub split-composite :
    (t : Text) (attrs : List Text)
    → All IsComponent (t ∷ attrs)
    → split_composite_key (composite t attrs) ≡ ok (t, attrs)
unfolding split_composite_key composite
split-composite t attrs h = rw (filter-split (t ∷ attrs) h)

-- A key that `create_composite_key` accepts is split back into the same object type and the same
-- attributes.
pub split-create :
    (debug_str : Text → Text) (t : Text) (attrs : List Text) {k : Text}
    → create_composite_key debug_str t attrs ≡ ok k
    → split_composite_key k ≡ ok (t, attrs)
split-create debug_str t attrs h =
    rw (create-eq_composite debug_str t attrs h)
      (split-composite t attrs (create-IsComponent debug_str t attrs h))
