-- ===== src/Stub/Calls/Partial.antt =====
-- A query by a partial composite key, from the key to the records that are read.
use fabric_chaincode_rs.Prelude.{
  ◌≡◌, refl, ap, ◌∙◌, ℕ, Bool, ◌&&◌, List, [], ◌∷◌, ◌++◌, map, Text, IsText, All, ◌==◌, list_Eq,
  nat_Eq, filter_by,
}
use fabric_chaincode_rs.Error.{ok}
use fabric_chaincode_rs.CompositeKey.{create_composite_key, max_unicode_rune}
use fabric_chaincode_rs.CompositeKey.Range.{
  in_range, starts_with, partial_range, partial_range-create,
}
use fabric_chaincode_rs.Protos.Messages.{Kv}
use fabric_chaincode_rs.Session.{Env, Session, done}
use fabric_chaincode_rs.Session.Requests.{IsIdle, Stays}
use fabric_chaincode_rs.Iterators.{QueryIter, collect_remaining}
use fabric_chaincode_rs.Stub.{ChaincodeStub}
use fabric_chaincode_rs.Stub.Calls.{get_state_by_partial_composite_key}
use fabric_chaincode_rs.Stub.Calls.Scan.{Scans, range-Scans}

filter_by_ext :
    {A : Type 0} (p q : A → Bool) (xs : List A)
    → All (λ x. p x ≡ q x) xs
    → filter_by p xs ≡ filter_by q xs
unfolding filter_by
filter_by_ext p q [] h = refl
filter_by_ext p q (x ∷ xs) h = rw (h.0, filter_by_ext p q xs h.1) refl

-- A record under the composite key of an object type and attributes.
pub record Entry : Type 0 where
  pub object_type : Text
  pub attributes : List Text
  pub kv : Kv

pub record IsEntry (debug_str : Text → Text) (e : Entry) : Type 0 where
  pub texts : All IsText (e.object_type ∷ e.attributes)
  pub key : create_composite_key debug_str e.object_type e.attributes ≡ ok e.kv.key

-- The records of a range, and those of an object type whose attributes begin with the ones given.
abbrev pub in_the_range : Text → Text → List Entry → List Kv
in_the_range start_key end_key es =
    map (λ e. e.kv) (filter_by (λ e. in_range start_key end_key e.kv.key) es)

abbrev pub under : Text → List Text → List Entry → List Kv
under t attrs es =
    map (λ e. e.kv) (filter_by (λ e. t == e.object_type && starts_with attrs e.attributes) es)

module _ {W : Type 0} (env : Env W) (stub : ChaincodeStub) (fuel : ℕ) where
  matching :
      (t : Text) (attrs : List Text) (prefix : Text) (es : List Entry)
      → create_composite_key env.debug_str t attrs ≡ ok prefix
      → All (IsEntry env.debug_str) es
      → All
          (λ e.
            in_range prefix (prefix ++ max_unicode_rune ∷ []) e.kv.key
            ≡ (t == e.object_type && starts_with attrs e.attributes))
          es
  unfolding partial_range
  matching t attrs prefix [] made h = tt
  matching t attrs prefix (e ∷ es) made h = (
    partial_range-create env.debug_str t e.object_type attrs e.attributes h.0.texts (rw made refl)
        h.0.key,
    matching t attrs prefix es made h.1,
  )

  -- If the object type and the attributes make a key and the transaction has no request in flight, and
  -- the peer, of a state whose keys are composite ones, serves the records whose keys lie in the range
  -- that it is asked for, then the query by this partial key, read to its end with fuel for each record
  -- and each batch, gives exactly the records of this object type whose attributes begin with the ones
  -- given, in order; the transaction has no request in flight, and its event slot is as it was.
  pub partial_query-under :
      (t : Text) (attrs : List Text) (prefix : Text) (es : List Entry) (s : Session W) (w' : W)
      → create_composite_key env.debug_str t attrs ≡ ok prefix
      → All (IsEntry env.debug_str) es
      → IsIdle stub.core s
      → Scans env stub fuel prefix
          (prefix ++ max_unicode_rune ∷ [])
          s.world
          (in_the_range prefix (prefix ++ max_unicode_rune ∷ []) es)
          w'
      → (it : QueryIter) × (s1 s' : Session W) × (get_state_by_partial_composite_key env stub t
            attrs s
          ≡ (done (ok it), s1))
        × (collect_remaining env fuel it s1 ≡ (done (ok (under t attrs es)), s'))
        × Stays stub.core s s' w'
  unfolding get_state_by_partial_composite_key
  partial_query-under t attrs prefix es s w' made stored idle scan =
      let (it, s1, s', opened, read, st) =
        range-Scans env stub fuel prefix (prefix ++ max_unicode_rune ∷ []) s _ w' idle scan in
      let same =
        ap (λ l. map (λ e. e.kv) l)
          (filter_by_ext _ _ es (matching t attrs prefix es made stored)) in
      (it, s1, s', rw (made, opened) refl, read ∙ ap (λ (l : List Kv). (done (ok l), s')) same, st)
