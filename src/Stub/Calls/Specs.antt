-- ===== src/Stub/Calls/Specs.antt =====
-- The stub's calls as operations on the ledger's state.
use fabric_chaincode_rs.Prelude.{refl, some, [], ◌∷◌, Text, Bytes, str, is_empty, if◌then◌else◌}
use fabric_chaincode_rs.Error.{ok, err, invalid_argument}
use fabric_chaincode_rs.Session.{Env}
use fabric_chaincode_rs.Session.Ledger.{Ledger}
use fabric_chaincode_rs.Session.Refinement.{Spec, Refines}
use fabric_chaincode_rs.Stub.{ChaincodeStub}
use fabric_chaincode_rs.Stub.Calls.{get_state, put_state, del_state, set_event}
use fabric_chaincode_rs.Stub.Calls.World.{get_state-Ledger, put_state-Ledger, del_state-Ledger}

module _ {W : Type 0} (env : Env W) (stub : ChaincodeStub) (ledger : Ledger env stub.core) where
  abbrev pub get_spec : Text → Spec W Bytes
  get_spec key w e = (ok (ledger.read w [] key), w, e)

  abbrev pub put_spec : Text → Bytes → Spec W (Unit {0})
  put_spec key value w e =
      if is_empty key
      then (err (invalid_argument (str "key must not be empty")), w, e)
      else (ok tt, ledger.written w [] key value, e)

  abbrev pub del_spec : Text → Spec W (Unit {0})
  del_spec key w e = (ok tt, ledger.deleted w [] key, e)

  abbrev pub event_spec : Text → Bytes → Spec W (Unit {0})
  event_spec name payload w e =
      if is_empty name
      then (err (invalid_argument (str "event name must not be empty")), w, e)
      else (
        ok tt,
        w,
        some (record {
          chaincode_id = [];
          tx_id = stub.core.tx_id;
          event_name = name;
          payload = payload;
        }),
      )

  pub Refines-get : (key : Text) → Refines stub.core (get_state env stub key) (get_spec key)
  Refines-get key = record {
    at = λ s idle.
        let (s', e, st) = get_state-Ledger env stub ledger key s idle in
        rw e (record { result = refl; world = st.world; event = st.event; idle = st.idle });
  }

  pub Refines-put :
      (key : Text) (value : Bytes)
      → Refines stub.core (put_state env stub key value) (put_spec key value)
  unfolding put_state
  Refines-put [] value = record {
    at = λ s idle. record { result = refl; world = refl; event = refl; idle = idle };
  }
  Refines-put (c ∷ key) value = record {
    at = λ s idle.
        let (s', e, st) = put_state-Ledger env stub ledger (c ∷ key) value s refl idle in
        rw e (record { result = refl; world = st.world; event = st.event; idle = st.idle });
  }

  pub Refines-del : (key : Text) → Refines stub.core (del_state env stub key) (del_spec key)
  Refines-del key = record {
    at = λ s idle.
        let (s', e, st) = del_state-Ledger env stub ledger key s idle in
        rw e (record { result = refl; world = st.world; event = st.event; idle = st.idle });
  }

  pub Refines-event :
      (name : Text) (payload : Bytes)
      → Refines stub.core (set_event env stub name payload) (event_spec name payload)
  unfolding set_event
  Refines-event [] payload = record {
    at = λ s idle. record { result = refl; world = refl; event = refl; idle = idle };
  }
  Refines-event (c ∷ name) payload = record {
    at = λ s idle. record {
      result = refl;
      world = refl;
      event = refl;
      idle = record { free = idle.free; up = idle.up };
    };
  }
