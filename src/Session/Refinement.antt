-- ===== src/Session/Refinement.antt =====
-- Actions against their specifications: a specification is a function of the peer's state and the
-- event slot, and an action refines it if, run in an idle session, it returns the specified result
-- and leaves an idle session with the specified state and event.
use mathlib.Core.Path.{subst}
use fabric_chaincode_rs.Prelude.{◌≡◌, refl, Bool, true, false, Option, if◌then◌else◌}
use fabric_chaincode_rs.Error.{Error, Result, ok, err}
use fabric_chaincode_rs.Protos.Messages.{ChaincodeEvent}
use fabric_chaincode_rs.Session.{Session, StubCore, Outcome, done, Exec, lift, continue, ◌>>=◌}
use fabric_chaincode_rs.Session.Requests.{IsIdle}

abbrev pub Spec : Type 0 → Type 0 → Type 0
Spec W A = W → Option ChaincodeEvent → Result A Error × W × Option ChaincodeEvent

module _ {W A B : Type 0} where
  abbrev then_spec :
      Result A Error × W × Option ChaincodeEvent
      → (A → Spec W B)
      → Result B Error × W × Option ChaincodeEvent
  then_spec (ok a, w, e) g = g a w e
  then_spec (err x, w, e) g = (err x, w, e)

  abbrev pub bind_spec : Spec W A → (A → Spec W B) → Spec W B
  bind_spec p g w e = then_spec (p w e) g

module _ {W : Type 0} (core : StubCore) where
  -- the outcome of a run meets a specified one
  pub record Meets {A : Type 0} (out : Outcome A × Session W)
      (spec : Result A Error × W × Option ChaincodeEvent) : Type 0 where
    pub result : out.0 ≡ done (spec.0)
    pub world : out.1.world ≡ spec.1
    pub event : out.1.event ≡ spec.2
    pub idle : IsIdle core out.1

  pub record Refines {A : Type 0} (m : Exec W A) (p : Spec W A) : Type 0 where
    pub at : (s : Session W) → IsIdle core s → Meets (m s) (p s.world s.event)

  module _ {A : Type 0} where
    pub Refines-lift : (r : Result A Error) → Refines (lift r) (λ w e. (r, w, e))
    Refines-lift r = record {
      at = λ s idle. record { result = refl; world = refl; event = refl; idle = idle };
    }

    pub Refines-eq :
        (m : Exec W A) (p q : Spec W A)
        → ((w : W) (e : Option ChaincodeEvent) → p w e ≡ q w e)
        → Refines m p
        → Refines m q
    Refines-eq m p q h r = record {
      at = λ s idle. subst (Meets (m s)) (h s.world s.event) (r.at s idle);
    }

    pub Refines-if :
        (b : Bool) (m n : Exec W A) (p q : Spec W A)
        → Refines m p
        → Refines n q
        → Refines (if b then m else n) (if b then p else q)
    Refines-if true m n p q h k = h
    Refines-if false m n p q h k = k

  module _ {A B : Type 0} where
    Meets-continue :
        (out : Outcome A × Session W) (spec : Result A Error × W × Option ChaincodeEvent)
        (f : A → Exec W B) (g : A → Spec W B)
        → Meets out spec
        → ((a : A) → Refines (f a) (g a))
        → Meets (continue out.0 f out.1) (then_spec spec g)
    Meets-continue (o, s) (ok a, w, e) f g h k =
        rw (h.result) (rw (← h.world, ← h.event) ((k a).at s h.idle))
    Meets-continue (o, s) (err x, w, e) f g h k =
        rw (h.result) (record { result = refl; world = h.world; event = h.event; idle = h.idle })

    pub Refines-bind :
        (m : Exec W A) (p : Spec W A) (f : A → Exec W B) (g : A → Spec W B)
        → Refines m p
        → ((a : A) → Refines (f a) (g a))
        → Refines (m >>= f) (bind_spec p g)
    Refines-bind m p f g h k = record {
      at = λ s idle. Meets-continue (m s) (p s.world s.event) f g (h.at s idle) k;
    }
