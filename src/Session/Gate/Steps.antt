-- ===== src/Session/Gate/Steps.antt =====
-- One event at the gate, by where the call in the gate is.
use fabric_chaincode_rs.Prelude.{◌≡◌, refl, ap, ◌∙◌, List, ◌∷◌}
use fabric_chaincode_rs.Protos.Messages.{Timestamp}
use fabric_chaincode_rs.Handler.Link.{start_request}
use fabric_chaincode_rs.Session.{StubCore}
use fabric_chaincode_rs.Session.Gate.{
  Call, Holder, nobody, entered, Calls, Event, grant, start, take_call, granted, started, step,
  happen,
}

module _ (core : StubCore) where
  pub happen_at :
      (h : Holder) (e : Event) (s : Calls) → s.holder ≡ h → happen core e s ≡ step core h e s
  unfolding happen
  happen_at h e s holds = ap (λ x. step core x e s) holds

  pub grant-first :
      (c : Call) (cs : List Call) (s : Calls)
      → s.holder ≡ nobody
      → s.waiting ≡ c ∷ cs
      → happen core (grant 0) s ≡ record s { holder = entered c; waiting = cs }
  unfolding step
  grant-first c cs s gate queue =
      happen_at nobody (grant 0) s gate
      ∙ ap (λ w. granted (take_call 0 w) s) queue
      ∙ unfold granted take_call in refl

  pub start-entered :
      (now : Timestamp) (c : Call) (s : Calls)
      → s.holder ≡ entered c
      → happen core (start now) s
        ≡ started c
            (start_request now c.msg_type c.payload core.channel_id core.tx_id s.conn.link)
            s
  unfolding step
  start-entered now c s gate = happen_at (entered c) (start now) s gate
