-- ===== src/Server/Pipeline.antt =====
-- internal/server/pipeline.go: what the pipeline's goroutine does with each event, over any store
-- of alerts. The event is the one that `Normalize` gives. The requests are kept in a `Ring`.
pub mod Invariant
use sentinel_api.Base.{ℕ, suc, String, Bool, true, false, Option, none, some, List, [], ◌∷◌, Map}
use sentinel_api.Event.{NormalizedEvent}
use sentinel_api.Detect.Rule.{Rule}
use sentinel_api.Detect.Engine.{Engine as Detector, Emitter, process, new_engine as new_detector}
use sentinel_api.Alerts.Store.{Store}
use sentinel_api.Alerts.Service.{ingest}
use sentinel_api.Edge.{Kind, Policy, eval, Engine as Gate, new_engine as new_gate}
use sentinel_api.Requests.Ring.{Ring, append, new_ring}
use sentinel_api.Requests.Hub.{Hub, new_hub, publish}

-- An event with the clock reading of the edge, and with the id and the time that the service draws
-- if the event makes a rule fire: each rule fires at most once for an event.
pub record Arrival : Type 0 where
  pub ev : NormalizedEvent
  pub now : ℕ
  pub draw : Rule → String × ℕ

module _ (St : Store) where
  open St use {State}

  -- The service's emitter.
  emitter : (Rule → String × ℕ) → Emitter (Option State)
  emitter draw r evs o none = none
  emitter draw r evs o (some s) = ingest St (draw r).0 (draw r).1 r evs o s

  -- The engine sees an event only if the edge lets it pass.
  detect : Arrival → Bool → NormalizedEvent → Detector × Option State → Detector × Option State
  unfolding emitter
  detect a true ev (d, s) = (d, s)
  detect a false ev (d, s) = process d ev (some (emitter a.draw)) s

  module _ (visit : Kind → Map Policy → List Policy) where
    -- `alerts` is `none` after the panic of an empty batch.
    pub record Pipeline : Type 0 where
      pub gate : Gate
      pub detector : Detector
      pub alerts : Option State
      pub ring : Ring
      pub hub : Hub
      pub events : ℕ

    unfoldable pub new_pipeline : State → Pipeline
    new_pipeline s = record {
      gate = new_gate;
      detector = new_detector;
      alerts = some s;
      ring = new_ring 4096;
      hub = new_hub;
      events = 0;
    }

    unfoldable pub receive : Arrival → Pipeline → Pipeline
    unfolding detect
    receive a p =
        let (blocked, ev, g) = eval visit a.now a.ev p.gate in
        let (d, s) = detect a blocked ev (p.detector, p.alerts) in
        record {
          gate = g;
          detector = d;
          alerts = s;
          ring = append ev p.ring;
          hub = publish ev p.hub;
          events = suc p.events;
        }

    unfoldable pub receive_all : List Arrival → Pipeline → Pipeline
    receive_all [] p = p
    receive_all (a ∷ rest) p = receive_all rest (receive a p)

    -- The events as the edge passes them on.
    unfoldable pub passed : List Arrival → Pipeline → List NormalizedEvent
    passed [] p = []
    passed (a ∷ rest) p = (eval visit a.now a.ev p.gate).1 ∷ passed rest (receive a p)
