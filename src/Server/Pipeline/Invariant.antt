-- ===== src/Server/Pipeline/Invariant.antt =====
-- internal/server/pipeline.go: what holds of all parts after any events.
use sentinel_api.Base.{
  ℕ, String, Bool, true, false, Option, none, some, List, [], ◌∷◌, ◌++◌, ◌≡◌, refl, ap, arith, Map,
  All, length, length-append, take_last,
}
use mathlib.Core.List.{append_assoc, append-nil}
use sentinel_api.Event.{NormalizedEvent}
use sentinel_api.Detect.Rule.{Rule, Outcome}
use sentinel_api.Detect.Engine.{Engine as Detector}
use sentinel_api.Detect.Windows.{IsBatch}
use sentinel_api.Detect.Batches.{IsConsistent, new_engine-IsConsistent, process_keeps}
use sentinel_api.Alerts.Store.{Store, Laws}
use sentinel_api.Alerts.Service.{ingest}
use sentinel_api.Alerts.Soundness.{IsSound}
use sentinel_api.Alerts.Effects.{IsDeduplicated}
use sentinel_api.Alerts.History.{
  ingests, Failure, run, step, or_same, run-IsValid, run-IsSound, run-IsDeduplicated,
}
use sentinel_api.Edge.{Kind, Policy, eval, new_engine as new_gate}
use sentinel_api.Edge.Counters.{IsBalanced, eval-counts}
use sentinel_api.Requests.Ring.{append, new_ring}
use sentinel_api.Requests.Ring.Refine.{append_all, append_all-Holds, new_ring-Holds}
use sentinel_api.Requests.Ring.Holds.{Holds}
use sentinel_api.Requests.Hub.{new_hub, publish_lem, IsValid as IsBounded}
use sentinel_api.Server.Pipeline.{
  Arrival, Pipeline, new_pipeline, emitter, detect, receive, receive_all, passed,
}

module _ (St : Store) (L : Laws St) where
  open St use {State}
  open L use {IsValid, contents}

  -- The alerts of a pipeline that has not panicked: every one sound, no two active for one key.
  abbrev pub IsHealthy : Option State → Type 0
  IsHealthy none = ⊥
  IsHealthy (some s) = IsValid s × All IsSound (contents s) × IsDeduplicated (contents s)

  emitter-IsHealthy :
      (draw : Rule → String × ℕ) (ev : NormalizedEvent)
      → ¬ (Failure St L)
      → (r : Rule) (evs : List NormalizedEvent) (o : Outcome) (s : Option State)
      → IsBatch ev r evs o
      → IsHealthy s
      → IsHealthy (emitter St draw r evs o s)
  unfolding emitter ingest run step or_same
  emitter-IsHealthy draw ev n r evs o none b h = h
  emitter-IsHealthy draw ev n r [] o (some s) b h =
      let (older, e) = b.newest in
      absurd (omega (arith, length-append older (ev ∷ []), ap length e))
  emitter-IsHealthy draw ev n r (first ∷ rest) o (some s) b h =
      let cs = ingests (draw r).0 (draw r).1 r first rest o ∷ [] in
      (
        run-IsValid St L cs s h.0,
        run-IsSound St L cs s h.0 h.1,
        run-IsDeduplicated St L cs s n h.0 h.2,
      )

  module _ (visit : Kind → Map Policy → List Policy) where
    -- The parts of a pipeline that has passed the events on.
    pub record Healthy (past : List NormalizedEvent) (p : Pipeline St visit) : Type 0 where
      pub balanced : IsBalanced p.gate
      pub consistent : IsConsistent p.detector
      pub healthy : IsHealthy p.alerts
      pub kept : Holds p.ring (take_last p.ring.cap past)
      pub fanned : IsBounded p.hub
      pub counted : p.events ≡ length past

    detect-Healthy :
        ¬ (Failure St L)
        → (a : Arrival) (b : Bool) (ev : NormalizedEvent) (d : Detector) (s : Option State)
        → IsConsistent d
        → IsHealthy s
        → (let (d', s') = detect St a b ev (d, s) in IsConsistent d' × IsHealthy s')
    unfolding detect
    detect-Healthy n a true ev d s c h = (c, h)
    detect-Healthy n a false ev d s c h =
        process_keeps IsHealthy (emitter St a.draw) d ev s (emitter-IsHealthy a.draw ev n) c h

    receive-Healthy :
        ¬ (Failure St L)
        → (a : Arrival) (past : List NormalizedEvent) (p : Pipeline St visit) → Healthy past p
        → Healthy (past ++ (eval visit a.now a.ev p.gate).1 ∷ []) (receive St visit a p)
    unfolding receive append append_all
    receive-Healthy n a past p h =
        let (blocked, ev, g) = eval visit a.now a.ev p.gate in
        let found = detect-Healthy n a blocked ev p.detector p.alerts h.consistent h.healthy in
        record {
          balanced = (eval-counts visit a.now a.ev p.gate h.balanced).0;
          consistent = found.0;
          healthy = found.1;
          kept = append_all-Holds (ev ∷ []) p.ring past h.kept;
          fanned = (publish_lem ev p.hub h.fanned).1;
          counted = omega (arith, h.counted, length-append past (ev ∷ []));
        }

    receive_all-Healthy :
        ¬ (Failure St L)
        → (arrivals : List Arrival) (past : List NormalizedEvent) (p : Pipeline St visit)
        → Healthy past p
        → Healthy (past ++ passed St visit arrivals p) (receive_all St visit arrivals p)
    unfolding receive_all passed
    receive_all-Healthy n [] past p h = rw append-nil h
    receive_all-Healthy n (a ∷ rest) past p h =
        rw
          (← append_assoc past ((eval visit a.now a.ev p.gate).1 ∷ [])
            (passed St visit rest (receive St visit a p)))
          (receive_all-Healthy n rest _ _ (receive-Healthy n a past p h))

    -- Over a lawful store whose lookups of an open alert fail only for want of one, a pipeline that
    -- starts with a valid store of sound alerts, no two active for one rule and key, has after any
    -- events: not panicked; such a store; consistent windows; balanced counters of blocked events; a
    -- hub within its bounds; a ring of exactly the last events that the edge passed on, blocked ones
    -- included; and the count of all events.
    pub pipeline_lem :
        (s : State) (arrivals : List Arrival)
        → ¬ (Failure St L)
        → IsHealthy (some s)
        → Healthy
            (passed St visit arrivals (new_pipeline St visit s))
            (receive_all St visit arrivals (new_pipeline St visit s))
    unfolding new_pipeline new_ring new_gate new_hub
    pipeline_lem s arrivals n h =
        receive_all-Healthy n arrivals [] (new_pipeline St visit s) (record {
          balanced = refl;
          consistent = new_engine-IsConsistent;
          healthy = h;
          kept = new_ring-Holds 4096;
          fanned = tt;
          counted = refl;
        })
