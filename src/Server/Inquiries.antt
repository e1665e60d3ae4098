-- ===== src/Server/Inquiries.antt =====
-- internal/server/analysis_handlers.go: the handlers that show chains, indicators and incidents, over
-- any store. `digest`, `walk` and `sort` are those of internal/analysis, `visit` is the order in which
-- the controls are walked, and `now` is what time.Now() gives. `none` is the answer 404.
use sentinel_api.Base.{ℕ, String, Bool, Option, none, some, List, [], ◌∷◌, Map}
use sentinel_api.Event.{NormalizedEvent}
use sentinel_api.Alerts.Store.{Store, ok, err}
use sentinel_api.Alerts.Related.{related_events}
use sentinel_api.Containment.{Containment, Items}
use sentinel_api.Analysis.Chain.{Chain, build_chain}
use sentinel_api.Analysis.Indicators.{Ioc, extract_iocs}
use sentinel_api.Analysis.Incidents.{Incident, incident_by_id, group_incidents}
use sentinel_api.Server.Incidents.{alerts_for_source, all_alerts, incident_contained}

module _ (St : Store) where
  open St use {State, get}

  unfoldable pub alert_chain : String → State → Option Chain
  unfolding alerts_for_source build_chain
  alert_chain i s = elim (get i s) [
    | err e ↦ none
    | ok a ↦ some (build_chain (alerts_for_source St a s))
  ]

  -- `snap` is the snapshot of the ring.
  unfoldable pub alert_iocs :
      ((NormalizedEvent → NormalizedEvent → Bool) → List NormalizedEvent → List NormalizedEvent)
      → (Map ℕ → List (String × ℕ))
      → String
      → List NormalizedEvent
      → State
      → Option (List Ioc)
  unfolding related_events extract_iocs
  alert_iocs sort_events entries i snap s = elim (get i s) [
    | err e ↦ none
    | ok a ↦ some (extract_iocs entries a (related_events St sort_events a.id snap 100 s))
  ]

  module _ (digest : String → String) (walk : Map ℕ → List String)
      (sort : (Incident → Incident → Bool) → List Incident → List Incident)
      (visit : Items → List Containment) where
    -- Each incident is marked; the look at its controls resolves them.
    unfoldable pub mark_contained : ℕ → List Incident → Items → List Incident × Items
    unfolding incident_contained
    mark_contained now [] items = ([], items)
    mark_contained now (inc ∷ incs) items =
        let (contained, items') = incident_contained visit now inc items in
        let (marked, items'') = mark_contained now incs items' in
        (record inc { contained = contained } ∷ marked, items'')

    unfoldable pub list_incidents : ℕ → State → Items → List Incident × Items
    unfolding mark_contained group_incidents all_alerts
    list_incidents now s items =
        mark_contained now (group_incidents digest walk sort (all_alerts St s) now) items

    unfoldable pub get_incident : ℕ → String → State → Items → Option (Incident × Items)
    unfolding incident_contained incident_by_id all_alerts
    get_incident now i s items = elim (incident_by_id digest walk sort (all_alerts St s) i now) [
      | none ↦ none
      | some inc ↦
          let (contained, items') = incident_contained visit now inc items in
          some (record inc { contained = contained }, items')
    ]
