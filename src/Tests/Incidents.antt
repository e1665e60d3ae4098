-- ===== src/Tests/Incidents.antt =====
-- internal/server/analysis_handlers.go: incidents of one and of two alerts over the in-memory store.
use sentinel_api.Base.{
  ℕ, List, [], ◌∷◌, map, ◌≡◌, refl, lookup, insert, insert_sorted, slice_stable,
}
use sentinel_api.Alerts.Model.{Alert}
use sentinel_api.Alerts.Merge.{fresh_alert}
use sentinel_api.Alerts.Service.{list_alerts, action, action_alert, apply_action, append_action}
use sentinel_api.Containment.{invalid, waf_rule, Containment, Items, deploy}
use sentinel_api.Edge.{new_engine}
use sentinel_api.Store.Memory.{
  MemoryStore, memory_store, get, update, update_at, list, queue, matches_filter,
}
use sentinel_api.Analysis.Incidents.{
  Incident, incident_by_id, build_incident, find_incident, group_incidents, incident_key,
  has_active,
}
use sentinel_api.Server.Incidents.{
  Draw, ContainBody, World, failed, all_alerts, contain_alerts, incident_contain,
}
use sentinel_api.Server.Incidents.Contained.{mitigated_by, contain_alerts-invalid}
use sentinel_api.Server.Incidents.Gone.{incident_contain-gone}
use sentinel_api.Tests.Fixtures.{alert_one, one_alert}
use sentinel_api.Tests.Containment.{an_hour}
use sentinel_api.Tests.Analysis.{names, same_key}

abbrev alert_two : Alert
alert_two = record alert_one { id = "a2" }

abbrev two_alerts : MemoryStore
two_alerts = record { created = alert_one ∷ alert_two ∷ []; by_id = ("a1", 0) ∷ ("a2", 1) ∷ [] }

abbrev shield : ContainBody
shield = record {
  type = waf_rule;
  direction = "";
  duration = "";
  enforcement = "";
  note = "n";
  actor = "mo";
}

abbrev unknown : ContainBody
unknown = record shield { type = invalid "quarantine" }

abbrev draw : ℕ → Draw
draw k = record { now = 200; at = 201; new_id = "c1" }

abbrev world : MemoryStore → World memory_store
world m = record { alerts = m; items = []; gate = new_engine; seen = [] }

abbrev controls : Items → List Containment
controls items = map (λ e. e.1) items

contain_alerts-invalid_example :
    contain_alerts memory_store an_hour unknown
      ("a1" ∷ "a2" ∷ [])
      draw
      0
      ("a1" ∷ "a2" ∷ [])
      (world two_alerts)
    ≡ record (world two_alerts) {
      alerts = record two_alerts {
        created = alert_one ∷ mitigated_by memory_store an_hour unknown (draw 1) alert_two ∷ [];
      };
      seen = "9.9.9.9" ∷ [];
    }
unfolding get lookup fresh_alert update update_at
contain_alerts-invalid_example =
    contain_alerts-invalid memory_store an_hour unknown ("a1" ∷ "a2" ∷ []) draw "a1" "a2"
      (world two_alerts) alert_one alert_two
      (record two_alerts {
        created = alert_one ∷ mitigated_by memory_store an_hour unknown (draw 1) alert_two ∷ [];
      })
      refl refl refl refl refl refl

abbrev incident : Incident
incident = build_incident same_key names alert_one [] 500

incident_contain-gone_example :
    incident_contain memory_store same_key names slice_stable controls an_hour shield draw 500 600
      "INC-ip:9.9.9.9"
      (world one_alert)
    ≡ (
      failed,
      contain_alerts memory_store an_hour shield ("a1" ∷ []) draw 0 ("a1" ∷ []) (world one_alert),
    )
unfolding incident_by_id find_incident group_incidents build_incident all_alerts contain_alerts
    fresh_alert slice_stable list_alerts list queue matches_filter insert_sorted lookup insert
    incident_key has_active get deploy action action_alert apply_action update append_action
incident_contain-gone_example =
    incident_contain-gone same_key names memory_store slice_stable controls an_hour shield draw 500
      600 "INC-ip:9.9.9.9" (world one_alert) incident (λ before. refl) refl (refl, tt)
