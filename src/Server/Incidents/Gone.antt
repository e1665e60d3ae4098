-- ===== src/Server/Incidents/Gone.antt =====
-- internal/server/analysis_handlers.go: what is answered when an incident is gone.
use sentinel_api.Base.{
  ℕ, String, Bool, false, Option, none, some, List, [], ◌∷◌, ◌≡◌, refl, Map, All, All-filter, any,
  arith,
}
use sentinel_api.Alerts.Model.{Alert, is_active}
use sentinel_api.Alerts.Store.{Store}
use sentinel_api.Containment.{Containment, Lifetime, Items}
use sentinel_api.Analysis.Incidents.{Incident, incident_by_id, find_incident}
use sentinel_api.Analysis.Incidents.Groups.{
  incidents_for, keys_of, with_key, has_key, is_pending, of_group, group_incidents_sort,
}
use sentinel_api.Server.Incidents.{
  Draw, ContainBody, World, failed, all_alerts, contain_alerts, answer_incident, incident_contain,
}

-- No alert is active.
abbrev pub AllOver : List Alert → Type 0
AllOver alerts = All (λ a. is_active a.status ≡ false) alerts

no_pending : (alerts : List Alert) → AllOver alerts → any is_pending alerts ≡ false
unfolding is_active
no_pending [] h = refl
no_pending (a ∷ alerts) h = ground (arith, h.0, no_pending alerts h.1)

module _ (digest : String → String) (walk : Map ℕ → List String) where
  of_group-over :
      (alerts : List Alert) (now : ℕ) → AllOver alerts → of_group digest walk alerts now ≡ []
  of_group-over [] now h = refl
  of_group-over (a ∷ alerts) now h = rw (no_pending (a ∷ alerts) h) refl

  incidents_for-over :
      (ks : List String) (alerts : List Alert) (now : ℕ)
      → AllOver alerts
      → incidents_for digest walk ks alerts now ≡ []
  unfolding incidents_for
  incidents_for-over [] alerts now h = refl
  incidents_for-over (k ∷ ks) alerts now h = rw (
    of_group-over (with_key k alerts) now (All-filter _ (has_key k) alerts h),
    incidents_for-over ks alerts now h,
  )

  incident_by_id-over :
      (sort : (Incident → Incident → Bool) → List Incident → List Incident)
      → ((before : Incident → Incident → Bool) → sort before [] ≡ [])
      → (alerts : List Alert) (i : String) (now : ℕ) → AllOver alerts
      → incident_by_id digest walk sort alerts i now ≡ none
  unfolding incident_by_id find_incident
  incident_by_id-over sort empty alerts i now h = rw (
    group_incidents_sort digest walk sort alerts now,
    incidents_for-over (keys_of alerts) alerts now h,
    empty,
  )

  -- If the containment of an incident leaves no alert active, which a rate limit and a WAF rule mean to
  -- do, the handler fails after it has done everything: it looks the incident up again, which is gone.
  -- The sort is one that leaves an empty list empty.
  pub incident_contain-gone :
      (St : Store) (sort : (Incident → Incident → Bool) → List Incident → List Incident)
      (visit : Items → List Containment) (parse : String → Option Lifetime) (b : ContainBody)
      (draw : ℕ → Draw) (t0 t1 : ℕ) (i : String) (w : World St) (inc : Incident)
      → ((before : Incident → Incident → Bool) → sort before [] ≡ [])
      → incident_by_id digest walk sort (all_alerts St w.alerts) i t0 ≡ some inc
      → AllOver (
          all_alerts St
            (contain_alerts St parse b inc.alert_ids draw 0 inc.alert_ids
              (record w { seen = [] })).alerts)
      → incident_contain St digest walk sort visit parse b draw t0 t1 i w ≡ (
        failed,
        contain_alerts St parse b inc.alert_ids draw 0 inc.alert_ids (record w { seen = [] }),
      )
  unfolding incident_contain answer_incident
  incident_contain-gone St sort visit parse b draw t0 t1 i w inc empty found over =
      rw (incident_contain, found, answer_incident, incident_by_id-over sort empty _ inc.id t1 over)
