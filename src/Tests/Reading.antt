-- ===== src/Tests/Reading.antt =====
-- internal/server/handlers.go and internal/alerts/service.go: what is read of one event and one alert.
use sentinel_api.Base.{
  ◌*◌, some, List, [], ◌∷◌, ◌≡◌, refl, arith, pos, get_elem?, length, ◌==◌, lookup, slice_stable,
  if◌then◌else◌,
}
use sentinel_api.Event.{NormalizedEvent}
use sentinel_api.Alerts.Merge.{fresh_alert}
use sentinel_api.Alerts.Related.{
  related_events, newest, is_wanted, is_near, before, related_events_lem,
}
use sentinel_api.Store.Memory.{memory_store, get}
use sentinel_api.Server.Reading.{Bucket, metrics}
use sentinel_api.Server.Reading.Buckets.{Counts, metrics_lem}
use sentinel_api.Tests.Fixtures.{second_ns, probe, alert_one, one_alert}

abbrev snap : List NormalizedEvent
snap = probe ∷ []

related_events_lem_example :
    related_events memory_store slice_stable "a1" snap 100 one_alert
    ≡ slice_stable before (
        if length (newest (is_wanted alert_one) 100 snap) == 0
        then newest (is_near alert_one) 100 snap
        else newest (is_wanted alert_one) 100 snap)
unfolding get lookup fresh_alert
related_events_lem_example =
    related_events_lem memory_store slice_stable "a1" snap 100 one_alert alert_one refl

metrics_lem_example :
    (bs : List Bucket) × (metrics (pos 30) "gw" (130 * second_ns) snap ≡ some bs)
    × ((b : Bucket) × (get_elem? bs 29 ≡ some b) × Counts "gw" 30 (130 * second_ns) 29 snap b)
metrics_lem_example = metrics_lem 30 29 "gw" (130 * second_ns) snap (omega arith) (omega arith)
