-- ===== src/Tests/Store.antt =====
-- internal/store/memory.go: a store with one alert.
use sentinel_api.Base.{◌+◌, ◌≤◌, String, Bool, [], ◌∷◌, ◌≡◌, pos, filter, count_if}
use sentinel_api.Alerts.Model.{Alert, Filter}
use sentinel_api.Store.Memory.{MemoryStore, matches_filter, queue, counts, no_counts}
use sentinel_api.Store.Queue.{Ranked, queue_lem}
use sentinel_api.Store.Tally.{Counted, number_in, of_severity, counts_lem}
use sentinel_api.Tests.Fixtures.{alert_one}

abbrev everything : Filter
everything = record {
  status = "";
  severity = "";
  asset = "";
  assignee = "";
  rule_id = "";
  query = "";
  limit = pos 5;
  offset = pos 0;
}

abbrev alert_two : Alert
alert_two = record alert_one { id = "a2"; rule_key = "8.8.8.8" }

abbrev two_alerts : MemoryStore
two_alerts = record { created = alert_one ∷ alert_two ∷ []; by_id = ("a1", 0) ∷ ("a2", 1) ∷ [] }

queue_lem_example :
    Ranked (queue everything two_alerts)
    × ((p : Alert → Bool)
        → count_if p (queue everything two_alerts)
          ≡ count_if p (filter (matches_filter everything) two_alerts.created))
queue_lem_example = queue_lem everything two_alerts

counts_lem_example :
    Counted two_alerts.created no_counts (counts two_alerts)
    × ((k : String)
        → number_in (counts two_alerts).by_severity k ≡ count_if (of_severity k) two_alerts.created)
    × ((counts two_alerts).total_active + (counts two_alerts).resolved_count ≡ 2)
    × ((counts two_alerts).unassigned ≤ (counts two_alerts).open_count)
counts_lem_example = counts_lem two_alerts
