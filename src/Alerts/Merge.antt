-- ===== src/Alerts/Merge.antt =====
-- internal/alerts/service.go: what a batch of events does to an alert.
use sentinel_api.Base.{
  ℕ, ◌+◌, String, none, List, [], ◌++◌, leb, ltb, length, take_last, min, not, if◌then◌else◌,
}
use sentinel_api.Event.{NormalizedEvent, Severity, rank, is_zero}
use sentinel_api.Detect.Rule.{Rule, Outcome, key}
use sentinel_api.Alerts.Model.{Alert, open_, unset}

unfoldable pub max_severity : Severity → Severity → Severity
max_severity a b = if leb (rank b) (rank a) then a else b

-- `minFloat(0.99, c + 0.02)`, in hundredths.
unfoldable pub raise_confidence : ℕ → ℕ
raise_confidence c = min 99 (c + 2)

abbrev raise_to : ℕ → ℕ → ℕ
raise_to old new = if ltb old new then new else old

unfoldable pub apply_outcome : Alert → Outcome → Alert
apply_outcome a o = record a {
  count = o.count;
  blocked_count = raise_to a.blocked_count o.blocked;
  unique_paths = raise_to a.unique_paths o.unique_paths;
  distinct_assets = raise_to a.distinct_assets o.distinct_assets;
}

abbrev pub max_event_ids : ℕ
max_event_ids = 200

-- The last 200 of the ids.
unfoldable pub merge_ids : List String → List String → List String
merge_ids old new =
    let merged = old ++ new in
    if ltb max_event_ids (length merged) then take_last max_event_ids merged else merged

unfoldable pub merge :
    Alert → Rule → NormalizedEvent → NormalizedEvent → Outcome → List String → Alert
unfolding apply_outcome
merge a r first last o event_ids =
    apply_outcome
      (record a {
        last_seen_at = last.timestamp;
        severity = max_severity a.severity r.severity;
        confidence = raise_confidence a.confidence;
        asset = first.asset;
        src_ip = first.src_ip;
        geo = if not (is_zero first.geo) then first.geo else a.geo;
        event_ids = merge_ids a.event_ids event_ids;
      })
      o

-- The literal of `Ingest`, with the outcome applied.
unfoldable pub fresh_alert :
    String → ℕ → Rule → NormalizedEvent → NormalizedEvent → Outcome → List String → Alert
unfolding apply_outcome
fresh_alert new_id now r first last o event_ids =
    apply_outcome
      (record {
        id = new_id;
        rule_id = r.id;
        rule_key = key r first;
        title = r.name;
        severity = r.severity;
        status = open_;
        confidence = r.confidence;
        mitre = r.mitre;
        description = r.description;
        asset = first.asset;
        src_ip = first.src_ip;
        geo = first.geo;
        count = 0;
        blocked_count = 0;
        unique_paths = 0;
        distinct_assets = 0;
        event_ids = event_ids;
        started_at = first.timestamp;
        last_seen_at = last.timestamp;
        assignee = "";
        assigned_at = none;
        status_changed_at = none;
        responded_at = none;
        resolved_at = none;
        resolution = unset;
        actions = [];
        extra = [];
        created_at = now;
      })
      o
