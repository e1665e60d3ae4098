-- ===== src/Detect/Rules.antt =====
-- internal/detect/rules.go: the seven rules and the text tests that they share. Text is ASCII, for
-- which `to_lower` is Go's strings.ToLower.
use sentinel_api.Base.{
  ◌*◌, Bool, true, false, ◌&&◌, ◌||◌, not, Option, some, List, [], ◌∷◌, map, str_eq, is_blank,
  length, any, filter, codes, to_lower, contains, if◌then◌else◌,
}
use sentinel_api.Event.{NormalizedEvent, app, source_eq, has_tag, critical, high, medium}
use sentinel_api.Event.Tag
use sentinel_api.Detect.Rule.{Rule, Outcome}
use sentinel_api.Detect.Pattern.{match_string, sqli_pattern}
use sentinel_api.Detect.Signs.{second, distinct, status_is, script_extensions, is_known_upload_path}
use sentinel_api.Detect.Scans.{dir_enum_rule, port_scan_rule}

unfoldable pub sqli_match : NormalizedEvent → Bool
sqli_match ev = if has_tag ev Tag.sqli then true else match_string sqli_pattern ev.path

unfoldable pub sqli_alert : List NormalizedEvent → Option Outcome
sqli_alert evs = some (record {
  count = length evs;
  blocked = 0;
  unique_paths = 0;
  distinct_assets = 0;
  message = "Injection payloads observed against application endpoints.";
})

unfoldable pub sqli_rule : Rule
sqli_rule = record {
  id = "sqli";
  name = "SQLi Pattern";
  severity = critical;
  mitre = "T1190" ∷ [];
  confidence = 91;
  description = "SQL injection payloads matched against request path/query parameters.";
  window = 120 * second;
  threshold = 3;
  key_fn = some (λ ev. ev.src_ip);
  match_fn = sqli_match;
  alert_fn = sqli_alert;
}

unfoldable pub auth_brute_match : NormalizedEvent → Bool
auth_brute_match ev = has_tag ev Tag.auth_failure || has_tag ev Tag.brute_force

unfoldable pub auth_brute_alert : List NormalizedEvent → Option Outcome
auth_brute_alert evs = some (record {
  count = length evs;
  blocked = 0;
  unique_paths = distinct str_eq (filter (λ u. not (is_blank u)) (map (λ e. e.user) evs));
  distinct_assets = 0;
  message = "Multiple failed authentication attempts in quick succession.";
})

unfoldable pub auth_brute_rule : Rule
auth_brute_rule = record {
  id = "auth-brute";
  name = "Credential Brute Force";
  severity = high;
  mitre = "T1110" ∷ [];
  confidence = 90;
  description = "Repeated authentication failures from a single source.";
  window = 90 * second;
  threshold = 5;
  key_fn = some (λ ev. ev.src_ip);
  match_fn = auth_brute_match;
  alert_fn = auth_brute_alert;
}

unfoldable pub waf_block_spike_match : NormalizedEvent → Bool
waf_block_spike_match ev = has_tag ev Tag.waf_block

unfoldable pub waf_block_spike_alert : List NormalizedEvent → Option Outcome
waf_block_spike_alert evs = some (record {
  count = length evs;
  blocked = length evs;
  unique_paths = 0;
  distinct_assets = 0;
  message = "Repeated WAF/rate-limit blocks from a single source.";
})

unfoldable pub waf_block_spike_rule : Rule
waf_block_spike_rule = record {
  id = "waf-block-spike";
  name = "WAF Block Spike";
  severity = medium;
  mitre = "T1190" ∷ [];
  confidence = 85;
  description = "A single source tripping WAF/rate-limit rules repeatedly.";
  window = 60 * second;
  threshold = 8;
  key_fn = some (λ ev. ev.src_ip);
  match_fn = waf_block_spike_match;
  alert_fn = waf_block_spike_alert;
}

unfoldable pub db_anomaly_match : NormalizedEvent → Bool
db_anomaly_match ev = source_eq ev.source app && (has_tag ev Tag.db_query || status_is 500 ev)

unfoldable pub db_anomaly_alert : List NormalizedEvent → Option Outcome
db_anomaly_alert evs = some (record {
  count = length evs;
  blocked = 0;
  unique_paths = 0;
  distinct_assets = 0;
  message = "Unusual volume of DB-bound requests from a backend asset.";
})

unfoldable pub db_anomaly_rule : Rule
db_anomaly_rule = record {
  id = "db-anomaly";
  name = "Anomalous DB Query Volume";
  severity = medium;
  mitre = "T1190" ∷ [];
  confidence = 72;
  description = "Backend reports a spike in DB-bound traffic or query latency.";
  window = 90 * second;
  threshold = 6;
  key_fn = some (λ ev. ev.asset);
  match_fn = db_anomaly_match;
  alert_fn = db_anomaly_alert;
}

unfoldable pub webshell_match : NormalizedEvent → Bool
webshell_match ev =
    let p = to_lower ev.path in
    if has_tag ev Tag.webshell
    then true
    else if not (str_eq ev.method "POST") && not (str_eq ev.method "PUT")
    then false
    else any (λ ext. contains p (codes ext) && not (is_known_upload_path p)) script_extensions

unfoldable pub webshell_alert : List NormalizedEvent → Option Outcome
webshell_alert evs = some (record {
  count = length evs;
  blocked = 0;
  unique_paths = distinct str_eq (map (λ e. e.path) evs);
  distinct_assets = 0;
  message = "Server-side script uploaded or probed on a web-accessible path.";
})

unfoldable pub webshell_rule : Rule
webshell_rule = record {
  id = "webshell";
  name = "Webshell Delivery";
  severity = critical;
  mitre = "T1505.003" ∷ [];
  confidence = 88;
  description = "Upload or delivery of a server-side script to a web-accessible path.";
  window = 300 * second;
  threshold = 1;
  key_fn = some (λ ev. ev.src_ip);
  match_fn = webshell_match;
  alert_fn = webshell_alert;
}

unfoldable pub rules : List Rule
rules =
    dir_enum_rule ∷ port_scan_rule ∷ sqli_rule ∷ auth_brute_rule ∷ waf_block_spike_rule
    ∷ db_anomaly_rule ∷ webshell_rule ∷ []
