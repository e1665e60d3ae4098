-- ===== src/Detect/Scans.antt =====
-- internal/detect/rules.go: the rules for directory enumeration and port scans.
use sentinel_api.Base.{
  ◌*◌, Bool, true, false, ◌&&◌, ◌||◌, not, Option, none, some, List, [], ◌∷◌, map, int_eq,
  is_positive, str_eq, ltb, length, filter, count_if, codes, to_lower, has_prefix, if◌then◌else◌,
}
use sentinel_api.Event.{NormalizedEvent, api_gateway, nginx, source_text, source_eq, high}
use sentinel_api.Detect.Rule.{Rule, Outcome}
use sentinel_api.Detect.Signs.{
  second, distinct, status_is, is_dir_buster_ua, looks_like_sensitive_path,
}

unfoldable pub dir_enum_match : NormalizedEvent → Bool
unfolding has_prefix is_dir_buster_ua looks_like_sensitive_path
dir_enum_match ev =
    if not (status_is 403 ev) && (not (status_is 404 ev) && not (status_is 401 ev))
    then false
    else if not (has_prefix (codes (source_text ev.source)) (codes "nginx"))
        && (not (source_eq ev.source api_gateway) && not (source_eq ev.source nginx))
    then false
    else if is_dir_buster_ua (to_lower ev.user_agent)
    then true
    else looks_like_sensitive_path (codes ev.path)

unfoldable pub dir_enum_alert : List NormalizedEvent → Option Outcome
dir_enum_alert evs =
    let paths = distinct str_eq (map (λ e. e.path) evs) in
    let blocked = count_if (λ e. status_is 403 e || status_is 401 e) evs in
    if ltb paths 8
    then none
    else some (record {
      count = length evs;
      blocked = blocked;
      unique_paths = paths;
      distinct_assets = 1;
      message =
          "Automated content discovery against admin endpoints. Tooling signature matches DirBuster.";
    })

unfoldable pub dir_enum_rule : Rule
dir_enum_rule = record {
  id = "dir-enum";
  name = "Directory Enumeration";
  severity = high;
  mitre = "T1595.001" ∷ "T1083" ∷ [];
  confidence = 94;
  description =
      "Automated content discovery against admin endpoints. Tooling signature matches DirBuster.";
  window = 90 * second;
  threshold = 12;
  key_fn = some (λ ev. ev.src_ip);
  match_fn = dir_enum_match;
  alert_fn = dir_enum_alert;
}

unfoldable pub port_scan_match : NormalizedEvent → Bool
port_scan_match ev = source_eq ev.source api_gateway || source_eq ev.source nginx

-- Distinct ports are distinct decimal texts.
unfoldable pub port_scan_alert : List NormalizedEvent → Option Outcome
port_scan_alert evs =
    let assets = distinct str_eq (map (λ e. e.asset) evs) in
    let ports = distinct int_eq (filter is_positive (map (λ e. e.src_port) evs)) in
    if ltb assets 2
    then none
    else some (record {
      count = length evs;
      blocked = 0;
      unique_paths = ports;
      distinct_assets = assets;
      message = "Sequential probing observed across multiple assets.";
    })

unfoldable pub port_scan_rule : Rule
port_scan_rule = record {
  id = "port-scan";
  name = "Sequential Port Scan";
  severity = high;
  mitre = "T1046" ∷ [];
  confidence = 87;
  description = "Reconnaissance against multiple services and hosts from a single source.";
  window = 120 * second;
  threshold = 15;
  key_fn = some (λ ev. ev.src_ip);
  match_fn = port_scan_match;
  alert_fn = port_scan_alert;
}
