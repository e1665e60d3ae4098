-- ===== src/Tests/Fixtures.antt =====
-- Events, alerts and calls that the tests share.
use sentinel_api.Base.{ℕ, ◌*◌, ◌^◌, String, none, List, [], ◌∷◌, pos}
use sentinel_api.Event.{NormalizedEvent, cloudflare}
use sentinel_api.Event.Tag
use sentinel_api.Detect.Rule.{Outcome}
use sentinel_api.Detect.Rules.{sqli_rule}
use sentinel_api.Alerts.Model.{Alert, in_progress, resolve, comment}
use sentinel_api.Alerts.Merge.{fresh_alert}
use sentinel_api.Alerts.History.{Call, assigns, sets, acts, ingests}
use sentinel_api.Store.Memory.{MemoryStore}

abbrev pub second_ns : ℕ
second_ns = 10 ^ 9

abbrev pub event_at : String → ℕ → String → List String → NormalizedEvent
event_at i t ip tags = record {
  id = i;
  timestamp = t;
  source = cloudflare;
  asset = "gw";
  src_ip = ip;
  src_port = pos 0;
  method = "GET";
  path = "/login";
  status = pos 200;
  size = pos 10;
  proto = "HTTP/1.1";
  user_agent = "";
  referer = "";
  user = "";
  message = "";
  tags = tags;
  geo = none;
  extra = [];
}

abbrev pub probe : NormalizedEvent
probe = event_at "e1" (100 * second_ns) "9.9.9.9" (Tag.sqli ∷ [])

abbrev pub outcome : Outcome
outcome = record { count = 3; blocked = 0; unique_paths = 0; distinct_assets = 0; message = "m" }

abbrev pub alert_one : Alert
alert_one = fresh_alert "a1" 7 sqli_rule probe probe outcome ("e1" ∷ [])

abbrev pub one_alert : MemoryStore
one_alert = record { created = alert_one ∷ []; by_id = ("a1", 0) ∷ [] }

-- A second batch for the first alert, then its life to the end, and a refused reopening.
abbrev pub calls : List Call
calls =
    ingests "a2" 8 sqli_rule probe [] outcome
    ∷ assigns 9 10 "a1" "mo" "mo"
    ∷ sets 11 12 "a1" in_progress "mo"
    ∷ acts 13 14 "a1" comment "seen" "mo"
    ∷ acts 15 16 "a1" resolve "done" "mo"
    ∷ assigns 17 18 "a1" "jo" "jo"
    ∷ []
