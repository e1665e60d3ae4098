-- ===== src/Tests/Ingest.antt =====
-- internal/ingest: lines of an nginx log.
use sentinel_api.Base.{
  Str, Map, Option, lookup, some, none, ◌≡◌, refl, arith, chars, digits_value, unsigned, atoi,
  is_space, is_char, insert, ◌∷◌, [], any-Free,
}
use sentinel_api.Ingest.Value.{RawLog, Value, string_value}
use sentinel_api.Ingest.Tail.{
  Outcome, parse_ssh_line, RequestLine, panics, parsed, is_upper, parse_line,
}
use sentinel_api.Ingest.Tail.Nginx.{Combined, IsCombined, log_line}
use sentinel_api.Ingest.Tail.Panics.{cut_line, parse_line-cut_line}
use sentinel_api.Ingest.Normalize.{normalize}
use sentinel_api.Ingest.Normalize.Nginx.{IsRequest, request_text, line_event, normalize-log_line}
use sentinel_api.Event.{nginx}
use sentinel_api.Server.Intake.{intake}
use sentinel_api.Server.Intake.Room.{IsTaken, intake_lem}
use sentinel_api.Containment.{deploy}
use sentinel_api.Edge.{Engine, install, new_engine}
use sentinel_api.Store.Memory.{memory_store}
use sentinel_api.Server.Pipeline.{Pipeline, new_pipeline}
use sentinel_api.Server.Control.{edge_policy_for, deploy_control, with_policy}
use sentinel_api.Server.Tailed.{Moment, receive_line}
use sentinel_api.Server.Tailed.Blocked.{after_denial, receive_line-blocked}
use sentinel_api.Tests.Fixtures.{one_alert}
use sentinel_api.Tests.Edge.{in_order, in_order-Complete}
use sentinel_api.Tests.Containment.{an_hour, block}

abbrev request : RequestLine
request = record { method = chars "GET"; path = chars "/login"; proto = chars "HTTP/1.1" }

abbrev line : Combined
line = record {
  ip = chars "9.9.9.9";
  time = chars "10/Oct/2025:13:55:36 +0000";
  request = request_text request;
  status = chars "404";
  size = chars "153";
  referer = chars "-";
  ua = chars "curl/8.0";
}

request-IsRequest : IsRequest request
unfolding is_upper is_space
request-IsRequest = record {
  method_upper = refl;
  method_short = omega arith;
  method_word = any-Free is_space request.method refl;
  path_given = omega arith;
  path_word = any-Free is_space request.path refl;
  proto_given = omega arith;
  proto_word = any-Free is_space request.proto refl;
}

line-IsCombined : IsCombined line
unfolding is_space
line-IsCombined = record {
  ip_given = omega arith;
  ip_short = omega arith;
  ip_word = any-Free is_space line.ip refl;
  time_end = any-Free (is_char b']') line.time refl;
  request_end = any-Free (is_char b'"') line.request refl;
  status_given = omega arith;
  status_word = any-Free is_space line.status refl;
  status_end = any-Free (is_char b'"') line.status refl;
  size_end = any-Free (is_char b'"') line.size refl;
  referer_end = any-Free (is_char b'"') line.referer refl;
  ua_end = any-Free (is_char b'"') line.ua refl;
}

normalize-log_line_example :
    (raw : RawLog) × (parse_line (log_line line) "web" ≡ parsed raw)
    × (normalize (λ v. "") (λ t h. "evt") (λ ip. none) raw 500
        ≡ line_event (λ v. "") (λ t h. "evt") (λ ip. none) line request 404 "web" 500)
unfolding atoi unsigned digits_value
normalize-log_line_example =
    normalize-log_line (λ v. "") (λ t h. "evt") (λ ip. none) line request 404 "web" 500 refl
      request-IsRequest line-IsCombined refl

parse_line-cut_line_example :
    parse_line (cut_line (chars "9.9.9.9") (chars "10/Oct") (chars "GET / HTTP/1.1")) "web" ≡ panics
unfolding is_space
parse_line-cut_line_example =
    parse_line-cut_line (chars "9.9.9.9") (chars "10/Oct") (chars "GET / HTTP/1.1") "web"
      (any-Free is_space (chars "9.9.9.9") refl) (omega arith) (omega arith)
      (any-Free (is_char b']') (chars "10/Oct") refl)
      (any-Free (is_char b'"') (chars "GET / HTTP/1.1") refl)

abbrev moment : Moment
moment = record { ts = 500; now = 200; draw = λ r. ("a1", 7) }

abbrev gate : Engine
gate = install (edge_policy_for block) new_engine

abbrev guarded : Pipeline memory_store in_order
guarded = record (new_pipeline memory_store in_order one_alert) { gate = gate }

receive_line-blocked_example :
    receive_line memory_store in_order
      (λ v. "")
      (λ t h. "evt")
      (λ ip. none)
      moment
      (log_line line)
      "web"
      guarded
    ≡ parsed (
        after_denial memory_store in_order
          (λ v. "")
          (λ t h. "evt")
          (λ ip. none)
          (line_event (λ v. "") (λ t h. "evt") (λ ip. none) line request 404 "web" 500)
          guarded)
unfolding atoi unsigned digits_value deploy_control deploy insert with_policy
receive_line-blocked_example =
    receive_line-blocked memory_store in_order (λ v. "") (λ t h. "evt") (λ ip. none)
      in_order-Complete an_hour 100 "c1" "" "1h" "" "" [] [] (("c1", block) ∷ []) new_engine block
      line request 404 "web" moment guarded refl refl refl refl request-IsRequest line-IsCombined
      refl

abbrev posted : RawLog
posted = record { source = nginx; asset = "web"; fields = [] }

intake_lem_example :
    IsTaken 1 [] (intake 1 (λ s. some posted) (λ s. none) "t" "Bearer t" (chars "{}\n{}") [])
intake_lem_example =
    intake_lem 1 (λ s. some posted) (λ s. none) "t" "Bearer t" (chars "{}\n{}") [] (omega arith)

-- A failed password for a user that does not exist: the word after `for` is taken for the user.
abbrev invalid_user_line : Str
invalid_user_line = chars "Failed password for invalid user admin from 9.9.9.9 port 22 ssh2"

abbrev user_of : Outcome (Map Value) → Option Value
user_of (parsed f) = lookup "user" f
user_of _ = none

parse_ssh_line-invalid_user :
    user_of (parse_ssh_line invalid_user_line) ≡ some (string_value "invalid")
unfolding parse_ssh_line lookup
parse_ssh_line-invalid_user = refl
