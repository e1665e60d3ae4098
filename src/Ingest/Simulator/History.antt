-- ===== src/Ingest/Simulator/History.antt =====
-- internal/ingest/simulator.go: `seed`, the traffic history that the simulator starts with. After each
-- event it draws the length of a pause.
use sentinel_api.Base.{
  ℕ, zero, suc, ◌+◌, ◌*◌, ◌%◌, String, Bool, true, false, Option, none, List, [], ◌∷◌, ◌++◌, map,
  length, get_elem?, ◌==◌, if◌then◌else◌,
}
use sentinel_api.Event.{cloudflare, api_gateway, app, ssh}
use sentinel_api.Event.Tag
use sentinel_api.Ingest.Value.{string_value, RawLog}
use sentinel_api.Ingest.Simulator.Random.{Random, Draw, draw_int, or_panic, ◌>>=◌, pure}
use sentinel_api.Ingest.Simulator.Traffic.{legit_request}
use sentinel_api.Ingest.Simulator.Pools.{join, sqli_payloads, root_or_admin, int_field, tagged}

abbrev pub seed_paths : List String
seed_paths =
    "/administrator" ∷ "/manage" ∷ "/wp-admin" ∷ "/admin" ∷ "/backup" ∷ "/backup.zip"
    ∷ "/phpmyadmin" ∷ "/wp-login.php" ∷ "/config.php" ∷ "/.git/HEAD" ∷ "/server-status" ∷ "/login"
    ∷ "/admin/login" ∷ "/api/admin" ∷ "/uploads" ∷ "/.env" ∷ "/private" ∷ "/internal" ∷ "/logs"
    ∷ "/console" ∷ "/shell.php" ∷ "/xmlrpc.php" ∷ "/wp-json" ∷ "/api/config" ∷ "/jenkins" ∷ []

-- `for i := 0; i < n; i++`
unfoldable pub counted_from : ℕ → ℕ → List ℕ
counted_from i zero = []
counted_from i (suc n) = i ∷ counted_from (i + 1) n

unfoldable pub repeated : {A : Type 0} → ℕ → A → List A
repeated zero x = []
repeated (suc n) x = x ∷ repeated n x

-- The status and the size of the i-th probe.
unfoldable pub probe_answer : ℕ → ℕ × ℕ
probe_answer i = if i == 27 then (200, 118) else if i % 10 == 0 then (403, 512) else (404, 302)

-- `items[i%len(items)]`; `none` is the panic of an empty slice.
unfoldable pub cyclic : {A : Type 0} → List A → ℕ → Option A
cyclic items i = if length items == 0 then none else get_elem? items (i % length items)

unfoldable pub seed_probe_log : ℕ → String → RawLog
unfolding probe_answer
seed_probe_log i path = record {
  source = api_gateway;
  asset = "api-gw-01";
  fields =
      ("ip", string_value "32.122.195.63")
      ∷ ("method", string_value "GET")
      ∷ ("path", string_value path)
      ∷ ("status", int_field (probe_answer i).0)
      ∷ ("user_agent", string_value "Mozilla/5.0 (compatible; DirBuster/1.0)")
      ∷ ("size", int_field (probe_answer i).1)
      ∷ ("tags", tagged Tag.scan)
      ∷ [];
}

unfoldable pub seed_scan_log : ℕ → String → RawLog
seed_scan_log i asset = record {
  source = api_gateway;
  asset = asset;
  fields =
      ("ip", string_value "203.0.113.5")
      ∷ ("method", string_value "GET")
      ∷ ("path", string_value "/")
      ∷ ("status", int_field 404)
      ∷ ("port", int_field (8080 + i))
      ∷ ("user_agent", string_value "Mozilla/5.0 zgrab/0.4")
      ∷ ("tags", tagged Tag.scan)
      ∷ [];
}

unfoldable pub seed_injection_log : String → RawLog
unfolding join
seed_injection_log payload = record {
  source = api_gateway;
  asset = "api-gw-01";
  fields =
      ("ip", string_value "198.51.100.45")
      ∷ ("method", string_value "GET")
      ∷ ("path", string_value (join "/api/v1/payments?ref=" payload))
      ∷ ("status", int_field 200)
      ∷ ("user_agent", string_value "Mozilla/5.0 (Windows NT 10.0; Win64; x64)")
      ∷ ("tags", tagged Tag.sqli)
      ∷ [];
}

unfoldable pub seed_waf_log : RawLog
seed_waf_log = record {
  source = cloudflare;
  asset = "www-01";
  fields =
      ("ip", string_value "185.220.101.30")
      ∷ ("method", string_value "GET")
      ∷ ("path", string_value "/wp-login.php?action=register")
      ∷ ("status", int_field 403)
      ∷ ("user_agent", string_value "Mozilla/5.0 (compatible; Nikto/2.5)")
      ∷ ("tags", tagged Tag.waf_block)
      ∷ [];
}

unfoldable pub seed_login_log : ℕ → RawLog
unfolding join root_or_admin
seed_login_log i = record {
  source = ssh;
  asset = "auth-svc-01";
  fields =
      ("ip", string_value "45.55.2.9")
      ∷ ("user", string_value (root_or_admin i))
      ∷ ("port", int_field 5222)
      ∷ (
        "message",
        string_value
            (join "Failed password for " (join (root_or_admin i) " from 45.55.2.9 port 5222 ssh2")),
      )
      ∷ ("tags", tagged Tag.auth_failure)
      ∷ [];
}

unfoldable pub seed_upload_log : RawLog
seed_upload_log = record {
  source = api_gateway;
  asset = "www-01";
  fields =
      ("ip", string_value "104.223.8.19")
      ∷ ("method", string_value "POST")
      ∷ ("path", string_value "/wp-content/uploads/shell.php")
      ∷ ("status", int_field 403)
      ∷ ("user_agent", string_value "Mozilla/5.0 (compatible; curl)")
      ∷ ("tags", tagged Tag.webshell)
      ∷ [];
}

unfoldable pub seed_query_log : (ℕ → String) → ℕ → RawLog
unfolding join
seed_query_log sprint i = record {
  source = app;
  asset = "Internal-DB-01";
  fields =
      (
        "message",
        string_value (
            join "slow query took "
              (join (sprint (9000 + i * 500)) "ms: SELECT * FROM payments WHERE amount > 0")),
      )
      ∷ ("status", int_field 200)
      ∷ ("tags", tagged Tag.db_query)
      ∷ [];
}

module _ (R : Random) (assets : List String) (sprint : ℕ → String) where
  unfoldable pub seed_probe : ℕ → Draw R RawLog
  unfolding cyclic seed_probe_log
  seed_probe i = or_panic R (cyclic seed_paths i) >>= λ path. pure (seed_probe_log i path)

  unfoldable pub seed_scan : ℕ → Draw R RawLog
  unfolding cyclic seed_scan_log
  seed_scan i = or_panic R (cyclic assets i) >>= λ asset. pure (seed_scan_log i asset)

  -- The attacks of the history, in order.
  abbrev pub seed_injections : List (Draw R RawLog)
  seed_injections = map (λ payload. pure (seed_injection_log payload)) sqli_payloads

  abbrev pub seed_logins : List (Draw R RawLog)
  seed_logins = map (λ i. pure (seed_login_log i)) (counted_from 0 14)

  abbrev pub seed_queries : List (Draw R RawLog)
  seed_queries = map (λ i. pure (seed_query_log sprint i)) (counted_from 0 9)

  abbrev pub seed_waf : Draw R RawLog
  seed_waf = pure seed_waf_log

  abbrev pub seed_upload : Draw R RawLog
  seed_upload = pure seed_upload_log

  unfoldable pub seed_attacks : List (Draw R RawLog)
  unfolding counted_from repeated seed_probe seed_scan
  seed_attacks =
      map seed_probe (counted_from 0 31)
      ++ (map seed_scan (counted_from 0 24)
          ++ (seed_injections
              ++ (repeated 12 seed_waf ++ (seed_logins ++ (seed_upload ∷ seed_queries)))))

  -- Each event is sent, and a pause is drawn.
  unfoldable pub send_each : List (Draw R RawLog) → List RawLog → Draw R (List RawLog)
  unfolding draw_int
  send_each [] sent = pure sent
  send_each (m ∷ ms) sent = do raw ← m; pause ← draw_int R 80; send_each ms (sent ++ raw ∷ [])

  unfoldable pub seed : Bool → List RawLog → Draw R (List RawLog)
  unfolding send_each seed_attacks repeated legit_request
  seed false sent = pure sent
  seed true sent = send_each (seed_attacks ++ repeated 60 (legit_request R assets)) sent
