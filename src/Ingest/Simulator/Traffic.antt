-- ===== src/Ingest/Simulator/Traffic.antt =====
-- internal/ingest/simulator.go: an ordinary request, and an attack. `sprint` is the "%d" of
-- fmt.Sprintf.
use sentinel_api.Base.{ℕ, ◌+◌, String, List, [], ◌∷◌, ◌==◌, ltb, if◌then◌else◌}
use sentinel_api.Event.{Source, cloudflare, api_gateway, app, ssh}
use sentinel_api.Event.Tag
use sentinel_api.Ingest.Value.{string_value, RawLog}
use sentinel_api.Ingest.Simulator.Random.{Random, Draw, draw_int, draw_float, rnd_pick, ◌>>=◌, pure}
use sentinel_api.Ingest.Simulator.Pools.{
  join, enum_paths, sqli_payloads, shell_paths, legit_ips, legit_paths, legit_agents, legit_sources,
  root_or_admin, int_field, tagged,
}

module _ (R : Random) (assets : List String) where
  -- The status of an ordinary request, by what was drawn.
  unfoldable pub legit_status : R.Float → ℕ
  legit_status r =
      if R.above r 94 then 400 else if R.above r 90 then 404 else if R.above r 88 then 503 else 200

  unfoldable pub legit_request_log :
      R.Float → R.Float → Source → String → String → String → String → RawLog
  unfolding legit_status
  legit_request_log m r source asset ip path agent = record {
    source = source;
    asset = asset;
    fields =
        ("ip", string_value ip)
        ∷ ("method", string_value (if R.below m 25 then "POST" else "GET"))
        ∷ ("path", string_value path)
        ∷ ("status", int_field (legit_status r))
        ∷ ("user_agent", string_value agent)
        ∷ [];
  }

  unfoldable pub legit_request : Draw R RawLog
  unfolding draw_float rnd_pick legit_request_log
  legit_request = do
    m ← draw_float R
    r ← draw_float R
    source ← rnd_pick R legit_sources
    asset ← rnd_pick R assets
    ip ← rnd_pick R legit_ips
    path ← rnd_pick R legit_paths
    agent ← rnd_pick R legit_agents
    pure (legit_request_log m r source asset ip path agent)

  unfoldable pub enumeration_log : ℕ → String → String → RawLog
  enumeration_log k asset path = record {
    source = api_gateway;
    asset = asset;
    fields =
        ("ip", string_value "32.122.195.63")
        ∷ ("method", string_value "GET")
        ∷ ("path", string_value path)
        ∷ ("status", int_field (if k == 0 then 403 else 404))
        ∷ ("user_agent", string_value "Mozilla/5.0 (compatible; GoBuster/3.5)")
        ∷ ("tags", tagged Tag.scan)
        ∷ [];
  }

  unfoldable pub enumeration : Draw R RawLog
  unfolding draw_int rnd_pick enumeration_log
  enumeration = do
    k ← draw_int R 3
    asset ← rnd_pick R assets
    path ← rnd_pick R enum_paths
    pure (enumeration_log k asset path)

  unfoldable pub injection_log : String → String → RawLog
  unfolding join
  injection_log asset payload = record {
    source = api_gateway;
    asset = asset;
    fields =
        ("ip", string_value "198.51.100.45")
        ∷ ("method", string_value "GET")
        ∷ ("path", string_value (join "/api/v1/payments?ref=" payload))
        ∷ ("status", int_field 200)
        ∷ ("user_agent", string_value "Mozilla/5.0 (Windows NT 10.0; Win64; x64)")
        ∷ ("tags", tagged Tag.sqli)
        ∷ [];
  }

  unfoldable pub injection : Draw R RawLog
  unfolding rnd_pick injection_log
  injection = do
    asset ← rnd_pick R assets
    payload ← rnd_pick R sqli_payloads
    pure (injection_log asset payload)

  unfoldable pub waf_hit_log : String → String → RawLog
  waf_hit_log asset path = record {
    source = cloudflare;
    asset = asset;
    fields =
        ("ip", string_value "185.220.101.30")
        ∷ ("method", string_value "GET")
        ∷ ("path", string_value path)
        ∷ ("status", int_field 403)
        ∷ ("user_agent", string_value "Mozilla/5.0 (compatible; Nikto/2.5)")
        ∷ ("tags", tagged Tag.waf_block)
        ∷ [];
  }

  unfoldable pub waf_hit : Draw R RawLog
  unfolding rnd_pick waf_hit_log
  waf_hit = do
    asset ← rnd_pick R assets
    path ← rnd_pick R enum_paths
    pure (waf_hit_log asset path)

  unfoldable pub failed_login_log : ℕ → ℕ → RawLog
  unfolding join root_or_admin
  failed_login_log i port = record {
    source = ssh;
    asset = "auth-svc-01";
    fields =
        ("ip", string_value "45.55.2.9")
        ∷ ("user", string_value (root_or_admin i))
        ∷ ("port", int_field (5200 + port))
        ∷ (
          "message",
          string_value
              (join "Failed password for " (join (root_or_admin i) " from 45.55.2.9 port ssh2")),
        )
        ∷ ("tags", tagged Tag.auth_failure)
        ∷ [];
  }

  unfoldable pub failed_login : Draw R RawLog
  unfolding draw_int failed_login_log
  failed_login = do i ← draw_int R 8; port ← draw_int R 80; pure (failed_login_log i port)

  unfoldable pub upload_log : String → RawLog
  upload_log path = record {
    source = api_gateway;
    asset = "www-01";
    fields =
        ("ip", string_value "104.223.8.19")
        ∷ ("method", string_value "POST")
        ∷ ("path", string_value path)
        ∷ ("status", int_field 403)
        ∷ ("user_agent", string_value "Mozilla/5.0 (compatible; curl)")
        ∷ ("tags", tagged Tag.webshell)
        ∷ [];
  }

  unfoldable pub upload : Draw R RawLog
  unfolding rnd_pick upload_log
  upload = do path ← rnd_pick R shell_paths; pure (upload_log path)

  unfoldable pub port_probe_log : String → ℕ → RawLog
  port_probe_log asset port = record {
    source = api_gateway;
    asset = asset;
    fields =
        ("ip", string_value "203.0.113.5")
        ∷ ("method", string_value "GET")
        ∷ ("path", string_value "/")
        ∷ ("status", int_field 404)
        ∷ ("port", int_field (8000 + port))
        ∷ ("user_agent", string_value "Mozilla/5.0 zgrab/0.4")
        ∷ ("tags", tagged Tag.scan)
        ∷ [];
  }

  unfoldable pub port_probe : Draw R RawLog
  unfolding draw_int rnd_pick port_probe_log
  port_probe = do
    asset ← rnd_pick R assets
    port ← draw_int R 1024
    pure (port_probe_log asset port)

  module _ (sprint : ℕ → String) where
    unfoldable pub slow_query_log : ℕ → ℕ → RawLog
    unfolding join
    slow_query_log ms status = record {
      source = app;
      asset = "Internal-DB-01";
      fields =
          (
            "message",
            string_value (
                join "slow query took " (join (sprint (8000 + ms)) "ms: SELECT ... FROM payments")),
          )
          ∷ ("status", int_field status)
          ∷ ("tags", tagged Tag.db_query)
          ∷ [];
    }

    unfoldable pub slow_query : Draw R RawLog
    unfolding draw_int slow_query_log
    slow_query = do ms ← draw_int R 9000; status ← draw_int R 2; pure (slow_query_log ms status)

    -- The cases of the `switch` of `attackEvent`.
    unfoldable pub attack_of : ℕ → Draw R RawLog
    unfolding enumeration injection waf_hit failed_login upload slow_query port_probe
    attack_of k =
        if ltb k 2
        then enumeration
        else if k == 2
        then injection
        else if k == 3
        then waf_hit
        else if k == 4
        then failed_login
        else if k == 5
        then upload
        else if k == 6
        then slow_query
        else port_probe

    unfoldable pub attack_event : Draw R RawLog
    unfolding draw_int attack_of
    attack_event = draw_int R 8 >>= attack_of
