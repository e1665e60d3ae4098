-- ===== src/Ingest/Simulator/Pools.antt =====
-- internal/ingest/simulator.go: what the traffic is drawn from.
use sentinel_api.Base.{ℕ, ◌%◌, String, List, [], ◌∷◌, ◌++◌, pos, chars, text, ◌==◌, if◌then◌else◌}
use sentinel_api.Event.{Source, cloudflare, api_gateway, nginx}
use sentinel_api.Ingest.Value.{Value, int_value, string_list}

-- `+` on strings.
unfoldable pub join : String → String → String
join s t = text (chars s ++ chars t)

abbrev pub attacker_pool : List String
attacker_pool =
    "32.122.195.63" ∷ "203.0.113.5" ∷ "198.51.100.45" ∷ "185.220.101.30" ∷ "104.223.8.19"
    ∷ "45.55.2.9" ∷ "89.187.164.7" ∷ "91.108.4.12" ∷ []

abbrev pub enum_paths : List String
enum_paths =
    "/administrator" ∷ "/manage" ∷ "/wp-admin" ∷ "/admin" ∷ "/backup" ∷ "/backup.zip"
    ∷ "/phpmyadmin" ∷ "/wp-login.php" ∷ "/config.php" ∷ "/.git/HEAD" ∷ "/server-status" ∷ "/login"
    ∷ "/admin/login" ∷ "/api/admin" ∷ "/uploads" ∷ "/.env" ∷ "/private" ∷ "/internal" ∷ "/logs"
    ∷ "/console" ∷ "/shell.php" ∷ "/xmlrpc.php" ∷ "/wp-json" ∷ []

abbrev pub sqli_payloads : List String
sqli_payloads =
    "1' OR '1'='1" ∷ "' UNION SELECT username,password FROM users--" ∷ "1 AND SLEEP(5)"
    ∷ "' OR 1=1--" ∷ "%27%20OR%20%271%27%3D%271" ∷ "1; SELECT pg_sleep(5)--"
    ∷ "' UNION ALL SELECT 1,2,3--" ∷ "1' AND 'x'='x" ∷ []

abbrev pub shell_paths : List String
shell_paths =
    "/wp-content/uploads/shell.php" ∷ "/uploads/x.php" ∷ "/cgi-bin/cmd.sh" ∷ "/images/logo.jsp" ∷ []

abbrev pub legit_ips : List String
legit_ips =
    "41.60.12.7" ∷ "105.112.33.9" ∷ "197.210.44.8" ∷ "154.120.7.2" ∷ "102.88.10.4" ∷ "212.9.180.5"
    ∷ "162.159.36.10" ∷ "197.242.99.12" ∷ "102.140.0.4" ∷ "154.113.78.5" ∷ "81.199.15.2"
    ∷ "212.8.240.10" ∷ []

abbrev pub legit_paths : List String
legit_paths =
    "/" ∷ "/dashboard" ∷ "/api/v1/payments" ∷ "/api/v1/wallets" ∷ "/api/v1/auth/login"
    ∷ "/api/v1/transactions" ∷ "/api/v1/beneficiaries" ∷ "/api/v2/payouts" ∷ "/api/v2/collections"
    ∷ "/api/v1/rates" ∷ "/health" ∷ "/api/v1/cards" ∷ "/api/v1/settings" ∷ "/static/app.js"
    ∷ "/favicon.ico" ∷ []

abbrev pub legit_agents : List String
legit_agents =
    "Mozilla/5.0 (Windows NT 10.0; Win64; x64) AppleWebKit/537.36 Chrome/125.0 Safari/537.36"
    ∷ "Mozilla/5.0 (Macintosh; Intel Mac OS X 10_15_7) AppleWebKit/605.1.15 Safari/605.1.15"
    ∷ "Mozilla/5.0 (X11; Linux x86_64) Firefox/126.0"
    ∷ "Mozilla/5.0 (iPhone; CPU iPhone OS 17_5 like Mac OS X) Mobile Safari/604.1" ∷ "okhttp/4.12.0"
    ∷ "PostmanRuntime/7.37.0" ∷ "Stripe/1.0 (+https://stripe.com/docs/webhooks)"
    ∷ "Mozilla/5.0 (Linux; Android 14) Mobile Chrome/125.0" ∷ []

abbrev pub legit_sources : List Source
legit_sources = api_gateway ∷ api_gateway ∷ nginx ∷ cloudflare ∷ []

unfoldable pub root_or_admin : ℕ → String
root_or_admin i = if i % 3 == 0 then "root" else if i % 3 == 1 then "admin" else "deploy"

abbrev pub int_field : ℕ → Value
int_field n = int_value (pos n)

abbrev pub tagged : String → Value
tagged t = string_list (t ∷ [])
