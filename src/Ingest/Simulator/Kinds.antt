-- ===== src/Ingest/Simulator/Kinds.antt =====
-- internal/ingest/simulator.go: what an ordinary request and an attack look like to the detection
-- rules and the edge.
use sentinel_api.Base.{
  ℕ, ◌<◌, String, Bool, true, false, none, some, List, [], ◌∷◌, ◌≡◌, refl, arith, length, All,
  lookup, any, str_eq, ◌⊎◌, inl, inr, ltb, ◌==◌,
}
use sentinel_api.Event.Tag
use sentinel_api.Ingest.Value.{string_value, RawLog}
use sentinel_api.Ingest.Simulator.Random.{Random, InRange, Draw, draw_int, rnd_pick, ◌>>=◌}
use sentinel_api.Ingest.Simulator.Traffic.{
  legit_request, enumeration, injection, waf_hit, failed_login, upload, slow_query, port_probe,
  attack_of, attack_event, legit_request_log, enumeration_log, injection_log, waf_hit_log,
  failed_login_log, upload_log, port_probe_log, slow_query_log,
}
use sentinel_api.Ingest.Simulator.Pools.{
  attacker_pool, enum_paths, sqli_payloads, shell_paths, legit_ips, legit_paths, legit_agents,
  legit_sources, tagged,
}
use sentinel_api.Ingest.Simulator.Yields.{
  Yields, Yields-pure, Yields-bind, Yields-pick, pick_any, int_any, float_any, if_yields,
}

abbrev is_attacker : String → Bool
is_attacker ip = any (λ s. str_eq s ip) attacker_pool

-- An ordinary request has no tags, and comes from an address outside the attackers' pool.
pub record IsOrdinary (raw : RawLog) : Type 0 where
  pub no_tags : lookup "tags" raw.fields ≡ none
  pub no_tag : lookup "tag" raw.fields ≡ none
  pub no_labels : lookup "labels" raw.fields ≡ none
  pub source : String
  pub from_source : lookup "ip" raw.fields ≡ some (string_value source)
  pub harmless : is_attacker source ≡ false

abbrev traffic_tags : List String
traffic_tags =
    Tag.scan ∷ Tag.sqli ∷ Tag.waf_block ∷ Tag.auth_failure ∷ Tag.webshell ∷ Tag.db_query ∷ []

-- An attack has exactly one tag, of those that the rules read, and comes from an address of the
-- attackers' pool or, as a slow query does, from none.
pub record IsAttack (raw : RawLog) : Type 0 where
  pub tag : String
  pub has_tag : lookup "tags" raw.fields ≡ some (tagged tag)
  pub is_known : any (λ t. str_eq t tag) traffic_tags ≡ true
  pub from_pool :
      (lookup "ip" raw.fields ≡ none)
      ⊎ ((ip : String) × (lookup "ip" raw.fields ≡ some (string_value ip))
          × (is_attacker ip ≡ true))

none_of :
    {A : Type 0} (p : A → Bool) (items : List A)
    → any p items ≡ false
    → All (λ x. p x ≡ false) items
none_of p [] h = tt
none_of p (x ∷ items) h = ground (arith, none_of p items)

-- An attack from an address of the pool.
abbrev pub pooled :
    (raw : RawLog) (tag ip : String)
    → lookup "tags" raw.fields ≡ some (tagged tag)
    → lookup "ip" raw.fields ≡ some (string_value ip)
    → any (λ t. str_eq t tag) traffic_tags ≡ true
    → is_attacker ip ≡ true
    → IsAttack raw
pooled raw tag ip has from known bad = record {
  tag = tag;
  has_tag = has;
  is_known = known;
  from_pool = inr (ip, from, bad);
}

module _ (R : Random) (range : InRange R) (assets : List String) (h : 0 < length assets) where
  pub legit_request-IsOrdinary : Yields R IsOrdinary (legit_request R assets)
  unfolding legit_request legit_request_log lookup
  legit_request-IsOrdinary = float_any R IsOrdinary _ (λ m. float_any R IsOrdinary _ (λ r.
      pick_any R IsOrdinary legit_sources _ range (omega arith) (λ source.
        pick_any R IsOrdinary assets _ range h (λ asset.
          Yields-bind R (λ ip. is_attacker ip ≡ false) IsOrdinary (rnd_pick R legit_ips) _
            (Yields-pick R _ legit_ips range (omega arith) (none_of is_attacker legit_ips refl))
            (λ ip ok. pick_any R IsOrdinary legit_paths _ range (omega arith) (λ path.
              pick_any R IsOrdinary legit_agents _ range (omega arith) (λ agent.
                Yields-pure R IsOrdinary (legit_request_log R assets m r source asset ip path agent)
                  record {
                    no_tags = refl;
                    no_tag = refl;
                    no_labels = refl;
                    source = ip;
                    from_source = refl;
                    harmless = ok;
                  })))))))

  abbrev some_asset :
      (next : String → Draw R RawLog)
      → ((asset : String) → Yields R IsAttack (next asset))
      → Yields R IsAttack (rnd_pick R assets >>= next)
  some_asset next f = pick_any R IsAttack assets next range h f

  abbrev attack_pick :
      (items : List String) (next : String → Draw R RawLog)
      → 0 < length items
      → ((x : String) → Yields R IsAttack (next x))
      → Yields R IsAttack (rnd_pick R items >>= next)
  attack_pick items next k f = pick_any R IsAttack items next range k f

  abbrev attack_int :
      (n : ℕ) (next : ℕ → Draw R RawLog)
      → 0 < n
      → ((k : ℕ) → Yields R IsAttack (next k))
      → Yields R IsAttack (draw_int R n >>= next)
  attack_int n next k f = int_any R IsAttack n next range k f

  enumeration-IsAttack : Yields R IsAttack (enumeration R assets)
  unfolding enumeration enumeration_log lookup
  enumeration-IsAttack = attack_int 3 _ (omega arith) (λ k. some_asset _ (λ asset.
      attack_pick enum_paths _ (omega arith) (λ path.
        Yields-pure R IsAttack (enumeration_log R assets k asset path) (
          pooled (enumeration_log R assets k asset path) Tag.scan "32.122.195.63" refl refl refl
            refl))))

  injection-IsAttack : Yields R IsAttack (injection R assets)
  unfolding injection injection_log lookup
  injection-IsAttack = some_asset _ (λ asset. attack_pick sqli_payloads _ (omega arith) (λ payload.
      Yields-pure R IsAttack (injection_log R assets asset payload) (
        pooled (injection_log R assets asset payload) Tag.sqli "198.51.100.45" refl refl refl
          refl)))

  waf_hit-IsAttack : Yields R IsAttack (waf_hit R assets)
  unfolding waf_hit waf_hit_log lookup
  waf_hit-IsAttack = some_asset _ (λ asset. attack_pick enum_paths _ (omega arith) (λ path.
      Yields-pure R IsAttack (waf_hit_log R assets asset path) (
        pooled (waf_hit_log R assets asset path) Tag.waf_block "185.220.101.30" refl refl refl
          refl)))

  failed_login-IsAttack : Yields R IsAttack (failed_login R assets)
  unfolding failed_login failed_login_log lookup
  failed_login-IsAttack = attack_int 8 _ (omega arith) (λ i. attack_int 80 _ (omega arith) (λ port.
      Yields-pure R IsAttack (failed_login_log R assets i port) (
        pooled (failed_login_log R assets i port) Tag.auth_failure "45.55.2.9" refl refl refl
          refl)))

  upload-IsAttack : Yields R IsAttack (upload R assets)
  unfolding upload upload_log lookup
  upload-IsAttack = attack_pick shell_paths _ (omega arith) (λ path.
      Yields-pure R IsAttack (upload_log R assets path)
        (pooled (upload_log R assets path) Tag.webshell "104.223.8.19" refl refl refl refl))

  port_probe-IsAttack : Yields R IsAttack (port_probe R assets)
  unfolding port_probe port_probe_log lookup
  port_probe-IsAttack = some_asset _ (λ asset. attack_int 1024 _ (omega arith) (λ port.
      Yields-pure R IsAttack (port_probe_log R assets asset port)
        (pooled (port_probe_log R assets asset port) Tag.scan "203.0.113.5" refl refl refl refl)))

  slow_query-IsAttack : (sprint : ℕ → String) → Yields R IsAttack (slow_query R assets sprint)
  unfolding slow_query slow_query_log lookup
  slow_query-IsAttack sprint = attack_int 9000 _ (omega arith) (λ ms.
      attack_int 2 _ (omega arith) (λ status.
        Yields-pure R IsAttack (slow_query_log R assets sprint ms status)
          record { tag = Tag.db_query; has_tag = refl; is_known = refl; from_pool = inl refl }))

  attack_of-IsAttack :
      (sprint : ℕ → String) (k : ℕ) → Yields R IsAttack (attack_of R assets sprint k)
  unfolding attack_of
  attack_of-IsAttack sprint k = if_yields R (ltb k 2) enumeration-IsAttack (
      if_yields R (k == 2) injection-IsAttack (
        if_yields R (k == 3) waf_hit-IsAttack (
          if_yields R (k == 4) failed_login-IsAttack (
            if_yields R (k == 5) upload-IsAttack
              (if_yields R (k == 6) (slow_query-IsAttack sprint) port_probe-IsAttack)))))

  pub attack_event-IsAttack :
      (sprint : ℕ → String) → Yields R IsAttack (attack_event R assets sprint)
  unfolding attack_event
  attack_event-IsAttack sprint = attack_int 8 _ (omega arith) (attack_of-IsAttack sprint)
