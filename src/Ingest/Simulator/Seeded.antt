-- ===== src/Ingest/Simulator/Seeded.antt =====
-- internal/ingest/simulator.go: `seed` ends, and what its history holds.
use sentinel_api.Base.{
  ℕ, zero, suc, ◌+◌, ◌%◌, ◌<◌, String, true, false, some, List, [], ◌∷◌, ◌++◌, map, ◌≡◌, refl, sym,
  ◌∙◌, ap, arith, subst, inl, inr, length, All, All-append, All-map, ◌==◌,
}
use mathlib.Core.List.{append_assoc, append-nil}
use native.Mathlib.Nat.{mod-lt}
use sentinel_api.Base.{lookup}
use sentinel_api.Event.Tag
use sentinel_api.Ingest.Value.{RawLog}
use sentinel_api.Ingest.Simulator.Random.{Random, InRange, Draw, or_panic, ◌>>=◌, pure}
use sentinel_api.Ingest.Simulator.Traffic.{legit_request}
use sentinel_api.Ingest.Simulator.Pools.{sqli_payloads}
use sentinel_api.Ingest.Simulator.Yields.{
  Yields, Yields-pure, Yields-bind, Yields-map, int_any, pick_at, All-unit,
}
use sentinel_api.Ingest.Simulator.Kinds.{IsOrdinary, IsAttack, pooled, legit_request-IsOrdinary}
use sentinel_api.Ingest.Simulator.Ends.{IsTraffic}
use sentinel_api.Ingest.Simulator.History.{
  seed_paths, counted_from, repeated, cyclic, seed_probe_log, seed_scan_log, seed_injection_log,
  seed_waf_log, seed_login_log, seed_upload_log, seed_query_log, seed_probe, seed_scan,
  seed_attacks, seed_injections, seed_logins, seed_queries, seed_waf, seed_upload, send_each, seed,
}

-- The events of the computations were appended, one for each.
pub record Filed (P : RawLog → Type 0) (n : ℕ) (sent sent' : List RawLog) : Type 0 where
  pub raws : List RawLog
  pub appended : sent' ≡ sent ++ raws
  pub kinds : All P raws
  pub number : length raws ≡ n

module _ (R : Random) (range : InRange R) (assets : List String) (sprint : ℕ → String) where
  send_each-Filed :
      (P : RawLog → Type 0) (ms : List (Draw R RawLog)) (sent : List RawLog)
      → All (Yields R P) ms
      → Yields R (Filed P (length ms) sent) (send_each R assets sprint ms sent)
  unfolding send_each
  send_each-Filed P [] sent k =
      Yields-pure R (Filed P 0 sent) sent
        record { raws = []; appended = sym (append-nil sent); kinds = tt; number = refl }
  send_each-Filed P (m ∷ ms) sent k =
      Yields-bind R P (Filed P (suc (length ms)) sent) m _ k.0 (λ raw good.
        int_any R (Filed P (suc (length ms)) sent) 80 _ range (omega arith) (λ pause.
          Yields-map R (Filed P (length ms) (sent ++ raw ∷ [])) (Filed P (suc (length ms)) sent)
            (send_each R assets sprint ms (sent ++ raw ∷ []))
            (λ sent' f. record {
              raws = raw ∷ f.raws;
              appended = f.appended ∙ append_assoc sent (raw ∷ []) f.raws;
              kinds = (good, f.kinds);
              number = ap suc f.number;
            })
            (send_each-Filed P ms (sent ++ raw ∷ []) k.1)))

  cyclic-some :
      (items : List String) (i : ℕ) → 0 < length items → (x : String) × (cyclic items i ≡ some x)
  unfolding cyclic
  cyclic-some items i some_item =
      let (x, e, u) =
        pick_at R (λ x. Unit {0}) items (i % length items) (All-unit R items)
          (mod-lt i some_item) in
      let full : (length items == 0) ≡ false = ground arith in (x, rw full e)

  cycled :
      (items : List String) (i : ℕ) (log : String → RawLog)
      → 0 < length items
      → ((x : String) → IsAttack (log x))
      → Yields R IsAttack (or_panic R (cyclic items i) >>= λ x. pure (log x))
  cycled items i log some_item bad s =
      let (x, e) = cyclic-some items i some_item in (log x, s, rw e refl, bad x)

  All-of :
      (make : ℕ → Draw R RawLog) (i n : ℕ)
      → ((k : ℕ) → Yields R IsAttack (make k))
      → All (Yields R IsAttack) (map make (counted_from i n))
  unfolding counted_from
  All-of make i zero bad = tt
  All-of make i (suc n) bad = (bad i, All-of make (i + 1) n bad)

  All-repeated :
      (P : RawLog → Type 0) (n : ℕ) (m : Draw R RawLog)
      → Yields R P m
      → All (Yields R P) (repeated n m)
  unfolding repeated
  All-repeated P zero m good = tt
  All-repeated P (suc n) m good = (good, All-repeated P n m good)

  All-payloads :
      (payloads : List String)
      → All (Yields R IsAttack) (map (λ payload. pure (seed_injection_log payload)) payloads)
  unfolding seed_injection_log lookup
  All-payloads [] = tt
  All-payloads (x ∷ l) = (
    Yields-pure R IsAttack (seed_injection_log x)
        (pooled (seed_injection_log x) Tag.sqli "198.51.100.45" refl refl refl refl),
    All-payloads l,
  )

  seed_probe-IsAttack : (i : ℕ) → Yields R IsAttack (seed_probe R assets sprint i)
  unfolding seed_probe seed_probe_log lookup
  seed_probe-IsAttack i =
      cycled seed_paths i (seed_probe_log i) (omega arith)
        (λ path. pooled (seed_probe_log i path) Tag.scan "32.122.195.63" refl refl refl refl)

  seed_scan-IsAttack : 0 < length assets → (i : ℕ) → Yields R IsAttack (seed_scan R assets sprint i)
  unfolding seed_scan seed_scan_log lookup
  seed_scan-IsAttack h i =
      cycled assets i (seed_scan_log i) h
        (λ asset. pooled (seed_scan_log i asset) Tag.scan "203.0.113.5" refl refl refl refl)

  seed_waf_log-IsAttack : IsAttack seed_waf_log
  unfolding seed_waf_log lookup
  seed_waf_log-IsAttack = pooled seed_waf_log Tag.waf_block "185.220.101.30" refl refl refl refl

  seed_upload_log-IsAttack : IsAttack seed_upload_log
  unfolding seed_upload_log lookup
  seed_upload_log-IsAttack = pooled seed_upload_log Tag.webshell "104.223.8.19" refl refl refl refl

  seed_login_log-IsAttack : (i : ℕ) → IsAttack (seed_login_log i)
  unfolding seed_login_log lookup
  seed_login_log-IsAttack i =
      pooled (seed_login_log i) Tag.auth_failure "45.55.2.9" refl refl refl refl

  seed_query_log-IsAttack : (i : ℕ) → IsAttack (seed_query_log sprint i)
  unfolding seed_query_log lookup
  seed_query_log-IsAttack i = record {
    tag = Tag.db_query;
    has_tag = refl;
    is_known = refl;
    from_pool = inl refl;
  }

  seed_attacks-IsAttack : 0 < length assets → All (Yields R IsAttack) (seed_attacks R assets sprint)
  unfolding seed_attacks
  seed_attacks-IsAttack h =
      also (map (seed_probe R assets sprint) (counted_from 0 31)) after_probes
        (All-of (seed_probe R assets sprint) 0 31 seed_probe-IsAttack)
        (also (map (seed_scan R assets sprint) (counted_from 0 24)) after_scans
          (All-of (seed_scan R assets sprint) 0 24 (seed_scan-IsAttack h))
          (also (seed_injections R assets sprint) after_injections (All-payloads sqli_payloads) (
            also (repeated 12 (seed_waf R assets sprint)) after_waf
              (All-repeated IsAttack 12 (seed_waf R assets sprint)
                (Yields-pure R IsAttack seed_waf_log seed_waf_log-IsAttack))
              (also (seed_logins R assets sprint) after_logins
                (All-of (λ i. pure (seed_login_log i)) 0 14
                  (λ i. Yields-pure R IsAttack (seed_login_log i) (seed_login_log-IsAttack i)))
                (
                  Yields-pure R IsAttack seed_upload_log seed_upload_log-IsAttack,
                  All-of (λ i. pure (seed_query_log sprint i)) 0 9
                      (λ i.
                        Yields-pure R IsAttack (seed_query_log sprint i)
                          (seed_query_log-IsAttack i)),
                )))))
    where
      after_logins : List (Draw R RawLog)
      after_logins = seed_upload R assets sprint ∷ seed_queries R assets sprint

      after_waf : List (Draw R RawLog)
      after_waf = seed_logins R assets sprint ++ after_logins

      after_injections : List (Draw R RawLog)
      after_injections = repeated 12 (seed_waf R assets sprint) ++ after_waf

      after_scans : List (Draw R RawLog)
      after_scans = seed_injections R assets sprint ++ after_injections

      after_probes : List (Draw R RawLog)
      after_probes = map (seed_scan R assets sprint) (counted_from 0 24) ++ after_scans

      also :
          (xs ys : List (Draw R RawLog))
          → All (Yields R IsAttack) xs
          → All (Yields R IsAttack) ys
          → All (Yields R IsAttack) (xs ++ ys)
      also xs ys = All-append (Yields R IsAttack) xs ys

  seed_events-number :
      length (seed_attacks R assets sprint ++ repeated 60 (legit_request R assets)) ≡ 159
  unfolding seed_attacks counted_from repeated
  seed_events-number = refl

  -- With draws in their range and at least one asset, the history ends without a panic, and has sent
  -- 159 events, each an attack with its tag or an ordinary request without any.
  pub seed_ends :
      0 < length assets
      → (sent : List RawLog) → Yields R (Filed IsTraffic 159 sent) (seed R assets sprint true sent)
  unfolding seed
  seed_ends h sent =
      let all : All (Yields R IsTraffic)
          (seed_attacks R assets sprint ++ repeated 60 (legit_request R assets)) =
        All-append (Yields R IsTraffic) (seed_attacks R assets sprint)
          (repeated 60 (legit_request R assets))
          (All-map (λ m. Yields-map R IsAttack IsTraffic m (λ raw. inl))
            (seed_attacks R assets sprint) (seed_attacks-IsAttack h))
          (All-repeated IsTraffic 60 (legit_request R assets) (
            Yields-map R IsOrdinary IsTraffic (legit_request R assets) (λ raw. inr)
              (legit_request-IsOrdinary R range assets h))) in
      subst
        (λ n. Yields R (Filed IsTraffic n sent) (
          send_each R assets sprint
            (seed_attacks R assets sprint ++ repeated 60 (legit_request R assets)) sent))
        seed_events-number
        (send_each-Filed IsTraffic
          (seed_attacks R assets sprint ++ repeated 60 (legit_request R assets)) sent all)
