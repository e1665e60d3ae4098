-- ===== src/Alerts/Seed.antt =====
-- internal/alerts/service.go `SeedDemo`, over any store; `draw` gives the ids.
use Prim.Native.String.{◌++◌ as text_append}
use sentinel_api.Base.{
  ℕ, suc, ◌-◌, ◌*◌, ◌^◌, String, none, some, List, [], ◌∷◌, ◌≢◌, refl, All, All-append, Option, inl,
  inr,
}
use sentinel_api.Event.{Severity, critical, high, medium}
use sentinel_api.Alerts.Model.{
  Alert, resolved, ActionType, Resolution, unset, mitigated, false_positive, no_action,
}
use sentinel_api.Alerts.Service.{log_entry}
use sentinel_api.Alerts.Soundness.{IsSound}
use sentinel_api.Alerts.Store.{Store, Laws, Error, ok, err, Result-cases}

pub record Seed : Type 0 where
  pub rule : String
  pub title : String
  pub severity : Severity
  pub src_ip : String
  pub asset : String
  pub assignee : String
  pub resolution : Resolution
  pub mitre : List String
  pub confidence : ℕ
  pub created_min : ℕ
  pub resolved_min : ℕ

abbrev seed :
    String → String → Severity → String → String → String → Resolution → String → ℕ → ℕ → ℕ → Seed
seed rule title severity src_ip asset assignee resolution technique confidence created ended =
    record {
      rule = rule;
      title = title;
      severity = severity;
      src_ip = src_ip;
      asset = asset;
      assignee = assignee;
      resolution = resolution;
      mitre = technique ∷ [];
      confidence = confidence;
      created_min = created;
      resolved_min = ended;
    }

abbrev pub seeds : List Seed
seeds =
    seed "port-scan" "Sequential Port Scan" high "203.0.113.5" "api-gw-01" "" no_action "T1046" 87
      27 12
    ∷ seed "sqli" "SQLi Pattern" critical "198.51.100.45" "api-gw-01" "@s.johnson" mitigated "T1190"
        91 18 8
    ∷ seed "auth-brute" "Credential Brute Force" high "45.55.2.9" "auth-svc-01" "" mitigated "T1110"
        90 38 20
    ∷ seed "waf-block-spike" "WAF Block Spike" medium "185.220.101.30" "www-01" "@j.smith"
        false_positive "T1190" 85 18 5
    ∷ []

abbrev minute : ℕ
minute = 60 * 10 ^ 9

unfoldable pub seed_alert : String → ℕ → Seed → Alert
seed_alert new_id now sp =
    let created = now - sp.created_min * minute in
    let ended = now - sp.resolved_min * minute in
    record {
      id = new_id;
      rule_id = sp.rule;
      rule_key = text_append sp.src_ip (text_append "|" sp.asset);
      title = sp.title;
      severity = sp.severity;
      status = resolved;
      confidence = sp.confidence;
      mitre = sp.mitre;
      description = "";
      asset = sp.asset;
      src_ip = sp.src_ip;
      geo = none;
      count = 20;
      blocked_count = 0;
      unique_paths = 12;
      distinct_assets = 0;
      event_ids = [];
      started_at = created;
      last_seen_at = created;
      assignee = sp.assignee;
      assigned_at = none;
      status_changed_at = none;
      responded_at = some ended;
      resolved_at = some ended;
      resolution = sp.resolution;
      actions = log_entry ended "system" ActionType.mitigate "OPEN" "RESOLVED" "" ∷ [];
      extra = [];
      created_at = created;
    }

unfoldable pub seed_alerts : (ℕ → String) → ℕ → ℕ → List Seed → List Alert
unfolding seed_alert
seed_alerts draw now k [] = []
seed_alerts draw now k (sp ∷ sps) = seed_alert (draw k) now sp ∷ seed_alerts draw now (suc k) sps

has_resolution : All (λ sp. sp.resolution ≢ unset) seeds
has_resolution = ((λ e. cc), ((λ e. cc), ((λ e. cc), ((λ e. cc), tt))))

seed_alerts-IsSound :
    (draw : ℕ → String) (now k : ℕ) (sps : List Seed)
    → All (λ sp. sp.resolution ≢ unset) sps
    → All IsSound (seed_alerts draw now k sps)
unfolding seed_alerts
seed_alerts-IsSound draw now k [] h = tt
seed_alerts-IsSound draw now k (sp ∷ sps) h = (
  record { coherent = (tt, tt, h.0); trail = (refl, refl) },
  seed_alerts-IsSound draw now (suc k) sps h.1,
)

module _ (St : Store) where
  open St use {State, create}

  -- The first error ends the loop; what was created before it stays.
  unfoldable pub create_all : List Alert → State → State × Option Error
  create_all [] s = (s, none)
  create_all (a ∷ rest) s = elim (create a s) [ err e ↦ (s, some e) | ok s' ↦ create_all rest s' ]

  unfoldable pub seed_demo : (ℕ → String) → ℕ → State → State × Option Error
  unfolding create_all seed_alerts
  seed_demo draw now s = create_all (seed_alerts draw now 0 seeds) s

  module _ (L : Laws St) where
    create_all-IsSound :
        (new : List Alert) (s : State)
        → All IsSound new
        → L.IsValid s
        → All IsSound (L.contents s)
        → L.IsValid (create_all new s).0 × All IsSound (L.contents (create_all new s).0)
    unfolding create_all
    create_all-IsSound [] s n v h = (v, h)
    create_all-IsSound (a ∷ rest) s n v h = elim (Result-cases (create a s)) [
      | inl (s', e) ↦
          let (v', same) = L.create_ok a s s' v e in
          rw (create_all, e)
            (create_all-IsSound rest s' n.1 v'
              (rw same (All-append IsSound (L.contents s) (a ∷ []) h (n.0, tt))))
      | inr (x, e) ↦ rw (create_all, e) (v, h)
    ]

    -- Seeding keeps a lawful store valid and its alerts sound, also where an error ends it early.
    pub seed_demo-IsSound :
        (draw : ℕ → String) (now : ℕ) (s : State)
        → L.IsValid s
        → All IsSound (L.contents s)
        → L.IsValid (seed_demo draw now s).0 × All IsSound (L.contents (seed_demo draw now s).0)
    unfolding seed_demo
    seed_demo-IsSound draw now s v h =
        create_all-IsSound (seed_alerts draw now 0 seeds) s
          (seed_alerts-IsSound draw now 0 seeds has_resolution) v h
