-- ===== src/Tests/Analysis.antt =====
-- internal/analysis/analysis.go: one alert of the injection rule, and the chain and incident it makes.
use sentinel_api.Base.{
  ℕ, Bool, String, List, [], ◌∷◌, map, ◌≡◌, refl, arith, All, Map, any, length, count_if, true,
  false, slice_stable-IsSorted, slice_stable-perm, slice_stable, same_text, to_lower, if◌then◌else◌,
}
use mathlib.Core.List.{Permᴰ}
use sentinel_api.Alerts.Model.{Alert}
use sentinel_api.Detect.Rules.{rules, sqli_rule}
use sentinel_api.Detect.Scans.{dir_enum_rule, port_scan_rule}
use sentinel_api.Alerts.Merge.{fresh_alert}
use sentinel_api.Analysis.Phase.{initial_access, phase_order}
use sentinel_api.Analysis.Chain.{build_chain}
use sentinel_api.Analysis.Chain.Partition.{IsEntry, count_in, reached, build_chain_lem}
use sentinel_api.Analysis.Chain.Own.{own_chain_lem}
use sentinel_api.Analysis.Indicators.{tools, tool_confidence}
use sentinel_api.Analysis.Indicators.Tools.{tool_confidence_lem}
use sentinel_api.Analysis.Incidents.{Incident, incident_before, group_incidents, build_incident}
use sentinel_api.Analysis.Incidents.Groups.{
  incidents_for, keys_of, Ranked, Sorts, group_incidents_lem,
}
use sentinel_api.Analysis.Incidents.Deadlines.{Describes, build_incident_lem}
use sentinel_api.Tests.Fixtures.{alert_one}

abbrev pub two_alerts : List Alert
two_alerts = alert_one ∷ record alert_one { id = "a2" } ∷ []

-- The names of a set in the order in which they were added.
abbrev pub names : Map ℕ → List String
names m = map (λ e. e.0) m

abbrev pub same_key : String → String
same_key k = k

build_chain_lem_example :
    ((t : Alert → Bool) → count_in t (build_chain two_alerts).phases ≡ count_if t two_alerts)
    × ((build_chain two_alerts).total_alerts ≡ length two_alerts)
    × All IsEntry (build_chain two_alerts).phases
    × (map (λ cp. cp.phase) (build_chain two_alerts).phases ≡ reached phase_order two_alerts)
build_chain_lem_example = build_chain_lem two_alerts

own_chain_lem_example : map (λ cp. cp.phase) (build_chain two_alerts).phases ≡ initial_access ∷ []
unfolding rules dir_enum_rule port_scan_rule sqli_rule fresh_alert
own_chain_lem_example =
    own_chain_lem alert_one (record alert_one { id = "a2" } ∷ []) (refl, (refl, tt))

tool_confidence_lem_example :
    tool_confidence "sqlmap/1.7"
    ≡ (if any (λ t. same_text (to_lower t) (to_lower "sqlmap/1.7")) tools then 95 else 70)
tool_confidence_lem_example = tool_confidence_lem "sqlmap/1.7"

incident_before_asym : (x y : Incident) → incident_before x y ≡ true → incident_before y x ≡ false
unfolding incident_before
incident_before_asym x y h = ground arith

incident_before_trans :
    (x y z : Incident)
    → incident_before y x ≡ false
    → incident_before z y ≡ false
    → incident_before z x ≡ false
unfolding incident_before
incident_before_trans x y z h k = ground arith

slice_stable-Sorts : Sorts slice_stable
slice_stable-Sorts l = (
  slice_stable-IsSorted incident_before incident_before_asym incident_before_trans l,
  slice_stable-perm incident_before l,
)

group_incidents_lem_example :
    Ranked (group_incidents same_key names slice_stable two_alerts 500)
    × Permᴰ
        (group_incidents same_key names slice_stable two_alerts 500)
        (incidents_for same_key names (keys_of two_alerts) two_alerts 500)
group_incidents_lem_example =
    group_incidents_lem same_key names slice_stable two_alerts 500 slice_stable-Sorts

build_incident_lem_example :
    Describes two_alerts 500
      (build_incident same_key names alert_one (record alert_one { id = "a2" } ∷ []) 500)
unfolding fresh_alert
build_incident_lem_example =
    build_incident_lem same_key names alert_one (record alert_one { id = "a2" } ∷ []) 500
      (omega arith, (omega arith, tt))
