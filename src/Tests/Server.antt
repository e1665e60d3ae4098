-- ===== src/Tests/Server.antt =====
-- internal/server: the pipeline over the in-memory store, and controls that are deployed.
use sentinel_api.Base.{
  ◌*◌, String, true, false, some, List, [], ◌∷◌, ◌≡◌, refl, lookup, insert, str_eq, if◌then◌else◌,
}
use sentinel_api.Containment.{Containment, Items, ok, block_ip, waf_rule, revoked, deploy}
use sentinel_api.Edge.{deny, Engine, new_engine, install, count_block, eval}
use sentinel_api.Edge.Verdict.{contained}
use sentinel_api.Store.Index.{memory_laws}
use sentinel_api.Server.Pipeline.{Arrival, new_pipeline, receive_all, passed}
use sentinel_api.Server.Pipeline.Invariant.{Healthy, pipeline_lem}
use sentinel_api.Server.Control.{edge_policy_for, deploy_control, revoke_control, with_policy}
use sentinel_api.Server.Control.Effects.{deploy_blocks, deploy_waf_inert, revoke_deploy}
use sentinel_api.Server.Desk.{AssignBody, replies, assign_handler}
use sentinel_api.Server.Desk.Taken.{taken_by, assign_handler_lem}
use sentinel_api.Alerts.Store.{find_alert}
use sentinel_api.Alerts.Merge.{fresh_alert}
use sentinel_api.Store.Memory.{MemoryStore, memory_store, get, update, update_at}
use sentinel_api.Alerts.Model.{is_active}
use sentinel_api.Tests.Fixtures.{second_ns, event_at, probe, alert_one, one_alert}
use sentinel_api.Tests.Alerts.{
  one_alert-IsIndexed, one_alert-IsSound, one_alert-IsDeduplicated, memory-no_failure,
}
use sentinel_api.Tests.Edge.{in_order, in_order-Complete}
use sentinel_api.Tests.Containment.{an_hour, block}

abbrev arrival : String → Arrival
arrival i = record {
  ev = event_at i (101 * second_ns) "9.9.9.9" ("sqli" ∷ []);
  now = 101 * second_ns;
  draw = λ r. ("a3", 9);
}

abbrev arrivals : List Arrival
arrivals = arrival "x" ∷ arrival "y" ∷ arrival "z" ∷ []

pipeline_lem_example :
    Healthy memory_store memory_laws in_order
      (passed memory_store in_order arrivals (new_pipeline memory_store in_order one_alert))
      (receive_all memory_store in_order arrivals (new_pipeline memory_store in_order one_alert))
pipeline_lem_example =
    pipeline_lem memory_store memory_laws in_order one_alert arrivals memory-no_failure
      (one_alert-IsIndexed, one_alert-IsSound, one_alert-IsDeduplicated)

abbrev waf_control : Containment
waf_control = record block { type = waf_rule }

abbrev blocking : Engine
blocking = install (edge_policy_for block) new_engine

abbrev shielding : Engine
shielding = install (edge_policy_for waf_control) new_engine

deploy_blocks_example :
    eval in_order 200 probe blocking ≡ (true, contained deny probe, count_block deny blocking)
unfolding deploy_control deploy insert with_policy
deploy_blocks_example =
    deploy_blocks an_hour 100 "c1" "9.9.9.9" "" "1h" "" "" [] [] new_engine block
      (("c1", block) ∷ []) blocking refl refl in_order 200 probe in_order-Complete refl refl

deploy_waf_inert_example : eval in_order 200 probe shielding ≡ (false, probe, shielding)
unfolding deploy_control deploy insert with_policy new_engine
deploy_waf_inert_example =
    deploy_waf_inert an_hour 100 "c1" "9.9.9.9" "" "1h" "" "" [] [] new_engine waf_control
      (("c1", waf_control) ∷ []) shielding refl refl in_order 200 probe in_order-Complete refl refl
      refl

revoke_deploy_example :
    (c : Containment) × (items : Items) × (e : Engine) × (revoke_control 300 "c1"
        (("c1", block) ∷ [])
        blocking
      ≡ ok (c, items, e))
    × (c.status ≡ revoked)
    × ((j : String) → lookup j e.policies ≡ lookup j new_engine.policies)
unfolding deploy_control deploy insert with_policy new_engine lookup
revoke_deploy_example =
    revoke_deploy an_hour 100 "c1" "9.9.9.9" "" "1h" "" "" [] [] new_engine block_ip block
      (("c1", block) ∷ []) blocking 300 refl refl refl

-- Three events of one second, and one an hour later.

abbrev taking : AssignBody
taking = record { assignee = "mo"; actor = "" }

abbrev taken_one : MemoryStore
taken_one = record one_alert { created = taken_by taking 9 10 alert_one ∷ [] }

assign_handler_lem_example :
    (assign_handler memory_store 9 10 "a1" (some taking) one_alert
      ≡ (replies (taken_by taking 9 10 alert_one), taken_one))
    × ((j : String)
        → find_alert j taken_one.created ≡ (
            if str_eq "a1" j
            then some (taken_by taking 9 10 alert_one)
            else find_alert j (alert_one ∷ [])))
unfolding get update update_at lookup fresh_alert is_active
assign_handler_lem_example =
    assign_handler_lem memory_store memory_laws 9 10 "a1" taking one_alert taken_one alert_one
      one_alert-IsIndexed refl refl refl refl
