-- ===== src/Analysis/Incidents.antt =====
-- internal/analysis/analysis.go: `GroupIncidents` and `buildIncident`. A digest of a key, SHA-1, is a
-- parameter, as is the order in which Go walks a set (`walk`), and as is `sort.Slice`, which leaves
-- the order of equal elements open.
pub mod Groups
pub mod Deadlines
use Prim.Native.String.{◌++◌ as text_append}
use sentinel_api.Base.{
  ℕ, ◌+◌, ◌*◌, ◌^◌, String, Bool, true, false, not, ◌&&◌, ◌||◌, Option, none, some, List, [], ◌∷◌,
  ◌++◌, str_eq, is_blank, ltb, ◌==◌, length, any, Map, lookup, insert, if◌then◌else◌,
}
use sentinel_api.Event.{Severity, unknown}
use sentinel_api.Alerts.Model.{
  Alert, Status, open_, assigned, in_progress, resolved, custom, is_active,
}
use sentinel_api.Analysis.Chain.{Chain, build_chain, sev_rank, raise_severity, earlier_of, later_of}

abbrev minute : ℕ
minute = 60 * 10 ^ 9

abbrev pub ttr_target : ℕ
ttr_target = 15 * minute

abbrev pub ttm_target : ℕ
ttm_target = 120 * minute

-- `TTRTarget` and `TTMTarget` are the constants' texts, "15m0s" and "2h0m0s".
pub record SlaMetrics : Type 0 where
  pub ttr_target_text : String
  pub ttm_target_text : String
  pub ttr_deadline : ℕ
  pub ttm_deadline : ℕ
  pub ttr_assigned : Bool
  pub ttm_breached : Bool
  pub ttr_breached : Bool
  pub contained : Bool

-- `none` is the empty status.
pub record Incident : Type 0 where
  pub id : String
  pub src_ip : String
  pub asset : String
  pub severity : Severity
  pub status : Option Status
  pub alert_ids : List String
  pub count : ℕ
  pub assets : List String
  pub techniques : List String
  pub chain : Chain
  pub first_seen : ℕ
  pub last_seen : ℕ
  pub sla : SlaMetrics
  pub contained : Bool

unfoldable pub incident_key : Alert → String
incident_key a =
    if not (is_blank a.src_ip) then text_append "ip:" a.src_ip else text_append "asset:" a.asset

unfoldable pub has_active : List Alert → Bool
has_active group = any (λ a. is_active a.status) group

-- The switch over the alert's status, with the incident's so far. Neither is RESOLVED here.
next_status : Status → Option Status → Option Status
next_status in_progress s = some in_progress
next_status assigned (some in_progress) = some in_progress
next_status assigned s = some assigned
next_status a none = some open_
next_status a (some s) = some s

abbrev is_resolved : Option Status → Bool
is_resolved (some resolved) = true
is_resolved s = false

unfoldable pub merge_status : Status → Option Status → Option Status
unfolding next_status is_active
merge_status a s = if not (is_resolved s) && is_active a then next_status a s else s

-- What the first loop collects, apart from the two sets.
pub record Summary : Type 0 where
  pub alert_ids : List String
  pub severity : Severity
  pub src_ip : String
  pub asset : String
  pub first_seen : ℕ
  pub last_seen : ℕ
  pub status : Option Status

abbrev first_text : String → String → String
first_text old new = if is_blank old && not (is_blank new) then new else old

unfoldable pub summarise : List Alert → Summary → Summary
unfolding merge_status raise_severity
summarise [] s = s
summarise (a ∷ group) s = summarise group (record {
  alert_ids = s.alert_ids ++ a.id ∷ [];
  severity = raise_severity a.severity s.severity;
  src_ip = first_text s.src_ip a.src_ip;
  asset = first_text s.asset a.asset;
  first_seen = earlier_of a.started_at s.first_seen;
  last_seen = later_of a.last_seen_at s.last_seen;
  status = merge_status a.status s.status;
})

abbrev pub no_summary : Summary
no_summary = record {
  alert_ids = [];
  severity = unknown "";
  src_ip = "";
  asset = "";
  first_seen = 0;
  last_seen = 0;
  status = none;
}

-- The sets of assets and of rule ids, as maps to 1.
unfoldable pub text_set : (Alert → String) → List Alert → Map ℕ → Map ℕ
text_set f [] m = m
text_set f (a ∷ group) m = text_set f group (insert (f a) 1 m)

abbrev is_taken_status : Status → Bool
is_taken_status assigned = true
is_taken_status in_progress = true
is_taken_status resolved = true
is_taken_status _ = false

abbrev pub is_taken : Alert → Bool
is_taken a = is_taken_status a.status

abbrev is_some : Option ℕ → Bool
is_some none = false
is_some (some t) = true

abbrev pub is_ended : Alert → Bool
is_ended a = is_some a.resolved_at

-- The second loop and the two tests after it.
unfoldable pub sla_of : List Alert → ℕ → ℕ → SlaMetrics
sla_of group first_seen now =
    let taken = any is_taken group in
    let ended = any is_ended group in
    record {
      ttr_target_text = "15m0s";
      ttm_target_text = "2h0m0s";
      ttr_deadline = first_seen + ttr_target;
      ttm_deadline = first_seen + ttm_target;
      ttr_assigned = taken;
      ttm_breached = not ended && ltb (first_seen + ttm_target) now;
      ttr_breached = not taken && ltb (first_seen + ttr_target) now;
      contained = ended;
    }

abbrev with_new : Option (List Alert) → List String → String → List String
with_new none order k = order ++ k ∷ []
with_new (some g) order k = order

-- The append to `groups[key]`, and to `order` if the key is new.
abbrev or_nil : Option (List Alert) → List Alert
or_nil none = []
or_nil (some g) = g

unfoldable pub file_alert : Alert → List String × Map (List Alert) → List String × Map (List Alert)
file_alert a (order, groups) = (
  with_new (lookup (incident_key a) groups) order (incident_key a),
  insert (incident_key a) (or_nil (lookup (incident_key a) groups) ++ a ∷ []) groups,
)

unfoldable pub file_alerts :
    List Alert → List String × Map (List Alert) → List String × Map (List Alert)
unfolding file_alert
file_alerts [] st = st
file_alerts (a ∷ alerts) st = file_alerts alerts (file_alert a st)

unfoldable pub incident_before : Incident → Incident → Bool
incident_before x y =
    if not (sev_rank x.severity == sev_rank y.severity)
    then ltb (sev_rank y.severity) (sev_rank x.severity)
    else ltb y.last_seen x.last_seen

abbrev pub add_incident : Option Incident → List Incident → List Incident
add_incident none out = out
add_incident (some i) out = i ∷ out

unfoldable pub find_incident : String → List Incident → Option Incident
find_incident i [] = none
find_incident i (inc ∷ incs) =
    let rest = find_incident i incs in if str_eq inc.id i then some inc else rest

module _ (digest : String → String) (walk : Map ℕ → List String) where
  unfoldable pub incident_id : String → String
  incident_id key = text_append "INC-" (digest key)

  -- The group is `first ∷ rest`: `group[0]` is read.
  unfoldable pub build_incident : Alert → List Alert → ℕ → Incident
  unfolding summarise text_set sla_of incident_id
  build_incident first rest now =
      let group = first ∷ rest in
      let s = summarise group no_summary in
      record {
        id = incident_id (incident_key first);
        src_ip = s.src_ip;
        asset = s.asset;
        severity = s.severity;
        status = s.status;
        alert_ids = s.alert_ids;
        count = length group;
        assets = walk (text_set (λ a. a.asset) group []);
        techniques = walk (text_set (λ a. a.rule_id) group []);
        chain = build_chain group;
        first_seen = s.first_seen;
        last_seen = s.last_seen;
        sla = sla_of group s.first_seen now;
        contained = false;
      }

  -- `continue` for a group with no active alert, the empty one included.
  unfoldable pub incident_of : List Alert → ℕ → Option Incident
  incident_of [] now = none
  incident_of (a ∷ group) now =
      if has_active (a ∷ group) then some (build_incident a group now) else none

  -- The loop over `order`.
  unfoldable pub collect_incidents : List String → Map (List Alert) → ℕ → List Incident
  unfolding incident_of
  collect_incidents [] groups now = []
  collect_incidents (k ∷ order) groups now =
      add_incident (incident_of (or_nil (lookup k groups)) now) (collect_incidents order groups now)

  module _ (sort : (Incident → Incident → Bool) → List Incident → List Incident) where
    unfoldable pub group_incidents : List Alert → ℕ → List Incident
    unfolding file_alerts collect_incidents
    group_incidents alerts now =
        let (order, groups) = file_alerts alerts ([], []) in
        sort incident_before (collect_incidents order groups now)

    unfoldable pub incident_by_id : List Alert → String → ℕ → Option Incident
    unfolding find_incident group_incidents
    incident_by_id alerts i now = find_incident i (group_incidents alerts now)
