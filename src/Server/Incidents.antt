-- ===== src/Server/Incidents.antt =====
-- internal/server/analysis_handlers.go: the handlers of incidents, over any store of alerts. A request
-- is already decoded. `visit` is the order in which the controls are walked, and `digest`, `walk` and
-- `sort` are those of `GroupIncidents`. A clock reading, a new id and the time of the log entry are
-- drawn for each alert, by its place in the incident.
pub mod Contained
pub mod Gone
use sentinel_api.Base.{
  ℕ, suc, String, Bool, true, false, not, ◌&&◌, ◌||◌, Option, none, some, List, [], ◌∷◌, ◌++◌, pos,
  Map, any, filter, str_eq, is_blank, if◌then◌else◌,
}
use sentinel_api.Alerts.Model.{Alert, Filter, ActionType}
use sentinel_api.Alerts.Store.{Store, Result, ok, err}
use sentinel_api.Alerts.Service.{assign, action, list_alerts}
use sentinel_api.Containment as Controls
use sentinel_api.Containment.{ControlType, Containment, Lifetime, Items, Status, deploy, list}
use sentinel_api.Edge.{Engine, install}
use sentinel_api.Analysis.Incidents.{Incident, incident_by_id, group_incidents}
use sentinel_api.Analysis.Chain.{Chain, build_chain}
use sentinel_api.Server.Control.{edge_policy_for, action_for_control, or_text}

pub record Draw : Type 0 where
  pub now : ℕ
  pub at : ℕ
  pub new_id : String

-- The body of a request to contain an incident.
pub record ContainBody : Type 0 where
  pub type : ControlType
  pub direction : String
  pub duration : String
  pub enforcement : String
  pub note : String
  pub actor : String

abbrev pub is_active_status : Status → Bool
is_active_status Status.active = true
is_active_status _ = false

-- `failed` is a panic, which the router's recover turns into a 500.
pub data Answer : Type 0 where
  bad_request not_found failed : Answer
  answered : Incident → Answer

unfoldable pub is_related : Alert → Alert → Bool
is_related a x =
    (not (is_blank a.src_ip) && str_eq x.src_ip a.src_ip)
    || (is_blank a.src_ip && str_eq x.asset a.asset)

abbrev all_filter : Filter
all_filter = record {
  status = "";
  severity = "";
  asset = "";
  assignee = "";
  rule_id = "";
  query = "";
  limit = pos 500;
  offset = pos 0;
}

-- `incidentContained`: some control of the source is active; the controls are resolved by the look.
unfoldable pub incident_contained : (Items → List Containment) → ℕ → Incident → Items → Bool × Items
incident_contained visit now inc items =
    let (found, items') = list visit now inc.src_ip items in
    if is_blank inc.src_ip
    then (false, items)
    else (any (λ c. is_active_status c.status) found, items')

-- An error gives no alerts.
abbrev or_no_alerts : Result (List Alert) → List Alert
or_no_alerts (ok l) = l
or_no_alerts (err e) = []

module _ (St : Store) where
  open St use {State, get}

  -- The alerts, the controls and the edge; `seen` holds the sources for which `IncidentContain` has
  -- called `Deploy`.
  pub record World : Type 0 where
    pub alerts : State
    pub items : Items
    pub gate : Engine
    pub seen : List String

  -- `allAlerts`. An offset of 0 is never out of range.
  unfoldable pub all_alerts : State → List Alert
  all_alerts s = elim (list_alerts St all_filter s) [ none ↦ [] | some r ↦ or_no_alerts r ]

  unfoldable pub alerts_for_source : Alert → State → List Alert
  unfolding is_related all_alerts
  alerts_for_source a s = filter (is_related a) (all_alerts s)

  abbrev pub kept_state : State → Result (Alert × State) → State
  kept_state s (err e) = s
  kept_state s (ok (a, s')) = s'

  -- The call of `Action`, whose error is only logged.
  unfoldable pub record_action : ContainBody → Draw → String → World → World
  unfolding action_for_control
  record_action b d i w = record w {
    alerts = kept_state w.alerts (
        action St d.now d.at i (action_for_control b.type) b.note (or_text b.actor "console")
          w.alerts);
  }

  -- A refusal of `Deploy` is logged, and ends the turn of this alert.
  unfoldable pub after_deploy :
      ContainBody → Draw → String → World → Controls.Result (Containment × Items) → World
  unfolding record_action edge_policy_for
  after_deploy b d i w (Controls.err e) = w
  after_deploy b d i w (Controls.ok (c, items')) =
      record_action b d i (record w { items = items'; gate = install (edge_policy_for c) w.gate })

  module _ (parse : String → Option Lifetime) where
    -- `Deploy` for a source that is seen for the first time.
    unfoldable pub contain_source :
        ContainBody → List String → Draw → String → String → World → World
    unfolding after_deploy
    contain_source b ids d i ip w =
        after_deploy b d i (record w { seen = ip ∷ w.seen })
          (deploy parse d.now d.new_id b.type ip b.direction (or_text b.duration "24h")
            b.enforcement b.note ids w.items)

    unfoldable pub contain_found :
        ContainBody → List String → Draw → String → Result Alert → World → World
    unfolding contain_source record_action
    contain_found b ids d i (err e) w = w
    contain_found b ids d i (ok a) w =
        if not (is_blank a.src_ip) && not (any (str_eq a.src_ip) w.seen)
        then contain_source b ids d i a.src_ip w
        else record_action b d i w

    -- The loop over `inc.AlertIDs`; `ids` are all of them.
    unfoldable pub contain_alerts :
        ContainBody → List String → (ℕ → Draw) → ℕ → List String → World → World
    unfolding contain_found
    contain_alerts b ids draw k [] w = w
    contain_alerts b ids draw k (i ∷ rest) w =
        contain_alerts b ids draw (suc k) rest (contain_found b ids (draw k) i (get i w.alerts) w)

  unfoldable pub assign_alerts : (ℕ → Draw) → String → String → ℕ → List String → State → State
  assign_alerts draw assignee actor k [] s = s
  assign_alerts draw assignee actor k (i ∷ rest) s =
      assign_alerts draw assignee actor (suc k) rest
        (kept_state s (assign St (draw k).now (draw k).at i assignee actor s))

  module _ (digest : String → String) (walk : Map ℕ → List String)
      (sort : (Incident → Incident → Bool) → List Incident → List Incident)
      (visit : Items → List Containment) where
    -- The end of both handlers: the incident as it is now. If it is gone, `incidentContained` reads
    -- through a nil pointer.
    unfoldable pub answer_incident : ℕ → String → World → Answer × World
    unfolding incident_contained all_alerts
    answer_incident now i w = elim (incident_by_id digest walk sort (all_alerts w.alerts) i now) [
      | none ↦ (failed, w)
      | some inc ↦
          let (contained, items') = incident_contained visit now inc w.items in
          (answered (record inc { contained = contained }), record w { items = items' })
    ]

    unfoldable pub incident_contain :
        (String → Option Lifetime)
        → ContainBody
        → (ℕ → Draw)
        → ℕ
        → ℕ
        → String
        → World
        → Answer × World
    unfolding contain_alerts answer_incident
    incident_contain parse b draw t0 t1 i w =
        elim (incident_by_id digest walk sort (all_alerts w.alerts) i t0) [
          | none ↦ (not_found, w)
          | some inc ↦
              answer_incident t1 inc.id
                (contain_alerts parse b inc.alert_ids draw 0 inc.alert_ids (record w { seen = [] }))
        ]

    unfoldable pub incident_assign :
        String → String → (ℕ → Draw) → ℕ → ℕ → String → World → Answer × World
    unfolding assign_alerts answer_incident
    incident_assign assignee actor draw t0 t1 i w =
        elim (incident_by_id digest walk sort (all_alerts w.alerts) i t0) [
          | none ↦ (if is_blank assignee then bad_request else not_found, w)
          | some inc ↦
              if is_blank assignee
              then (bad_request, w)
              else answer_incident t1 inc.id (record w {
                alerts =
                    assign_alerts draw assignee (or_text actor "console") 0 inc.alert_ids w.alerts;
              })
        ]
