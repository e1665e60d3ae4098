-- ===== src/Server/Deployment.antt =====
-- internal/server/analysis_handlers.go: `DeployContainment` with the actions on the alerts that the
-- request names.
use sentinel_api.Base.{ℕ, suc, String, Option, List, [], ◌∷◌}
use sentinel_api.Alerts.Model.{ActionType}
use sentinel_api.Alerts.Store.{Store}
use sentinel_api.Alerts.Service.{action}
use sentinel_api.Containment.{ControlType, Containment, Lifetime, Items, Result, ok, err}
use sentinel_api.Edge.{Engine}
use sentinel_api.Server.Control.{deploy_control, action_for_control}
use sentinel_api.Server.Incidents.{Draw, kept_state}

-- The body of a request to deploy a control.
pub record DeployBody : Type 0 where
  pub type : ControlType
  pub target_ip : String
  pub direction : String
  pub duration : String
  pub enforcement : String
  pub note : String
  pub alert_ids : List String

module _ (St : Store) where
  open St use {State}

  -- The calls of `Action`, whose errors are only logged.
  unfoldable pub act_on_alerts : (ℕ → Draw) → ActionType → String → ℕ → List String → State → State
  act_on_alerts draw act note k [] s = s
  act_on_alerts draw act note k (i ∷ rest) s =
      act_on_alerts draw act note (suc k) rest
        (kept_state St s (action St (draw k).now (draw k).at i act note "console" s))

  -- The alerts change only if the control is deployed.
  unfoldable pub act_if_deployed :
      (ℕ → Draw)
      → DeployBody
      → State
      → Result (Containment × Items × Engine)
      → Result (Containment × Items × Engine) × State
  unfolding act_on_alerts
  act_if_deployed draw b s (err e) = (err e, s)
  act_if_deployed draw b s (ok (c, items, e)) =
      (ok (c, items, e), act_on_alerts draw (action_for_control c.type) b.note 0 b.alert_ids s)

  unfoldable pub deploy_containment :
      (String → Option Lifetime)
      → Draw
      → (ℕ → Draw)
      → DeployBody
      → Items
      → Engine
      → State
      → Result (Containment × Items × Engine) × State
  unfolding deploy_control act_if_deployed
  deploy_containment parse d draw b items e s = act_if_deployed draw b s (
      deploy_control parse d.now d.new_id b.type b.target_ip b.direction b.duration b.enforcement
        b.note b.alert_ids items e)
