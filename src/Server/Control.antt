-- ===== src/Server/Control.antt =====
-- internal/server/analysis_handlers.go: `edgePolicyFor`, `actionForControl`, and what deploying and
-- revoking a control changes, in the controls and at the edge. The request is already decoded; the
-- actions on the alerts that it names are in Server/Deployment.
pub mod Effects
use sentinel_api.Base.{ℕ, String, Option, List, is_blank, if◌then◌else◌}
use sentinel_api.Alerts.Model.{ActionType, block_ip as block_action, mitigate}
use sentinel_api.Containment.{
  ControlType, block_ip, rate_limit, waf_rule, invalid, Containment, Result, ◌>>=◌, ok, err,
  Lifetime, Items, deploy, revoke,
}
use sentinel_api.Edge.{Kind, Policy, Engine, install, remove}

abbrev pub kind_for : ControlType → Kind
kind_for block_ip = Kind.deny
kind_for rate_limit = Kind.rate_limit
kind_for waf_rule = Kind.waf
kind_for (invalid s) = Kind.deny

unfoldable pub edge_policy_for : Containment → Policy
edge_policy_for c = record {
  source_id = c.id;
  kind = kind_for c.type;
  target_ip = c.target_ip;
  enforcement = c.enforcement;
  rate_per_sec = 0;
  burst = 0;
  expires_at = c.expires_at;
}

unfoldable pub action_for_control : ControlType → ActionType
action_for_control block_ip = block_action
action_for_control _ = mitigate

abbrev pub or_text : String → String → String
or_text s d = if is_blank s then d else s

unfoldable pub with_policy : Engine → Containment × Items → Result (Containment × Items × Engine)
with_policy e (c, items) = ok (c, items, install (edge_policy_for c) e)

-- `DeployContainment`: an error changes nothing.
unfoldable pub deploy_control :
    (String → Option Lifetime)
    → ℕ
    → String
    → ControlType
    → String
    → String
    → String
    → String
    → String
    → List String
    → Items
    → Engine
    → Result (Containment × Items × Engine)
unfolding with_policy
deploy_control parse now new_id type target direction duration enforcement note ids items e =
    deploy parse now new_id type target (or_text direction "Inbound") (or_text duration "24h")
      enforcement note ids items
    >>= with_policy e

-- `RevokeContainment`
unfoldable pub revoke_control : ℕ → String → Items → Engine → Result (Containment × Items × Engine)
revoke_control now i items e = do (c, items') ← revoke now i items; ok (c, items', remove c.id e)
