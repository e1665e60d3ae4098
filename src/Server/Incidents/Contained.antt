-- ===== src/Server/Incidents/Contained.antt =====
-- internal/server/analysis_handlers.go: what containing an incident deploys.
use sentinel_api.Base.{
  ℕ, String, false, Option, none, some, List, [], ◌∷◌, ◌++◌, map, ◌≡◌, refl, ◌∙◌, All,
  if◌then◌else◌, any, str_eq, is_blank, insert, str_eq_self,
}
use sentinel_api.Alerts.Model.{Alert, ActionType, status_text, resolved, mitigated}
use sentinel_api.Alerts.Store.{Store, Result, ok, err}
use sentinel_api.Alerts.Service.{
  action, modify, action_alert, apply_action, close, responded, append_action, first_or,
}
use sentinel_api.Containment as Controls
use sentinel_api.Containment.{ControlType, invalid, Containment, Lifetime, Items, Status, deploy}
use sentinel_api.Server.Control.{action_for_control}
use sentinel_api.Server.Incidents.{
  Draw, ContainBody, World, record_action, after_deploy, contain_source, contain_found,
  contain_alerts,
}

-- No source twice, and none blank.
abbrev pub Distinct : List String → Type 0
Distinct [] = Unit
Distinct (x ∷ xs) = (is_blank x ≡ false) × (any (str_eq x) xs ≡ false) × Distinct xs

-- The controls with further ones, the newest first, each under its id.
abbrev pub with_all : List Containment → Items → Items
with_all [] items = items
with_all (c ∷ made) items = insert c.id c (with_all made items)

abbrev pub targets : List Containment → List String
targets made = map (λ c. c.target_ip) made

module _ (St : Store) (parse : String → Option Lifetime) (items : Items) where
  -- The alert of the store, at some time, that a control is for.
  abbrev pub IsFor : String → Type 0
  IsFor ip = (i : String) × (s : St.State) × (a : Alert) × (St.get i s ≡ ok a) × (a.src_ip ≡ ip)

  -- The controls are those before and active ones, made for each of the seen sources in turn; no
  -- source is seen twice, and each is that of an alert.
  abbrev pub IsOnce : World St → Type 0
  IsOnce w =
      Distinct w.seen
      × All IsFor w.seen
      × (made : List Containment) × (w.items ≡ with_all made items)
      × (targets made ≡ w.seen)
      × All (λ c. c.status ≡ Status.active) made

  abbrev Accepted : Controls.Result (Containment × Items) → Type 0
  Accepted (Controls.err e) = ⊥
  Accepted (Controls.ok r) = Unit

module _ (St : Store) (parse : String → Option Lifetime) where
  -- What `Action` makes of an alert to mitigate it for an unknown type of control.
  abbrev pub mitigated_by : ContainBody → Draw → Alert → Alert
  mitigated_by b d a = record a {
    status = resolved;
    resolution = mitigated;
    resolved_at = some d.now;
    responded_at = elim a.responded_at [ none ↦ some d.now | some t ↦ some t ];
    status_changed_at = some d.now;
    actions =
        a.actions
        ++ record {
          at = d.at;
          actor = if is_blank b.actor then "console" else b.actor;
          action = ActionType.mitigate;
          note = b.note;
          from_state = status_text a.status;
          to_state = "RESOLVED";
        }
          ∷ [];
  }

  first_or_same : (o : Option ℕ) (t : ℕ) → first_or o t ≡ elim o [ none ↦ some t | some u ↦ some u ]
  unfolding first_or
  first_or_same none t = refl
  first_or_same (some u) t = refl

  recorded :
      (b : ContainBody) (d : Draw) (j : String) (w : World St) (c : Alert) (s' : St.State)
      {s : String}
      → b.type ≡ invalid s
      → St.get j w.alerts ≡ ok c
      → St.update (mitigated_by b d c) w.alerts ≡ ok s'
      → record_action St b d j w ≡ record w { alerts = s' }
  unfolding record_action action modify action_alert apply_action close responded append_action
      action_for_control
  recorded b d j w c s' ty g up = rw (ty, g, first_or_same c.responded_at d.now, up) refl

  last_recorded :
      (b : ContainBody) (ids : List String) (draw : ℕ → Draw) (i j : String) (w : World St)
      (a c : Alert) {s : String}
      → b.type ≡ invalid s
      → St.get i w.alerts ≡ ok a
      → St.get j w.alerts ≡ ok c
      → is_blank a.src_ip ≡ false
      → c.src_ip ≡ a.src_ip
      → contain_alerts St parse b ids draw 0 (i ∷ j ∷ []) (record w { seen = [] })
        ≡ record_action St b (draw 1) j (record w { seen = a.src_ip ∷ [] })
  unfolding contain_alerts contain_found contain_source after_deploy deploy
  last_recorded b ids draw i j w a c ty f g n same = rw (f, n, ty, g, same, n, str_eq_self a.src_ip)

  -- Where the type of control is unknown, nothing is deployed for the source of two stored alerts, if it
  -- is not blank, and the first is left alone; but the second is resolved as mitigated, with a log entry
  -- of the action, as if its source were contained, if the store takes the update.
  pub contain_alerts-invalid :
      (b : ContainBody) (ids : List String) (draw : ℕ → Draw) (i j : String) (w : World St)
      (a c : Alert) (s' : St.State) {s : String}
      → b.type ≡ invalid s
      → St.get i w.alerts ≡ ok a
      → St.get j w.alerts ≡ ok c
      → is_blank a.src_ip ≡ false
      → c.src_ip ≡ a.src_ip
      → St.update (mitigated_by b (draw 1) c) w.alerts ≡ ok s'
      → contain_alerts St parse b ids draw 0 (i ∷ j ∷ []) (record w { seen = [] })
        ≡ record w { alerts = s'; seen = a.src_ip ∷ [] }
  contain_alerts-invalid b ids draw i j w a c s' ty f g n same up =
      last_recorded b ids draw i j w a c ty f g n same
      ∙ recorded b (draw 1) j (record w { seen = a.src_ip ∷ [] }) c s' ty g up
