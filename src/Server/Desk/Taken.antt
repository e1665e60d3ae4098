-- ===== src/Server/Desk/Taken.antt =====
-- internal/server/handlers.go: what `Assign` answers, and what it leaves in the store.
use Prim.Native.String.{◌++◌ as text_append}
use sentinel_api.Base.{
  ℕ, String, true, false, arith, some, [], ◌∷◌, ◌++◌, ◌≡◌, refl, ◌∙◌, ap, is_blank, str_eq,
  if◌then◌else◌,
}
use sentinel_api.Alerts.Model.{
  Alert, ActionType, Status, open_, assigned, in_progress, resolved, custom, is_active, status_text,
}
use sentinel_api.Alerts.Store.{Store, Laws, ok, find_alert}
use sentinel_api.Alerts.Service.{
  assign, modify, assign_alert, after_assign, is_resolved, append_action,
}
use sentinel_api.Alerts.Contents.{id-find_alert, find_alert-replace_alert}
use sentinel_api.Server.Desk.{replies, AssignBody, answer_call, assign_handler}

abbrev pub taken_status : Status → Status
taken_status s = elim s [ open_ ↦ assigned | in_progress ↦ in_progress | t ↦ t ]

-- The alert after an assignment: with the assignee, out of the open ones, and with a log entry by the
-- actor of the request, or by the console.
abbrev pub taken_by : AssignBody → ℕ → ℕ → Alert → Alert
taken_by b now at a = record a {
  assignee = b.assignee;
  assigned_at = some now;
  status = taken_status a.status;
  actions =
      a.actions
      ++ record {
        at = at;
        actor = if str_eq b.actor "" then "console" else b.actor;
        action = ActionType.assign;
        note = text_append "assigned to " b.assignee;
        from_state = status_text a.status;
        to_state = status_text (taken_status a.status);
      }
        ∷ [];
}

active-not_resolved : (s : Status) → is_active s ≡ true → is_resolved s ≡ false
unfolding is_active is_resolved
active-not_resolved s h = ground arith

taken_status_lem : (s : Status) → after_assign s ≡ taken_status s
unfolding after_assign
taken_status_lem open_ = refl
taken_status_lem assigned = refl
taken_status_lem in_progress = refl
taken_status_lem resolved = refl
taken_status_lem (custom s) = refl

module _ (St : Store) (L : Laws St) where
  taken_ok :
      (now at : ℕ) (b : AssignBody) (a : Alert)
      → is_active a.status ≡ true
      → assign_alert now at b.assignee (if str_eq b.actor "" then "console" else b.actor) a
        ≡ ok (taken_by b now at a)
  unfolding assign_alert append_action
  taken_ok now at b a live = rw (active-not_resolved a.status live, taken_status_lem a.status) refl

  -- On a valid store, if an assignment names an assignee and the store gives an active alert for its id
  -- and takes the update: the answer is the alert with the assignee, out of the open ones, and with a
  -- log entry by the actor of the request, or by the console; and that alert is then found under the
  -- id, and under every other id what was found there before.
  pub assign_handler_lem :
      (now at : ℕ) (i : String) (b : AssignBody) (s s' : St.State) (a : Alert)
      → L.IsValid s
      → is_blank b.assignee ≡ false
      → St.get i s ≡ ok a
      → is_active a.status ≡ true
      → St.update (taken_by b now at a) s ≡ ok s'
      → (assign_handler St now at i (some b) s ≡ (replies (taken_by b now at a), s'))
        × ((j : String)
            → find_alert j (L.contents s')
              ≡ (if str_eq i j then some (taken_by b now at a) else find_alert j (L.contents s)))
  unfolding assign_handler answer_call assign modify
  assign_handler_lem now at i b s s' a valid given found live up =
      let here = L.get_ok i s a valid found in
      (
        rw (given, found, taken_ok now at b a live, up) refl,
        λ j.
            ap (find_alert j) (L.update_ok (taken_by b now at a) s s' valid up).1
            ∙ find_alert-replace_alert i j a (taken_by b now at a) (L.contents s) here
                (id-find_alert i (L.contents s) a here),
      )
