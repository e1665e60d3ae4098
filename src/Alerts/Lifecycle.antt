-- ===== src/Alerts/Lifecycle.antt =====
-- internal/alerts/service.go: the life of one alert under the bodies of `Assign`, `SetStatus`,
-- `Action` and `Merge`.
use sentinel_api.Base.{
  ℕ, String, true, false, Option, none, some, List, ◌≡◌, refl, ◌≢◌, ◌⊎◌, inl, inr, arith,
  str_eq_iff, Bool-cases, subst, Map,
}
use sentinel_api.Event.{NormalizedEvent}
use sentinel_api.Detect.Rule.{Rule, Outcome}
use sentinel_api.Alerts.Model.{
  Alert, Status, open_, assigned, in_progress, resolved, custom, ActionType, ExtraValue, mitigated,
  false_positive, Resolution, unset, is_active,
}
use sentinel_api.Alerts.Store.{Error, Result, ok, err}
use sentinel_api.Alerts.Merge.{merge, fresh_alert}
use sentinel_api.Alerts.Service.{
  is_resolved, after_assign, responded, close, check_target, first_or, assign_alert,
  set_status_alert, apply_action, action_alert,
}
use sentinel_api.Alerts.Soundness.{
  IsSome, Coherent, IsCoherent, IsSound, Evolves, Evolves-refl, Evolves-trans, Steps, ok-injective,
  Steps_of_append, Evolves-of,
}

not_resolved : (s : Status) → is_resolved s ≡ false → is_active s ≡ true
unfolding is_resolved is_active
not_resolved s h = ground arith

assigned-Coherent :
    (s : Status) (end response : Option ℕ) (how : Resolution) (who new : String)
    → new ≢ ""
    → is_resolved s ≡ false
    → Coherent s end response how who
    → Coherent (after_assign s) end response how new
unfolding is_resolved after_assign
assigned-Coherent open_ end response how who new n r c = (c.0, c.1, n)
assigned-Coherent assigned end response how who new n r c = (c.0, c.1, n)
assigned-Coherent in_progress end response how who new n r c = c
assigned-Coherent resolved end response how who new n r c = cc
assigned-Coherent (custom s) end response how who new n r c = c

-- An accepted assignment keeps the history and the alert sound.
pub assign_alert-Steps :
    (now at : ℕ) (assignee actor : String) (a : Alert)
    → assignee ≢ ""
    → Steps (assign_alert now at assignee actor) a
unfolding assign_alert
assign_alert-Steps now at assignee actor a n b h = elim (Bool-cases (is_resolved a.status)) [
  | inl r ↦ cc (rw r at h)
  | inr r ↦
      Steps_of_append at actor ActionType.assign _ a _ b (rw r at h) refl
        (Evolves-of a _ refl refl refl refl (λ _. not_resolved a.status r) (λ t e. e))
        (assigned-Coherent a.status _ _ _ _ assignee n r)
]

live_end :
    (s : Status) (end response : Option ℕ) (how : Resolution) (who : String)
    → is_resolved s ≡ false
    → Coherent s end response how who
    → (end ≡ none) × (how ≡ unset)
unfolding is_resolved
live_end open_ end response how who r c = c
live_end assigned end response how who r c = (c.0, c.1)
live_end in_progress end response how who r c = c
live_end resolved end response how who r c = cc
live_end (custom s) end response how who r c = absurd c

-- The target that the `switch` accepts suits an alert that is not resolved.
target-Coherent :
    (s : Status) (a : Alert)
    → check_target s a ≡ ok tt
    → (a.resolved_at ≡ none) × (a.resolution ≡ unset)
    → Coherent s a.resolved_at a.responded_at a.resolution a.assignee
unfolding check_target
target-Coherent open_ a h c = c
target-Coherent assigned a h c = (c.0, c.1, λ e. ground (arith, str_eq_iff a.assignee ""))
target-Coherent in_progress a h c = c
target-Coherent resolved a h c = cc
target-Coherent (custom s) a h c = cc

check_target-cases :
    (s : Status) (a : Alert)
    → (check_target s a ≡ ok tt) ⊎ ((e : Error) × (check_target s a ≡ err e))
check_target-cases s a = split (check_target s a)
  where
    split : (r : Result (Unit {0})) → (r ≡ ok tt) ⊎ ((e : Error) × (r ≡ err e))
    split (ok u) = inl refl
    split (err e) = inr (e, refl)

-- An accepted status change keeps the history and the alert sound.
pub set_status_alert-Steps :
    (now at : ℕ) (status : Status) (actor : String) (a : Alert)
    → Steps (set_status_alert now at status actor) a
unfolding set_status_alert
set_status_alert-Steps now at status actor a b h = elim (Bool-cases (is_resolved a.status)) [
  | inl r ↦ cc (rw r at h)
  | inr r ↦ elim (check_target-cases status a) [
    | inr (e, q) ↦ cc (rw (r, q) at h)
    | inl q ↦
        Steps_of_append at actor ActionType.start "" a _ b (rw (r, q) at h) refl
          (Evolves-of a _ refl refl refl refl (λ _. not_resolved a.status r) (λ t e. e))
          (λ c. target-Coherent status a q (live_end a.status _ _ _ a.assignee r c))
  ]
]

responded_kept : (o : Option ℕ) (now t : ℕ) → o ≡ some t → first_or o now ≡ some t
unfolding first_or
responded_kept o now t h = ground arith

responded-Coherent :
    (s : Status) (end response : Option ℕ) (how : Resolution) (who : String) (now : ℕ)
    → Coherent s end response how who
    → Coherent s end (first_or response now) how who
unfolding first_or
responded-Coherent open_ end response how who now c = c
responded-Coherent assigned end response how who now c = c
responded-Coherent in_progress end response how who now c = c
responded-Coherent resolved end none how who now c = (c.0, tt, c.2)
responded-Coherent resolved end (some t) how who now c = c
responded-Coherent (custom s) end response how who now c = c

IsSome-first_or : (o : Option ℕ) (now : ℕ) → IsSome (first_or o now)
unfolding first_or
IsSome-first_or none now = tt
IsSome-first_or (some t) now = tt

-- A change before the log entry is written.
abbrev Changes : Alert → Alert → Type 0
Changes a c = (c.actions ≡ a.actions) × Evolves a c × (IsCoherent a → IsCoherent c)

responded-Changes :
    (now : ℕ) (a : Alert) (x : Map ExtraValue) → Changes a (record (responded now a) { extra = x })
unfolding responded
responded-Changes now a x = (
  refl,
  Evolves-of a _ refl refl refl refl (λ h. h) (λ t e. responded_kept a.responded_at now t e),
  responded-Coherent a.status a.resolved_at a.responded_at a.resolution a.assignee now,
)

close-Changes : (now : ℕ) (how : Resolution) (a : Alert) → how ≢ unset → Changes a (close now how a)
unfolding close is_active
close-Changes now how a n = (
  refl,
  Evolves-of a _ refl refl refl refl (λ h. cc) (λ t e. responded_kept a.responded_at now t e),
  λ c. (tt, IsSome-first_or a.responded_at now, n),
)

Changes-refl : (a : Alert) → Changes a a
Changes-refl a = (refl, Evolves-refl a, λ c. c)

apply_action-Changes :
    (now : ℕ) (act : ActionType) (a c : Alert) → apply_action now act a ≡ ok c → Changes a c
unfolding apply_action
apply_action-Changes now act a c h = go act h
  where
    by : (b : Alert) → Changes a b → ok b ≡ ok c → Changes a c
    by b k e = subst (Changes a) (ok-injective e) k

    go : (act : ActionType) → apply_action now act a ≡ ok c → Changes a c
    go ActionType.investigate e = by _ (responded-Changes now a a.extra) e
    go ActionType.acknowledge e = by _ (responded-Changes now a a.extra) e
    go ActionType.respond e = by _ (responded-Changes now a a.extra) e
    go ActionType.block_ip e = by _ (responded-Changes now a _) e
    go ActionType.whitelist e = by _ (responded-Changes now a _) e
    go ActionType.mitigate e = by _ (close-Changes now mitigated a (λ q. cc)) e
    go ActionType.resolve e = by _ (close-Changes now mitigated a (λ q. cc)) e
    go ActionType.false_pos e = by _ (close-Changes now false_positive a (λ q. cc)) e
    go ActionType.comment e = by _ (Changes-refl a) e
    go _ e = cc

-- An accepted action keeps the history and the alert sound.
pub action_alert-Steps :
    (now at : ℕ) (act : ActionType) (note actor : String) (a : Alert)
    → Steps (action_alert now at act note actor) a
unfolding action_alert
action_alert-Steps now at act note actor a b h = go (apply_action now act a) refl
  where
    go : (r : Result Alert) → apply_action now act a ≡ r → Evolves a b × (IsSound a → IsSound b)
    go (err e) q = cc (rw q at h)
    go (ok c) q =
        let (same, ev, co) = apply_action-Changes now act a c q in
        Steps_of_append at actor act note a (record c { status_changed_at = some now }) b
          (rw q at h) same
          (Evolves-trans ev (Evolves-of c _ refl refl refl refl (λ x. x) (λ t e. e))) co

-- A merge keeps the history, and changes nothing that the lifecycle is about.
pub merge-Steps :
    (a : Alert) (r : Rule) (first last : NormalizedEvent) (o : Outcome) (ids : List String)
    → Evolves a (merge a r first last o ids) × (IsSound a → IsSound (merge a r first last o ids))
unfolding merge
merge-Steps a r first last o ids = (
  Evolves-of a _ refl refl refl refl (λ h. h) (λ t e. e),
  λ v. record { coherent = v.coherent; trail = v.trail },
)

-- A new alert is sound.
pub fresh_alert-IsSound :
    (i : String) (now : ℕ) (r : Rule) (first last : NormalizedEvent) (o : Outcome)
    (ids : List String)
    → IsSound (fresh_alert i now r first last o ids)
unfolding fresh_alert
fresh_alert-IsSound i now r first last o ids = record { coherent = (refl, refl); trail = refl }
