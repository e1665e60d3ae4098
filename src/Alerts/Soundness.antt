-- ===== src/Alerts/Soundness.antt =====
-- internal/alerts/service.go: what a sound alert is, and how an alert may change.
use sentinel_api.Base.{
  ℕ, String, true, Option, none, some, List, [], ◌∷◌, ◌++◌, ◌≡◌, refl, sym, ap, ◌≢◌, ◌∙◌, subst,
}
use mathlib.Core.List.{append-nil, append_assoc}
use sentinel_api.Alerts.Model.{
  Alert, Status, open_, assigned, in_progress, resolved, custom, ActionType, ActionLog, Resolution,
  unset, status_text, is_active,
}
use sentinel_api.Alerts.Store.{Result, ok}
use sentinel_api.Alerts.Service.{log_entry, append_action}

-- The log entries lead from one status text to another, each from where the last one ended.
abbrev pub Trail : String → List ActionLog → String → Type 0
Trail s [] t = s ≡ t
Trail s (x ∷ xs) t = (x.from_state ≡ s) × Trail x.to_state xs t

Trail-append :
    (s t : String) (xs : List ActionLog) (x : ActionLog)
    → Trail s xs t
    → x.from_state ≡ t
    → Trail s (xs ++ x ∷ []) x.to_state
Trail-append s t [] x h e = (e ∙ sym h, refl)
Trail-append s t (y ∷ xs) x h e = (h.0, Trail-append y.to_state t xs x h.1 e)

abbrev pub IsSome : Option ℕ → Type 0
IsSome none = ⊥
IsSome (some a) = Unit {0}

-- What the status says of the resolution time, the first response, the resolution and the assignee.
abbrev pub Coherent : Status → Option ℕ → Option ℕ → Resolution → String → Type 0
Coherent open_ end response how who = (end ≡ none) × (how ≡ unset)
Coherent assigned end response how who = (end ≡ none) × (how ≡ unset) × (who ≢ "")
Coherent in_progress end response how who = (end ≡ none) × (how ≡ unset)
Coherent resolved end response how who = IsSome end × IsSome response × (how ≢ unset)
Coherent (custom s) end response how who = ⊥

abbrev pub IsCoherent : Alert → Type 0
IsCoherent a = Coherent a.status a.resolved_at a.responded_at a.resolution a.assignee

-- The log accounts for the status, from OPEN on.
pub record IsSound (a : Alert) : Type 0 where
  pub coherent : IsCoherent a
  pub trail : Trail "OPEN" a.actions (status_text a.status)

-- What an operation may not undo.
pub record Evolves (a b : Alert) : Type 0 where
  pub same_id : b.id ≡ a.id
  pub same_rule : b.rule_id ≡ a.rule_id
  pub same_key : b.rule_key ≡ a.rule_key
  pub no_reopen : is_active b.status ≡ true → is_active a.status ≡ true
  pub first_response : (t : ℕ) → a.responded_at ≡ some t → b.responded_at ≡ some t
  pub append_only : (new : List ActionLog) × (b.actions ≡ a.actions ++ new)

pub Evolves-refl : (a : Alert) → Evolves a a
Evolves-refl a = record {
  same_id = refl;
  same_rule = refl;
  same_key = refl;
  no_reopen = λ h. h;
  first_response = λ t h. h;
  append_only = ([], sym (append-nil a.actions));
}

pub Evolves-trans : {a b c : Alert} → Evolves a b → Evolves b c → Evolves a c
Evolves-trans {a} p q = record {
  same_id = q.same_id ∙ p.same_id;
  same_rule = q.same_rule ∙ p.same_rule;
  same_key = q.same_key ∙ p.same_key;
  no_reopen = λ h. p.no_reopen (q.no_reopen h);
  first_response = λ t h. q.first_response t (p.first_response t h);
  append_only = (
    p.append_only.0 ++ q.append_only.0,
    q.append_only.1
        ∙ ap (λ l. l ++ q.append_only.0) p.append_only.1
        ∙ append_assoc a.actions p.append_only.0 q.append_only.0,
  );
}

module _ (at : ℕ) (actor : String) (act : ActionType) (note : String) where
  append_action-Evolves :
      (from to : String) (a b : Alert)
      → Evolves a b
      → Evolves a (append_action at b actor act from to note)
  unfolding append_action
  append_action-Evolves from to a b v = record {
    same_id = v.same_id;
    same_rule = v.same_rule;
    same_key = v.same_key;
    no_reopen = v.no_reopen;
    first_response = v.first_response;
    append_only = (
      v.append_only.0 ++ entry ∷ [],
      ap (λ l. l ++ entry ∷ []) v.append_only.1
          ∙ append_assoc a.actions v.append_only.0 (entry ∷ []),
    );
  }
    where
      entry : ActionLog
      entry = log_entry at actor act from to note

  append_action-IsSound :
      (from : String) (b : Alert)
      → IsCoherent b
      → Trail "OPEN" b.actions from
      → IsSound (append_action at b actor act from (status_text b.status) note)
  unfolding append_action
  append_action-IsSound from b c t = record {
    coherent = c;
    trail = Trail-append "OPEN" from b.actions _ t refl;
  }

-- What an operation's body on a found alert guarantees, when it accepts.
abbrev pub Steps : (Alert → Result Alert) → Alert → Type 0
Steps f a = (b : Alert) → f a ≡ ok b → Evolves a b × (IsSound a → IsSound b)

pub ok-injective : {a b : Alert} → ok a ≡ ok b → a ≡ b
ok-injective h = cc

pub Steps_of_append :
    (at : ℕ) (actor : String) (act : ActionType) (note : String) (a c b : Alert)
    → ok (append_action at c actor act (status_text a.status) (status_text c.status) note) ≡ ok b
    → c.actions ≡ a.actions
    → Evolves a c
    → (IsCoherent a → IsCoherent c)
    → Evolves a b × (IsSound a → IsSound b)
Steps_of_append at actor act note a c b h same ev co =
    subst (λ x. Evolves a x × (IsSound a → IsSound x)) (ok-injective h)
      (
        append_action-Evolves at actor act note _ _ a c ev,
        λ v.
            append_action-IsSound at actor act note (status_text a.status) c (co v.coherent)
              (rw same v.trail),
      )

-- A change that leaves the identity and the log alone.
pub Evolves-of :
    (a c : Alert)
    → c.id ≡ a.id
    → c.rule_id ≡ a.rule_id
    → c.rule_key ≡ a.rule_key
    → c.actions ≡ a.actions
    → (is_active c.status ≡ true → is_active a.status ≡ true)
    → ((t : ℕ) → a.responded_at ≡ some t → c.responded_at ≡ some t)
    → Evolves a c
Evolves-of a c i r k l n f = record {
  same_id = i;
  same_rule = r;
  same_key = k;
  no_reopen = n;
  first_response = f;
  append_only = ([], l ∙ sym (append-nil a.actions));
}
