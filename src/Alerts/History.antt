-- ===== src/Alerts/History.antt =====
-- internal/alerts/service.go: every history of calls on the service, over any lawful store.
use sentinel_api.Base.{
  ℕ, String, Option, none, some, List, [], ◌∷◌, ◌≡◌, ◌≢◌, ◌⊎◌, inl, inr, arith, sym, subst,
  str_eq_iff, is_blank, Bool-cases, All,
}
use sentinel_api.Event.{NormalizedEvent}
use sentinel_api.Detect.Rule.{Rule, Outcome, key}
use sentinel_api.Alerts.Model.{Alert, Status, ActionType}
use sentinel_api.Alerts.Store.{
  Error, not_found, Result, ok, err, Store, Laws, Result-cases, Error-cases, find_alert,
  find_active,
}
use sentinel_api.Alerts.Merge.{merge, fresh_alert}
use sentinel_api.Alerts.Service.{
  modify, assign, set_status, action, logged, ingest_into, last_of, ingest,
}
use sentinel_api.Alerts.Soundness.{IsSound, Evolves, Evolves-refl, Evolves-trans, Steps}
use sentinel_api.Alerts.Lifecycle.{
  assign_alert-Steps, set_status_alert-Steps, action_alert-Steps, merge-Steps, fresh_alert-IsSound,
}
use sentinel_api.Alerts.Effects.{
  Effect, unchanged, changed, added, Effect-IsSound, Effect-Evolves, Effect-IsDeduplicated,
  IsDeduplicated,
}

-- A call on the service, with the clock readings and the drawn id that it uses.
pub data Call : Type 0 where
  assigns : (now at : ℕ) (i assignee actor : String) → Call
  sets : (now at : ℕ) (i : String) (status : Status) (actor : String) → Call
  acts : (now at : ℕ) (i : String) (act : ActionType) (note actor : String) → Call
  ingests :
      (new_id : String) (now : ℕ) (r : Rule) (first : NormalizedEvent) (rest : List NormalizedEvent)
      (o : Outcome)
      → Call

module _ (St : Store) (L : Laws St) where
  open St use {State, create, get, update, find_open}
  open L use {IsValid, contents, create_ok, get_ok, update_ok, find_open_ok, find_open_missing}

  -- The outcome of a call: an error leaves the store as it was.
  unfoldable pub after : State → Result (Alert × State) → State
  after s (ok (b, s')) = s'
  after s (err e) = s

  unfoldable pub or_same : State → Option State → State
  or_same s none = s
  or_same s (some s') = s'

  unfoldable pub step : Call → State → State
  unfolding after or_same
  step (assigns now at i assignee actor) s = after s (assign St now at i assignee actor s)
  step (sets now at i status actor) s = after s (set_status St now at i status actor s)
  step (acts now at i act note actor) s = after s (action St now at i act note actor s)
  step (ingests new_id now r first rest o) s = or_same s (ingest St new_id now r (first ∷ rest) o s)

  unfoldable pub run : List Call → State → State
  run [] s = s
  run (c ∷ cs) s = run cs (step c s)

  -- A lookup of an open alert that failed for another reason than a missing alert.
  abbrev pub Failure : Type 0
  Failure =
      (rule : String) × (k : String) × (s : State) × (e : Error) × (find_open rule k s ≡ err e)
      × (e ≢ not_found)

  abbrev pub Good : State → State → Type 0
  Good s s' = IsValid s' × Effect Failure (contents s) (contents s')

  update-Good :
      (i : String) (a b : Alert) (s s' : State)
      → IsValid s
      → find_alert i (contents s) ≡ some a
      → Evolves a b × (IsSound a → IsSound b)
      → update b s ≡ ok s'
      → Good s s'
  update-Good i a b s s' v f (ev, so) u =
      let (v', e) = update_ok b s s' v u in
      (v', subst (Effect Failure (contents s)) (sym e) (changed i a b f ev so))

  modify-Good :
      (i : String) (f : Alert → Result Alert) (s : State)
      → IsValid s
      → ((a : Alert) → Steps f a)
      → Good s (after s (modify St i f s))
  unfolding modify after
  modify-Good i f s v st = elim (Result-cases (get i s)) [
    | inr (e, q) ↦ rw q (v, unchanged)
    | inl (a, q) ↦ elim (Result-cases (f a)) [
      | inr (e, p) ↦ rw (q, p) (v, unchanged)
      | inl (b, p) ↦ elim (Result-cases (update b s)) [
        | inr (e, u) ↦ rw (q, p, u) (v, unchanged)
        | inl (s', u) ↦ rw (q, p, u) (update-Good i a b s s' v (get_ok i s a v q) (st a b p) u)
      ]
    ]
  ]

  create-Good :
      (b : Alert) (s s' : State)
      → IsValid s
      → IsSound b
      → (find_active b.rule_id b.rule_key (contents s) ≡ none) ⊎ Failure
      → create b s ≡ ok s'
      → Good s s'
  create-Good b s s' v so m c =
      let (v', e) = create_ok b s s' v c in
      (v', subst (Effect Failure (contents s)) (sym e) (added b so m))

  missed :
      (rule k : String) (s : State) (e : Error)
      → IsValid s
      → find_open rule k s ≡ err e
      → (find_active rule k (contents s) ≡ none) ⊎ Failure
  missed rule k s e v h = elim (Error-cases e) [
    | inl q ↦ inl (find_open_missing rule k s v (subst (λ x. find_open rule k s ≡ err x) q h))
    | inr q ↦ inr (rule, k, s, e, h, q)
  ]

  ingest_into-Good :
      (new_id : String) (now : ℕ) (r : Rule) (first last : NormalizedEvent) (ids : List String)
      (o : Outcome) (s : State)
      → IsValid s
      → Good s (ingest_into St (find_open r.id (key r first) s) new_id now r first last ids o s)
  unfolding ingest_into logged
  ingest_into-Good new_id now r first last ids o s v =
      elim (Result-cases (find_open r.id (key r first) s)) [
        | inl (a, q) ↦ elim (Result-cases (update (merge a r first last o ids) s)) [
          | inr (e, u) ↦ rw (q, u) (v, unchanged)
          | inl (s', u) ↦
              rw (q, u)
                (update-Good a.id a _ s s' v (find_open_ok r.id (key r first) s a v q).1
                  (merge-Steps a r first last o ids) u)
        ]
        | inr (e, q) ↦ elim (Result-cases (create (fresh_alert new_id now r first last o ids) s)) [
          | inr (x, u) ↦ rw (q, u) (v, unchanged)
          | inl (s', u) ↦
              rw (q, u)
                (create-Good _ s s' v (fresh_alert-IsSound new_id now r first last o ids)
                  (unfold fresh_alert in missed r.id (key r first) s e v q) u)
        ]
      ]

  -- Every call keeps the store valid, and has one of the effects on its alerts.
  step-Good : (c : Call) (s : State) → IsValid s → Good s (step c s)
  unfolding step assign set_status action ingest
  step-Good (assigns now at i assignee actor) s v = elim (Bool-cases (is_blank assignee)) [
    | inl b ↦ rw b (v, unchanged)
    | inr b ↦ rw b (
        modify-Good i _ s v (λ a.
          assign_alert-Steps now at assignee actor a (λ h. ground (arith, str_eq_iff assignee ""))))
  ]
  step-Good (sets now at i status actor) s v =
      modify-Good i _ s v (λ a. set_status_alert-Steps now at status actor a)
  step-Good (acts now at i act note actor) s v =
      modify-Good i _ s v (λ a. action_alert-Steps now at act note actor a)
  step-Good (ingests new_id now r first rest o) s v =
      ingest_into-Good new_id now r first (last_of first rest) _ o s v

  pub run-IsValid : (cs : List Call) (s : State) → IsValid s → IsValid (run cs s)
  unfolding run
  run-IsValid [] s v = v
  run-IsValid (c ∷ cs) s v = run-IsValid cs (step c s) (step-Good c s v).0

  -- After any calls on a valid store every alert is sound, if all were before: its log leads from
  -- OPEN to its status, it has a resolution time, a first response and a resolution once it is
  -- RESOLVED and no resolution before, and an ASSIGNED one has an assignee.
  pub run-IsSound :
      (cs : List Call) (s : State)
      → IsValid s
      → All IsSound (contents s)
      → All IsSound (contents (run cs s))
  unfolding run
  run-IsSound [] s v h = h
  run-IsSound (c ∷ cs) s v h =
      let (v', e) = step-Good c s v in run-IsSound cs (step c s) v' (Effect-IsSound Failure e h)

  -- No calls on a valid store lose an alert, rewrite its log or its first response, or reopen it
  -- once it is RESOLVED.
  pub run-Evolves :
      (cs : List Call) (s : State) (i : String) (a : Alert)
      → IsValid s
      → find_alert i (contents s) ≡ some a
      → (b : Alert) × (find_alert i (contents (run cs s)) ≡ some b) × Evolves a b
  unfolding run
  run-Evolves [] s i a v f = (a, f, Evolves-refl a)
  run-Evolves (c ∷ cs) s i a v f =
      let (v', e) = step-Good c s v in
      let (b, g, p) = Effect-Evolves Failure i a e f in
      let (d, h, q) = run-Evolves cs (step c s) i b v' g in (d, h, Evolves-trans p q)

  -- If a lookup of an open alert fails only for want of one, then after any calls on a valid store
  -- there is at most one active alert for each rule and key, if that was so before.
  pub run-IsDeduplicated :
      (cs : List Call) (s : State)
      → ¬ Failure
      → IsValid s
      → IsDeduplicated (contents s)
      → IsDeduplicated (contents (run cs s))
  unfolding run
  run-IsDeduplicated [] s n v h = h
  run-IsDeduplicated (c ∷ cs) s n v h =
      let (v', e) = step-Good c s v in
      run-IsDeduplicated cs (step c s) n v' (Effect-IsDeduplicated Failure n e h)
