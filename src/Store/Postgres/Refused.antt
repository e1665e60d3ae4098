-- ===== src/Store/Postgres/Refused.antt =====
-- internal/store/postgres.go: `Update` sends an argument that its statement does not name, and what
-- follows for the alert service (internal/alerts/service.go).
use sentinel_api.Base.{
  ℕ, String, List, [], ◌∷◌, ◌++◌, ◌≡◌, ◌⊎◌, refl, arith, some, inl, inr, is_blank, Bool-cases,
}
use sentinel_api.Event.{NormalizedEvent}
use sentinel_api.Detect.Rule.{Rule, Outcome, key}
use sentinel_api.Alerts.Model.{Alert, Status, ActionType}
use sentinel_api.Alerts.Store.{Result, err, backend, Error, Result-cases}
use sentinel_api.Alerts.Service.{assign, set_status, action, ingest, ingest_into, logged, modify}
use sentinel_api.Store.Postgres.Sql.{text_value, update_alert, named}
use sentinel_api.Store.Postgres.Row.{Codec, row_args}
use sentinel_api.Store.Postgres.Session.{Database, get, update, find_open, postgres_store}
use sentinel_api.Store.Postgres.Documented.{Dialect, Documented}

module _ (D : Database) (d : Dialect) (w : Documented D d) (codec : Codec) where
  -- The database refuses every Update of an alert: the id is the first argument, and `$1` is nowhere
  -- in the statement.
  pub update_refused :
      (a : Alert) (s : D.State) → (e : String) × (update D codec a s ≡ err (backend e))
  unfolding update row_args update_alert named
  update_refused a s =
      let args = row_args codec a ++ text_value a.id ∷ [] in
      let (e, h) = w.undetermined update_alert args s 0 (omega arith) refl in rw h (_, refl)

  -- A call returns an error.
  abbrev pub Fails : {A : Type 0} → Result A → Type 0
  Fails r = (e : Error) × (r ≡ err e)

  modify-Fails :
      (i : String) (f : Alert → Result Alert) (s : D.State)
      → Fails (modify (postgres_store D codec) i f s)
  unfolding modify
  modify-Fails i f s = elim (Result-cases (get D codec i s)) [
    | inr (e, h) ↦ rw h (e, refl)
    | inl (a, h) ↦ rw h (elim (Result-cases (f a)) [
      | inr (e, k) ↦ rw k (e, refl)
      | inl (b, k) ↦ rw (k, (update_refused b s).1) (_, refl)
    ])
  ]

  -- Over a database that, as documented, refuses a statement with an argument that it never names:
  -- every Assign, SetStatus and Action returns an error, and Ingest of a batch changes nothing
  -- unless the store finds no open alert for it.
  pub calls_lost :
      (now at : ℕ) (i assignee actor note new_id : String) (status : Status) (act : ActionType)
      (r : Rule) (first : NormalizedEvent) (rest : List NormalizedEvent) (o : Outcome) (s : D.State)
      → Fails (assign (postgres_store D codec) now at i assignee actor s)
        × Fails (set_status (postgres_store D codec) now at i status actor s)
        × Fails (action (postgres_store D codec) now at i act note actor s)
        × ((ingest (postgres_store D codec) new_id now r (first ∷ rest) o s ≡ some s)
            ⊎ Fails (find_open D codec r.id (key r first) s))
  unfolding assign set_status action ingest ingest_into logged
  calls_lost now at i assignee actor note new_id status act r first rest o s = (
    elim (Bool-cases (is_blank assignee)) [
      | inl b ↦ rw b (_, refl)
      | inr b ↦ rw b (modify-Fails i _ s)
    ],
    modify-Fails i _ s,
    modify-Fails i _ s,
    elim (Result-cases (find_open D codec r.id (key r first) s)) [
      | inl (a, h) ↦ inl (rw (h, (update_refused _ s).1) refl)
      | inr e ↦ inr e
    ],
  )
