-- ===== src/Store/Postgres/Session.antt =====
-- internal/store/postgres.go and internal/store/factory.go: the operations of the store. The
-- database and its driver are a parameter, with encoding/json.
use sentinel_api.Base.{
  ℕ, suc, ◌-◌, ◌*◌, ◌^◌, ◌⊎◌, inl, inr, String, Option, none, some, List, [], ◌∷◌, ◌++◌, ℤ, pos,
  negsuc, str_eq, chars, text, ◌==◌, if◌then◌else◌,
}
use sentinel_api.Alerts.Model.{Alert, Counts, Filter}
use sentinel_api.Alerts.Store.{Result, ok, err, Error, backend, not_found, ◌>>=◌, Store}
use sentinel_api.Store.Memory.{MemoryStore, new_memory}
use sentinel_api.Store.Postgres.Sql.{
  Value, text_value, Statement, Select, insert_alert, update_alert, select_by_id, select_open,
}
use sentinel_api.Store.Postgres.Row.{Codec, row_args, scan}
use sentinel_api.Store.Postgres.Query.{list_args, list_select}
use sentinel_api.Store.Postgres.Totals.{Group, no_counts, add_groups}

-- `fmt.Errorf` with "%w" at its end. Only an error of the database has a text here.
abbrev pub wrapped : String → Error → Error
wrapped what (backend e) = backend (text (chars what ++ chars e))
wrapped what e = e

-- `if err != nil { return fmt.Errorf("...: %w", err) }`.
abbrev pub wrap_error {ℓ} : {A : Type ℓ} → String → Result A → Result A
wrap_error what (err e) = err (wrapped what e)
wrap_error what (ok x) = ok x

-- What `Query` gives: an error, or rows, after which `rows.Err()` may tell that the reading broke off.
pub data Reply {ℓ} (A : Type ℓ) : Type ℓ where
  refused : String → Reply A
  answered : List A → Option String → Reply A

-- A `float8` is of the driver's type, and `whole` converts it to an integer.
pub record Database : Type 1 where
  pub State : Type 0
  pub exec : Statement → List Value → State → Result State
  pub query : Select → List Value → State → Reply (List Value)
  pub query_groups : State → Reply Group
  pub Float : Type 0
  pub whole : Float → ℤ
  pub query_mttr : State → Result (Float × ℕ)

module _ (D : Database) (codec : Codec) where
  -- The first row of a reply; a reply without one is a missing alert, whatever ended it.
  unfoldable pub scan_first : Reply (List Value) → Result Alert
  scan_first (refused e) = err (backend e)
  scan_first (answered [] e) = err not_found
  scan_first (answered (row ∷ rows) e) = scan codec row

  unfoldable pub scan_rows : List (List Value) → Result (List Alert)
  scan_rows [] = ok []
  scan_rows (row ∷ rows) = do a ← scan codec row; rest ← scan_rows rows; ok (a ∷ rest)

  abbrev pub ended : Option String → List Alert → Result (List Alert)
  ended none out = ok out
  ended (some e) out = err (backend e)

  unfoldable pub scan_all : Reply (List Value) → Result (List Alert)
  unfolding scan_rows
  scan_all (refused e) = err (backend e)
  scan_all (answered rows e) = scan_rows rows >>= ended e

  unfoldable pub create : Alert → D.State → Result D.State
  create a s = wrap_error "create alert: " (D.exec insert_alert (row_args codec a) s)

  unfoldable pub get : String → D.State → Result Alert
  unfolding scan_first
  get i s = scan_first (D.query select_by_id (text_value i ∷ []) s)

  unfoldable pub update : Alert → D.State → Result D.State
  update a s =
      wrap_error "update alert: " (D.exec update_alert (row_args codec a ++ text_value a.id ∷ []) s)

  unfoldable pub list : Filter → D.State → Result (List Alert)
  unfolding scan_all
  list f s = scan_all (D.query (list_select f) (list_args f) s)

  unfoldable pub find_open : String → String → D.State → Result Alert
  unfolding scan_first
  find_open rule k s = scan_first (D.query select_open (text_value rule ∷ text_value k ∷ []) s)

  unfoldable pub counts_of : Reply Group → Result Counts
  unfolding add_groups
  counts_of (refused e) = err (backend e)
  counts_of (answered gs e) = ok (add_groups gs no_counts)

  unfoldable pub counts : D.State → Result Counts
  unfolding counts_of
  counts s = counts_of (D.query_groups s)

  -- A `time.Duration` in nanoseconds: whole seconds.
  abbrev pub seconds : ℤ → ℤ
  seconds (pos n) = pos (n * 10 ^ 9)
  seconds (negsuc n) = negsuc (suc n * 10 ^ 9 - 1)

  unfoldable pub mttr : D.State → Result (ℤ × ℕ)
  mttr s = do
    (secs, n) ← D.query_mttr s
    ok (if n == 0 then (pos 0, 0) else (seconds (D.whole secs), n))

module _ {Pool : Type 0} (connect : Result Pool) (ping : Pool → Result (Unit {0})) where
  -- `NewPostgres`: pgxpool.New and the pool's Ping are parameters; a pool that is closed again is gone.
  unfoldable pub new_postgres : Result Pool
  new_postgres = do
    pool ← wrap_error "connect postgres: " connect
    answer ← wrap_error "ping postgres: " (ping pool)
    ok pool

  -- `NewAlertsStore`, by the kind of the configuration.
  unfoldable pub new_alerts_store : String → Result (Pool ⊎ MemoryStore)
  unfolding new_postgres
  new_alerts_store kind =
      if str_eq kind "postgres"
      then new_postgres >>= (λ pool. ok (inl pool))
      else ok (inr new_memory)

-- The Postgres store as the service sees it; its `List` never panics.
abbrev pub postgres_store : Database → Codec → Store
postgres_store D codec = record {
  State = D.State;
  create = create D codec;
  get = get D codec;
  update = update D codec;
  list = λ f s. some (list D codec f s);
  find_open = find_open D codec;
  counts = counts D codec;
  mttr = mttr D codec;
}
