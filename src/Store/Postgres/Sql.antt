-- ===== src/Store/Postgres/Sql.antt =====
-- internal/store/postgres.go and migrations/00001_create_alerts.sql: the statements that the store
-- sends, as data. `$n` is the number n; a column is its name.
use sentinel_api.Base.{ℕ, String, Option, none, some, List, [], ◌∷◌, ◌++◌, ℤ, Map}

-- What pgx sends for an argument, and returns for a column.
pub data Value : Type 0 where
  null : Value
  text_value : String → Value
  number : ℤ → Value
  -- A `double precision` in hundredths.
  double : ℕ → Value
  text_array : List String → Value
  -- The bytes of a JSON document.
  json : String → Value
  -- A `timestamptz`, in nanoseconds since Go's zero time.
  instant_value : ℕ → Value

-- A number in a statement: a parameter, or written out.
pub data Operand : Type 0 where
  parameter : ℕ → Operand
  literal : ℕ → Operand

pub data Condition : Type 0 where
  one_is_one : Condition
  column_is : String → ℕ → Condition
  not_resolved : Condition
  -- `lower(title) like '%'||lower($n)||'%' or src_ip like '%'||$m||'%'`
  title_or_ip_like : ℕ → ℕ → Condition

-- The terms of `order by`: `(status <> 'RESOLVED') desc`, or a column and `desc`.
pub data Term : Type 0 where
  active_first : Term
  falling : String → Term

pub data Statement : Type 0 where
  -- The columns, and the parameter that each takes.
  insert_into : List String → List ℕ → Statement
  -- The columns that are set, each with its parameter, and the parameter that the id equals.
  update_set : Map ℕ → ℕ → Statement

-- `select * from sentinel_alerts` with its clauses.
pub record Select : Type 0 where
  pub conditions : List Condition
  pub order_by : List Term
  pub limit : Option Operand
  pub offset : Option Operand

abbrev operand_numbers : Option Operand → List ℕ
operand_numbers (some (parameter n)) = n ∷ []
operand_numbers _ = []

abbrev condition_numbers : Condition → List ℕ
condition_numbers (column_is c n) = n ∷ []
condition_numbers (title_or_ip_like n m) = n ∷ m ∷ []
condition_numbers _ = []

abbrev set_numbers : Map ℕ → List ℕ
set_numbers [] = []
set_numbers ((c, n) ∷ l) = n ∷ set_numbers l

-- The parameters that a statement names.
unfoldable pub named : Statement → List ℕ
named (insert_into cols ns) = ns
named (update_set sets n) = set_numbers sets ++ n ∷ []

-- The columns of the table, in the order in which `select *` returns them.
abbrev pub table_columns : List String
table_columns =
    "id" ∷ "rule_id" ∷ "rule_key" ∷ "title" ∷ "severity" ∷ "status" ∷ "confidence" ∷ "mitre"
    ∷ "description" ∷ "asset" ∷ "src_ip" ∷ "geo" ∷ "count" ∷ "blocked_count" ∷ "unique_paths"
    ∷ "distinct_assets" ∷ "event_ids" ∷ "started_at" ∷ "last_seen_at" ∷ "assignee" ∷ "assigned_at"
    ∷ "status_changed_at" ∷ "responded_at" ∷ "resolved_at" ∷ "resolution" ∷ "actions" ∷ "extra"
    ∷ "created_at" ∷ []

unfoldable pub insert_alert : Statement
insert_alert =
    insert_into
      ("id" ∷ "rule_id" ∷ "rule_key" ∷ "title" ∷ "severity" ∷ "status" ∷ "confidence" ∷ "mitre"
        ∷ "description" ∷ "asset" ∷ "src_ip" ∷ "geo" ∷ "count" ∷ "blocked_count" ∷ "unique_paths"
        ∷ "distinct_assets" ∷ "event_ids" ∷ "started_at" ∷ "last_seen_at" ∷ "assignee"
        ∷ "assigned_at" ∷ "status_changed_at" ∷ "responded_at" ∷ "resolved_at" ∷ "resolution"
        ∷ "actions" ∷ "extra" ∷ "created_at" ∷ [])
      (1 ∷ 2 ∷ 3 ∷ 4 ∷ 5 ∷ 6 ∷ 7 ∷ 8 ∷ 9 ∷ 10 ∷ 11 ∷ 12 ∷ 13 ∷ 14 ∷ 15 ∷ 16 ∷ 17 ∷ 18 ∷ 19 ∷ 20 ∷ 21
        ∷ 22 ∷ 23 ∷ 24 ∷ 25 ∷ 26 ∷ 27 ∷ 28 ∷ [])

unfoldable pub update_alert : Statement
update_alert =
    update_set
      (("rule_id", 2)
        ∷ ("rule_key", 3)
        ∷ ("title", 4)
        ∷ ("severity", 5)
        ∷ ("status", 6)
        ∷ ("confidence", 7)
        ∷ ("mitre", 8)
        ∷ ("description", 9)
        ∷ ("asset", 10)
        ∷ ("src_ip", 11)
        ∷ ("geo", 12)
        ∷ ("count", 13)
        ∷ ("blocked_count", 14)
        ∷ ("unique_paths", 15)
        ∷ ("distinct_assets", 16)
        ∷ ("event_ids", 17)
        ∷ ("started_at", 18)
        ∷ ("last_seen_at", 19)
        ∷ ("assignee", 20)
        ∷ ("assigned_at", 21)
        ∷ ("status_changed_at", 22)
        ∷ ("responded_at", 23)
        ∷ ("resolved_at", 24)
        ∷ ("resolution", 25)
        ∷ ("actions", 26)
        ∷ ("extra", 27)
        ∷ ("created_at", 28)
        ∷ [])
      29

unfoldable pub select_by_id : Select
select_by_id = record {
  conditions = column_is "id" 1 ∷ [];
  order_by = [];
  limit = none;
  offset = none;
}

unfoldable pub select_open : Select
select_open = record {
  conditions = column_is "rule_id" 1 ∷ column_is "rule_key" 2 ∷ not_resolved ∷ [];
  order_by = falling "last_seen_at" ∷ [];
  limit = some (literal 1);
  offset = none;
}
