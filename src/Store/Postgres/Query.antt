-- ===== src/Store/Postgres/Query.antt =====
-- internal/store/postgres.go: the clauses and the arguments of `List`.
use sentinel_api.Base.{
  ℕ, suc, String, some, List, [], ◌∷◌, ◌++◌, ℤ, pos, is_positive, is_blank, length, if◌then◌else◌,
}
use sentinel_api.Alerts.Model.{Filter}
use sentinel_api.Store.Postgres.Sql.{
  Value, text_value, number, Condition, one_is_one, column_is, title_or_ip_like, active_first,
  falling, parameter, Select,
}

-- The `where` clauses and the arguments that `List` has gathered so far.
pub record Clauses : Type 0 where
  pub conditions : List Condition
  pub args : List Value

-- `arg(v)` appends the value; its number is the length then.
unfoldable pub arg_number : Clauses → ℕ
arg_number c = suc (length c.args)

unfoldable pub where_column : String → String → Clauses → Clauses
unfolding arg_number
where_column col v c = if is_blank v then c else record {
  conditions = c.conditions ++ column_is col (arg_number c) ∷ [];
  args = c.args ++ text_value v ∷ [];
}

unfoldable pub where_query : String → Clauses → Clauses
unfolding arg_number
where_query q c = if is_blank q then c else record {
  conditions = c.conditions ++ title_or_ip_like (arg_number c) (suc (arg_number c)) ∷ [];
  args = c.args ++ text_value q ∷ text_value q ∷ [];
}

unfoldable pub list_clauses : Filter → Clauses
unfolding where_column where_query
list_clauses f =
    let c : Clauses = record { conditions = one_is_one ∷ []; args = [] } in
    let c = where_column "status" f.status c in
    let c = where_column "severity" f.severity c in
    let c = where_column "asset" f.asset c in
    let c = where_column "assignee" f.assignee c in
    let c = where_column "rule_id" f.rule_id c in where_query f.query c

abbrev pub default_limit : ℤ → ℤ
default_limit limit = if is_positive limit then limit else pos 50

unfoldable pub list_args : Filter → List Value
unfolding list_clauses
list_args f = (list_clauses f).args ++ number (default_limit f.limit) ∷ number f.offset ∷ []

unfoldable pub list_select : Filter → Select
unfolding list_clauses arg_number
list_select f =
    let c = list_clauses f in
    record {
      conditions = c.conditions;
      order_by = active_first ∷ falling "severity" ∷ falling "last_seen_at" ∷ [];
      limit = some (parameter (arg_number c));
      offset = some (parameter (suc (arg_number c)));
    }
