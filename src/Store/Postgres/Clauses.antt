-- ===== src/Store/Postgres/Clauses.antt =====
-- internal/store/postgres.go: the numbered parameters of `List` mean what the filter asks for.
use sentinel_api.Base.{
  ℕ, suc, ◌-◌, String, Bool, true, ◌&&◌, ◌||◌, List, [], ◌∷◌, ◌++◌, ◌≡◌, refl, sym, ◌∙◌, arith,
  length, str_eq, is_blank, Bool-cases, inl, inr,
}
use mathlib.Core.List.{append_assoc}
use sentinel_api.Alerts.Model.{Alert, Filter, status_text}
use sentinel_api.Event.{severity_text}
use sentinel_api.Store.Postgres.Sql.{Value, text_value, number, Condition, one_is_one}
use sentinel_api.Store.Postgres.Query.{
  Clauses, arg_number, where_column, where_query, list_clauses, list_args, list_select,
  default_limit,
}
use sentinel_api.Store.Postgres.Row.{Codec, row_args}
use sentinel_api.Store.Postgres.RoundTrip.{alert_row}
use sentinel_api.Store.Postgres.Documented.{
  Row, Dialect, value_at, argument, field, same_value, meets, meets_all, is_like, lowered, field_in,
  stored,
}

-- The argument that was appended last has the number that `arg` gave it, whatever is appended later.
value_at-append :
    (args : List Value) (v : Value) (later : List Value)
    → value_at (args ++ v ∷ later) (length args) ≡ v
unfolding value_at
value_at-append [] v later = refl
value_at-append (a ∷ args) v later = value_at-append args v later

value_at-append_second :
    (args : List Value) (u v : Value) (later : List Value)
    → value_at (args ++ u ∷ v ∷ later) (suc (length args)) ≡ v
unfolding value_at
value_at-append_second [] u v later = refl
value_at-append_second (a ∷ args) u v later = value_at-append_second args u v later

pred-suc : (n : ℕ) → suc n - 1 ≡ n
pred-suc n = omega arith

pub argument-append :
    (args : List Value) (v : Value) (later : List Value)
    → argument (args ++ v ∷ later) (suc (length args)) ≡ v
unfolding argument
argument-append args v later = rw (pred-suc (length args)) (value_at-append args v later)

pub argument-append_second :
    (args : List Value) (u v : Value) (later : List Value)
    → argument (args ++ u ∷ v ∷ later) (suc (suc (length args))) ≡ v
unfolding argument
argument-append_second args u v later =
    rw (pred-suc (suc (length args))) (value_at-append_second args u v later)

and_true : (b : Bool) → (b && true) ≡ b
and_true b = ground arith

module _ (d : Dialect) (row : Row) where
  meets_all-append :
      (args : List Value) (cs : List Condition) (c : Condition)
      → meets_all d args (cs ++ c ∷ []) row ≡ (meets_all d args cs row && meets d args row c)
  unfolding meets_all
  meets_all-append args [] c = ground arith
  meets_all-append args (x ∷ cs) c = ground (arith, meets_all-append args cs c)

  -- Whatever arguments follow, the conditions so far hold exactly if the test does.
  Means : Clauses → Bool → Type 0
  Means c b = (later : List Value) → meets_all d (c.args ++ later) c.conditions row ≡ b

  -- A blank text asks for nothing.
  abbrev pub asks : String → String → Bool
  asks col v = is_blank v || same_value (field col row) (text_value v)

  abbrev pub asks_like : String → Bool
  asks_like q =
      is_blank q
      || (is_like d (lowered d (field "title" row)) (text_value (d.lower q))
          || is_like d (field "src_ip" row) (text_value q))

  Means-where_column :
      (col v : String) (c : Clauses) (b : Bool)
      → Means c b
      → Means (where_column col v c) (b && asks col v)
  unfolding Means where_column arg_number meets
  Means-where_column col v c b m later = elim (Bool-cases (is_blank v)) [
    | inl h ↦ rw h (m later ∙ sym (and_true b))
    | inr h ↦
        rw
          (
            h,
            append_assoc c.args (text_value v ∷ []) later,
            meets_all-append,
            m (text_value v ∷ later),
            argument-append c.args (text_value v) later,
          )
          refl
  ]

  Means-where_query :
      (q : String) (c : Clauses) (b : Bool) → Means c b → Means (where_query q c) (b && asks_like q)
  unfolding Means where_query arg_number meets lowered
  Means-where_query q c b m later = elim (Bool-cases (is_blank q)) [
    | inl h ↦ rw h (m later ∙ sym (and_true b))
    | inr h ↦
        rw
          (
            h,
            append_assoc c.args (text_value q ∷ text_value q ∷ []) later,
            meets_all-append,
            m (text_value q ∷ text_value q ∷ later),
            argument-append c.args (text_value q) _,
            argument-append_second c.args (text_value q) (text_value q) later,
          )
          refl
  ]

  Means-start : Means (record { conditions = one_is_one ∷ []; args = [] }) true
  unfolding Means meets_all meets
  Means-start later = refl

  list_clauses-Means :
      (f : Filter)
      → Means (list_clauses f) (
          (((((true && asks "status" f.status) && asks "severity" f.severity)
                && asks "asset" f.asset)
              && asks "assignee" f.assignee)
            && asks "rule_id" f.rule_id)
          && asks_like f.query)
  unfolding list_clauses
  list_clauses-Means f = Means-where_query f.query _ _ (
      Means-where_column "rule_id" f.rule_id _ _ (
        Means-where_column "assignee" f.assignee _ _ (
          Means-where_column "asset" f.asset _ _ (
            Means-where_column "severity" f.severity _ _
              (Means-where_column "status" f.status _ _ Means-start)))))

-- The alert passes the filter, as Postgres reads it.
unfoldable pub wanted : Dialect → Filter → Alert → Bool
wanted d f a =
    passes f.status (status_text a.status)
    && (passes f.severity (severity_text a.severity)
        && (passes f.asset a.asset
            && (passes f.assignee a.assignee
                && (passes f.rule_id a.rule_id
                    && (is_blank f.query
                        || (d.like (d.lower a.title) (d.lower f.query)
                            || d.like a.src_ip f.query))))))
  where
    passes : String → String → Bool
    passes asked field = is_blank asked || str_eq field asked

module _ (d : Dialect) (codec : Codec) where
  and_assoc :
      (p q r s t u : Bool)
      → (((((((true && p) && q) && r) && s) && t) && u) ≡ (p && (q && (r && (s && (t && u))))))
  and_assoc p q r s t u = ground arith

  -- On the row of an alert the conditions of `List`, with its arguments, hold exactly for the alerts
  -- that pass the filter.
  pub list_conditions_lem :
      (f : Filter) (a : Alert)
      → meets_all d (list_args f) (list_select f).conditions (alert_row d codec a) ≡ wanted d f a
  unfolding list_args list_select Means alert_row row_args stored field field_in same_value lowered
      is_like wanted
  list_conditions_lem f a =
      list_clauses-Means d (alert_row d codec a) f
        (number (default_limit f.limit) ∷ number f.offset ∷ [])
      ∙ and_assoc (asked "status" f.status) (asked "severity" f.severity) (asked "asset" f.asset)
          (asked "assignee" f.assignee) (asked "rule_id" f.rule_id)
          (asks_like d (alert_row d codec a) f.query)
    where
      asked : String → String → Bool
      asked = asks d (alert_row d codec a)
