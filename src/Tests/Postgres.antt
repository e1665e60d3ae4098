-- ===== src/Tests/Postgres.antt =====
-- internal/store/postgres.go: an alert in a database whose table has room for one row.
mod OneRow
use sentinel_api.Base.{
  ℕ, zero, suc, ◌<◌, ◌≤◌, String, Bool, true, false, ◌&&◌, Option, none, some, List, [], ◌∷◌, map,
  ◌≡◌, ◌⊎◌, count_if, refl, sym, ◌∙◌, arith, pos, str_eq, ◌==◌, length, any, All, IsSorted, codes,
  contains, count_if, filter, if◌then◌else◌, Bool-cases, inl, inr, ◌⊎◌, not,
}
use Prim.Native.String.{compare}
use Prim.Native.Nat.{Ordering}
use mathlib.Core.List.{Permᴰ}
use mathlib.Core.List.Permᴰ
use sentinel_api.Event.{severity_of_text}
use sentinel_api.Alerts.Model.{
  Alert, Counts, Filter, in_progress, comment, status_of_text, resolution_of_text,
}
use sentinel_api.Detect.Rules.{sqli_rule}
use sentinel_api.Alerts.Merge.{fresh_alert}
use sentinel_api.Store.Postgres.Row.{Codec, row_args}
use sentinel_api.Store.Postgres.RoundTrip.{IsPlain, Lossless, kept, alert_row, scan-alert_row}
use sentinel_api.Store.Postgres.Created.{get-create}
use sentinel_api.Store.Postgres.Refused.{Fails, calls_lost}
use sentinel_api.Store.Postgres.Clauses.{wanted}
use sentinel_api.Store.Postgres.Listing.{alert_before, window_of, list_lem}
use sentinel_api.Store.Postgres.Counted.{counts-Counted}
use sentinel_api.Store.Tally.{Counted, number_in, of_severity}
use sentinel_api.Alerts.Service.{assign, set_status, action, ingest}
use sentinel_api.Detect.Rule.{key}
use sentinel_api.Tests.Fixtures.{probe, outcome, alert_one}
use sentinel_api.Alerts.Store.{Result, ok, err, backend}
use sentinel_api.Store.Postgres.Sql.{
  Value, text_value, Statement, insert_into, update_set, Select, named, insert_alert, select_by_id,
  select_open,
}
use sentinel_api.Store.Postgres.Session.{
  Database, Reply, refused, answered, create, get, find_open, scan_first, list, counts,
  postgres_store,
}
use sentinel_api.Store.Postgres.Totals.{Group, no_counts}
use sentinel_api.Store.Postgres.Query.{
  list_args, list_select, list_clauses, where_column, where_query, arg_number,
}
use sentinel_api.Store.Postgres.Documented.{
  Row, Dialect, Documented, Answers, Part, Summarises, Groups, all_members, inserted_row, inserted,
  meets_all, row_before, limit_rows, offset_rows, field, field_in, same_value, argument, value_at,
  stored, meets, operand, number_of, is_active_row, is_unassigned_row,
}
use sentinel_api.Tests.Postgres.OneRow.{plain_dialect, table, one_row, documented, run, all_named}

-- Documents of an alert without geo data, actions and extra values.
abbrev bare_codec : Codec
bare_codec = record {
  write_geo = λ g. "null";
  read_geo = λ s. none;
  write_actions = λ l. "[]";
  read_actions = λ s. [];
  write_extra = λ m. "{}";
  read_extra = λ s. [];
}

abbrev untimed : ℕ → String
untimed t = ""

alert_one-IsPlain : IsPlain alert_one
unfolding fresh_alert status_of_text resolution_of_text severity_of_text sqli_rule
alert_one-IsPlain = record { plain_status = refl; plain_resolution = refl; plain_severity = refl }

alert_one-Lossless : Lossless plain_dialect bare_codec untimed alert_one
unfolding fresh_alert
alert_one-Lossless = record {
  geo_back = refl;
  geo_full = refl;
  actions_back = refl;
  actions_full = refl;
  extra_back = refl;
  extra_full = refl;
}

abbrev one_alert_table : Option Row
one_alert_table = some (alert_row plain_dialect bare_codec alert_one)

created_one : create one_row bare_codec alert_one none ≡ ok one_alert_table
unfolding fresh_alert create run all_named row_args insert_alert named alert_row inserted_row
    inserted argument value_at stored
created_one = refl

found_one :
    one_row.query select_by_id (text_value "a1" ∷ []) one_alert_table
    ≡ answered (table one_alert_table) none
unfolding fresh_alert select_by_id meets_all meets row_args alert_row argument value_at stored field
    field_in same_value limit_rows offset_rows
found_one = refl

get-create_example : get one_row bare_codec "a1" one_alert_table ≡ ok (kept untimed alert_one)
unfolding fresh_alert
get-create_example =
    get-create one_row plain_dialect documented bare_codec untimed alert_one none one_alert_table
      (table one_alert_table) alert_one-IsPlain alert_one-Lossless created_one found_one

calls_lost_example :
    Fails one_row plain_dialect documented bare_codec
      (assign (postgres_store one_row bare_codec) 9 10 "a1" "mo" "mo" one_alert_table)
    × Fails one_row plain_dialect documented bare_codec
        (set_status (postgres_store one_row bare_codec) 9 10 "a1" in_progress "mo" one_alert_table)
    × Fails one_row plain_dialect documented bare_codec
        (action (postgres_store one_row bare_codec) 9 10 "a1" comment "seen" "mo" one_alert_table)
    × ((ingest
            (postgres_store one_row bare_codec)
            "a2"
            9
            sqli_rule
            (probe ∷ [])
            outcome
            one_alert_table
          ≡ some one_alert_table)
        ⊎ Fails one_row plain_dialect documented bare_codec
            (find_open one_row bare_codec sqli_rule.id (key sqli_rule probe) one_alert_table))
calls_lost_example =
    calls_lost one_row plain_dialect documented bare_codec 9 10 "a1" "mo" "mo" "seen" "a2"
      in_progress comment sqli_rule probe [] outcome one_alert_table

-- Critical alerts.
abbrev critical_ones : Filter
critical_ones = record {
  status = "";
  severity = "CRITICAL";
  asset = "";
  assignee = "";
  rule_id = "";
  query = "";
  limit = pos 0;
  offset = pos 0;
}

listed_one :
    one_row.query (list_select critical_ones) (list_args critical_ones) one_alert_table
    ≡ answered (table one_alert_table) none
unfolding fresh_alert list_select list_args list_clauses where_column where_query arg_number
    sqli_rule meets_all meets row_args alert_row argument value_at stored field field_in same_value
    limit_rows offset_rows operand number_of
listed_one = refl

list_lem_example :
    (q : List Alert) × Permᴰ q (filter (wanted plain_dialect critical_ones) (alert_one ∷ []))
    × IsSorted (alert_before plain_dialect) q
    × (list one_row bare_codec critical_ones one_alert_table
        ≡ ok (map (kept untimed) (window_of critical_ones q)))
list_lem_example =
    list_lem one_row plain_dialect documented bare_codec untimed critical_ones (alert_one ∷ [])
      one_alert_table (table one_alert_table) ((alert_one-IsPlain, alert_one-Lossless), tt)
      (Permᴰ.refl _) listed_one

grouped_one :
    one_row.query_groups one_alert_table
    ≡ answered
        (record { severity = "CRITICAL"; status = "OPEN"; active = 1; resolved = 0; unassigned = 1 }
          ∷ [])
        none
unfolding fresh_alert sqli_rule row_args alert_row stored field field_in is_active_row
    is_unassigned_row same_value
grouped_one = refl

counts-Counted_example :
    (c : Counts) × (counts one_row bare_codec one_alert_table ≡ ok c)
    × Counted (alert_one ∷ []) no_counts c
    × ((k : String) → number_in c.by_severity k ≡ count_if (of_severity k) (alert_one ∷ []))
counts-Counted_example =
    counts-Counted one_row plain_dialect documented bare_codec (alert_one ∷ []) one_alert_table _
      (alert_one-IsPlain, tt) (Permᴰ.refl _) grouped_one
