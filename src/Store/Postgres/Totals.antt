-- ===== src/Store/Postgres/Totals.antt =====
-- internal/store/postgres.go: how `Counts` adds up the groups of its query.
use sentinel_api.Base.{ℕ, ◌+◌, String, Option, none, some, List, [], ◌∷◌, lookup, insert}
use sentinel_api.Event.{Severity, critical, high, medium, low, unknown, severity_of_text}
use sentinel_api.Alerts.Model.{Status, open_, assigned, in_progress, Counts, status_of_text}

-- A row of the statement of `Counts`.
pub record Group : Type 0 where
  pub severity : String
  pub status : String
  pub active : ℕ
  pub resolved : ℕ
  pub unassigned : ℕ

abbrev pub no_counts : Counts
no_counts = record {
  total_active = 0;
  open_count = 0;
  assigned_count = 0;
  in_progress_count = 0;
  resolved_count = 0;
  unassigned = 0;
  by_severity = [];
  critical = 0;
  high = 0;
  medium = 0;
  low = 0;
}

abbrev pub or_zero : Option ℕ → ℕ
or_zero none = 0
or_zero (some n) = n

unfoldable pub add_severity : Severity → ℕ → Counts → Counts
add_severity critical n c = record c { critical = c.critical + n }
add_severity high n c = record c { high = c.high + n }
add_severity medium n c = record c { medium = c.medium + n }
add_severity low n c = record c { low = c.low + n }
add_severity (unknown s) n c = c

unfoldable pub add_status : Status → ℕ → Counts → Counts
add_status open_ n c = record c { open_count = c.open_count + n }
add_status assigned n c = record c { assigned_count = c.assigned_count + n }
add_status in_progress n c = record c { in_progress_count = c.in_progress_count + n }
add_status _ n c = c

-- The body of the loop of `Counts`.
unfoldable pub add_group : Group → Counts → Counts
add_group g c =
    let n = g.active + g.resolved in
    let c = record c {
      by_severity = insert g.severity (or_zero (lookup g.severity c.by_severity) + n) c.by_severity;
    } in
    let c = add_severity (severity_of_text g.severity) n c in
    let c = record c {
      total_active = c.total_active + g.active;
      resolved_count = c.resolved_count + g.resolved;
      unassigned = c.unassigned + g.unassigned;
    } in
    add_status (status_of_text g.status) g.active c

unfoldable pub add_groups : List Group → Counts → Counts
add_groups [] c = c
add_groups (g ∷ gs) c = add_groups gs (add_group g c)
