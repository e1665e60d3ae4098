-- ===== src/Store/Postgres/Documented.antt =====
-- What internal/store/postgres.go relies on: the behaviour that the documentation of Postgres and of
-- its driver describes, for the statements that the store sends.
use sentinel_api.Base.{
  ℕ, zero, suc, ◌-◌, ◌%◌, ◌<◌, ◌≤◌, String, Bool, true, false, ◌&&◌, ◌||◌, not, Option, none, some,
  List, [], ◌∷◌, ◌++◌, map, ◌≡◌, pos_part, str_eq, ltb, ◌==◌, length, take, drop, filter, any, All,
  count_if, IsSorted, if◌then◌else◌,
}
use mathlib.Core.List.{Permᴰ}
use sentinel_api.Alerts.Store.{ok, err, backend}
use sentinel_api.Store.Postgres.Sql.{
  Value, null, text_value, number, json, instant_value, Operand, parameter, literal, Condition,
  one_is_one, column_is, not_resolved, title_or_ip_like, Term, active_first, falling, Statement,
  insert_into, Select, named, table_columns,
}
use sentinel_api.Store.Postgres.Session.{Database, answered}
use sentinel_api.Store.Postgres.Totals.{Group}

abbrev pub Row : Type 0
Row = List Value

-- What a server sets up: how it writes a `jsonb` back, `lower`, the test `s like '%'||p||'%'` (its
-- arguments are s and p), and the order of texts.
pub record Dialect : Type 0 where
  pub jsonb : String → String
  pub lower : String → String
  pub like : String → String → Bool
  pub before : String → String → Bool

-- The value of a position that is counted from 0.
unfoldable pub value_at : List Value → ℕ → Value
value_at [] n = null
value_at (v ∷ vs) zero = v
value_at (v ∷ vs) (suc n) = value_at vs n

-- The argument of the parameter `$n`.
unfoldable pub argument : List Value → ℕ → Value
unfolding value_at
argument args n = value_at args (n - 1)

-- The column of a row, by the place of its name in the table.
unfoldable pub field_in : String → List String → Row → Value
field_in c [] row = null
field_in c (d ∷ cols) [] = null
field_in c (d ∷ cols) (v ∷ row) = let rest = field_in c cols row in if str_eq d c then v else rest

unfoldable pub field : String → Row → Value
unfolding field_in
field c row = field_in c table_columns row

unfoldable pub same_value : Value → Value → Bool
same_value (text_value s) (text_value t) = str_eq s t
same_value _ _ = false

unfoldable pub is_active_row : Row → Bool
unfolding field same_value
is_active_row row = not (same_value (field "status" row) (text_value "RESOLVED"))

unfoldable pub number_of : Value → ℕ
number_of (number i) = pos_part i
number_of _ = 0

unfoldable pub operand : List Value → Operand → ℕ
unfolding argument number_of
operand args (literal n) = n
operand args (parameter n) = number_of (argument args n)

unfoldable pub offset_rows : List Value → Option Operand → List Row → List Row
unfolding operand
offset_rows args none rows = rows
offset_rows args (some o) rows = drop (operand args o) rows

unfoldable pub limit_rows : List Value → Option Operand → List Row → List Row
unfolding operand
limit_rows args none rows = rows
limit_rows args (some o) rows = take (operand args o) rows

module _ (d : Dialect) where
  -- A timestamp has microseconds.
  unfoldable pub stored : Value → Value
  stored (json s) = json (d.jsonb s)
  stored (instant_value t) = instant_value (t - t % 1000)
  stored v = v

  -- What an insert writes into a column; the columns that it does not name are not modelled.
  unfoldable pub inserted : String → List String → List ℕ → List Value → Value
  unfolding argument stored
  inserted c [] ns args = null
  inserted c (e ∷ cols) [] args = null
  inserted c (e ∷ cols) (n ∷ ns) args =
      let rest = inserted c cols ns args in if str_eq e c then stored (argument args n) else rest

  unfoldable pub inserted_row : List String → List ℕ → List Value → Row
  unfolding inserted
  inserted_row cols ns args = map (λ c. inserted c cols ns args) table_columns

  unfoldable pub is_like : Value → Value → Bool
  is_like (text_value s) (text_value p) = d.like s p
  is_like _ _ = false

  unfoldable pub lowered : Value → Value
  lowered (text_value s) = text_value (d.lower s)
  lowered v = v

  unfoldable pub meets : List Value → Row → Condition → Bool
  unfolding field same_value argument is_active_row is_like lowered
  meets args row one_is_one = true
  meets args row (column_is c n) = same_value (field c row) (argument args n)
  meets args row not_resolved = is_active_row row
  meets args row (title_or_ip_like n m) =
      is_like (lowered (field "title" row)) (lowered (argument args n))
      || is_like (field "src_ip" row) (argument args m)

  unfoldable pub meets_all : List Value → List Condition → Row → Bool
  unfolding meets
  meets_all args [] row = true
  meets_all args (c ∷ cs) row = meets args row c && meets_all args cs row

  unfoldable pub value_before : Value → Value → Bool
  value_before (text_value s) (text_value t) = d.before s t
  value_before (instant_value s) (instant_value t) = ltb s t
  value_before _ _ = false

  -- A row stands above another by the first term in which they differ.
  unfoldable pub row_before : List Term → Row → Row → Bool
  unfolding is_active_row field value_before
  row_before [] a b = false
  row_before (active_first ∷ ts) a b =
      let rest = row_before ts a b in
      if is_active_row a && not (is_active_row b)
      then true
      else if is_active_row b && not (is_active_row a)
      then false
      else rest
  row_before (falling c ∷ ts) a b =
      let rest = row_before ts a b in
      if value_before (field c b) (field c a)
      then true
      else if value_before (field c a) (field c b)
      then false
      else rest

  -- Rows are the answer to a query: the window of some arrangement, which the terms allow, of the
  -- rows that meet the conditions.
  pub record Answers (q : Select) (args : List Value) (rows answer : List Row) : Type 0 where
    pub arranged : List Row
    pub rearranged : Permᴰ arranged (filter (meets_all args q.conditions) rows)
    pub in_order : IsSorted (row_before q.order_by) arranged
    pub in_window : answer ≡ limit_rows args q.limit (offset_rows args q.offset arranged)

-- A group of `Counts` with the rows that it counts.
pub record Part : Type 0 where
  pub group : Group
  pub members : List Row

unfoldable pub is_unassigned_row : Row → Bool
unfolding field same_value
is_unassigned_row row =
    same_value (field "status" row) (text_value "OPEN")
    && same_value (field "assignee" row) (text_value "")

pub record Summarises (p : Part) : Type 0 where
  pub severities : All (λ row. field "severity" row ≡ text_value p.group.severity) p.members
  pub statuses : All (λ row. field "status" row ≡ text_value p.group.status) p.members
  pub active : p.group.active ≡ count_if is_active_row p.members
  pub resolved : p.group.resolved ≡ count_if (λ row. not (is_active_row row)) p.members
  pub unassigned : p.group.unassigned ≡ count_if is_unassigned_row p.members

unfoldable pub all_members : List Part → List Row
all_members [] = []
all_members (p ∷ ps) = p.members ++ all_members ps

pub record Groups (rows : List Row) (gs : List Group) : Type 0 where
  pub parts : List Part
  pub groups_of : gs ≡ map (λ p. p.group) parts
  pub summarised : All Summarises parts
  pub divided : Permᴰ rows (all_members parts)

pub record Documented (D : Database) (d : Dialect) : Type 1 where
  -- The contents of the table, in whatever order.
  pub rows : D.State → List Row
  pub inserts :
      (cols : List String) (ns : List ℕ) (args : List Value) (s s' : D.State)
      → D.exec (insert_into cols ns) args s ≡ ok s'
      → Permᴰ (rows s') (inserted_row d cols ns args ∷ rows s)
  pub primary_key :
      (s : D.State) (i : String)
      → count_if (λ row. same_value (field "id" row) (text_value i)) (rows s) ≤ 1
  -- "could not determine data type of parameter $n": an argument that the statement does not name.
  pub undetermined :
      (st : Statement) (args : List Value) (s : D.State) (n : ℕ)
      → n < length args
      → any (λ k. k == suc n) (named st) ≡ false
      → (e : String) × (D.exec st args s ≡ err (backend e))
  pub answers :
      (q : Select) (args : List Value) (s : D.State) (answer : List Row)
      → D.query q args s ≡ answered answer none
      → Answers d q args (rows s) answer
  pub groups :
      (s : D.State) (gs : List Group) → D.query_groups s ≡ answered gs none → Groups (rows s) gs
