-- ===== src/Tests/Postgres/OneRow.antt =====
-- internal/store/postgres.go: a database whose table has room for one row, and which behaves as
-- documented.
use sentinel_api.Base.{
  ℕ, zero, suc, ◌<◌, ◌≤◌, String, Bool, true, false, ◌&&◌, Option, none, some, List, [], ◌∷◌, ◌≡◌,
  refl, arith, pos, ◌==◌, length, any, IsSorted, codes, contains, count_if, filter, if◌then◌else◌,
  Bool-cases, inl, inr, not,
}
use Prim.Native.String.{compare}
use Prim.Native.Nat.{Ordering}
use mathlib.Core.List.{Permᴰ}
use mathlib.Core.List.Permᴰ
use sentinel_api.Alerts.Store.{Result, ok, err, backend}
use sentinel_api.Store.Postgres.Sql.{Value, text_value, Statement, insert_into, update_set, named}
use sentinel_api.Store.Postgres.Session.{Database, Reply, refused, answered}
use sentinel_api.Store.Postgres.Totals.{Group}
use sentinel_api.Store.Postgres.Documented.{
  Row, Dialect, Documented, Groups, all_members, inserted_row, meets_all, limit_rows, offset_rows,
  field, is_active_row, is_unassigned_row,
}

abbrev pub plain_dialect : Dialect
plain_dialect = record {
  jsonb = λ s. s;
  lower = λ s. s;
  like = λ s p. contains (codes s) (codes p);
  before = λ s t. elim (compare s t) [ Ordering.lt ↦ true | _ ↦ false ];
}

abbrev pub table : Option Row → List Row
table none = []
table (some row) = row ∷ []

-- All of the first n arguments are named.
unfoldable pub all_named : ℕ → List ℕ → Bool
all_named zero ns = true
all_named (suc n) ns = any (λ k. k == suc n) ns && all_named n ns

abbrev pub put : Statement → List Value → Option Row → Result (Option Row)
put (insert_into cols ns) args none = ok (some (inserted_row plain_dialect cols ns args))
put (insert_into cols ns) args (some row) = err (backend "disk full")
put (update_set sets n) args s = err (backend "read only")

unfoldable pub run : Statement → List Value → Option Row → Result (Option Row)
unfolding all_named
run st args s =
    if all_named (length args) (named st)
    then put st args s
    else err (backend "could not determine data type of parameter")

abbrev pub text_of : Value → String
text_of (text_value s) = s
text_of _ = ""

-- The only row is its own group, if its severity and status are texts.
abbrev pub the_group : Row → String → String → Group
the_group row sev status = record {
  severity = sev;
  status = status;
  active = count_if is_active_row (row ∷ []);
  resolved = count_if (λ r. not (is_active_row r)) (row ∷ []);
  unassigned = count_if is_unassigned_row (row ∷ []);
}

abbrev pub group_of : Row → Value → Value → Reply Group
group_of row (text_value sev) (text_value status) = answered (the_group row sev status ∷ []) none
group_of row _ _ = refused "null"

abbrev pub groups_of : Option Row → Reply Group
groups_of none = answered [] none
groups_of (some row) = group_of row (field "severity" row) (field "status" row)

abbrev pub one_row : Database
one_row = record {
  State = Option Row;
  exec = run;
  query = λ q args s.
      answered
        (limit_rows args q.limit (
          offset_rows args q.offset (filter (meets_all plain_dialect args q.conditions) (table s))))
        none;
  query_groups = groups_of;
  Float = ℕ;
  whole = pos;
  query_mttr = λ s. ok (0, 0);
}

all_named-gap :
    (n m : ℕ) (ns : List ℕ) → n < m → any (λ k. k == suc n) ns ≡ false → all_named m ns ≡ false
unfolding all_named
all_named-gap n zero ns h g = absurd (omega arith)
all_named-gap n (suc m) ns h g = ground (arith, all_named-gap n m ns, g)

pub run_gap :
    (st : Statement) (args : List Value) (s : Option Row) (n : ℕ)
    → n < length args
    → any (λ k. k == suc n) (named st) ≡ false
    → (e : String) × (run st args s ≡ err (backend e))
unfolding run
run_gap st args s n h g = rw (all_named-gap n (length args) (named st) h g) (_, refl)

pub run_insert :
    (cols : List String) (ns : List ℕ) (args : List Value) (s s' : Option Row)
    → run (insert_into cols ns) args s ≡ ok s'
    → Permᴰ (table s') (inserted_row plain_dialect cols ns args ∷ table s)
unfolding run
run_insert cols ns args s s' e = go (all_named (length args) (named (insert_into cols ns))) s s' e
  where
    go :
        (b : Bool) (s s' : Option Row)
        → (if b
            then put (insert_into cols ns) args s
            else err (backend "could not determine data type of parameter"))
          ≡ ok s'
        → Permᴰ (table s') (inserted_row plain_dialect cols ns args ∷ table s)
    go false s s' e = absurd cc
    go true (some row) s' e = absurd cc
    go true none none e = absurd cc
    go true none (some r) e =
        let same : r ≡ inserted_row plain_dialect cols ns args = cc in rw same (Permᴰ.refl _)

pub table_sorted :
    (less : Row → Row → Bool) (p : Row → Bool) (s : Option Row) → IsSorted less (filter p (table s))
table_sorted less p none = tt
table_sorted less p (some row) = elim (Bool-cases (p row)) [
  | inl h ↦ rw h (tt, tt)
  | inr h ↦ rw h tt
]

pub table_once : (p : Row → Bool) (s : Option Row) → count_if p (table s) ≤ 1
table_once p none = omega arith
table_once p (some row) = ground arith

pub groups_of-Groups :
    (s : Option Row) (gs : List Group) → groups_of s ≡ answered gs none → Groups (table s) gs
unfolding all_members
groups_of-Groups none gs e = record {
  parts = [];
  groups_of = cc;
  summarised = tt;
  divided = Permᴰ.nil;
}
groups_of-Groups (some row) gs e = go (field "severity" row) (field "status" row) refl refl e
  where
    go :
        (sev status : Value)
        → field "severity" row ≡ sev
        → field "status" row ≡ status
        → group_of row sev status ≡ answered gs none
        → Groups (row ∷ []) gs
    go (text_value a) (text_value b) h k e = record {
      parts = record { group = the_group row a b; members = row ∷ [] } ∷ [];
      groups_of = cc;
      summarised = (
        record {
          severities = (h, tt);
          statuses = (k, tt);
          active = refl;
          resolved = refl;
          unassigned = refl;
        },
        tt,
      );
      divided = Permᴰ.refl (row ∷ []);
    }
    go sev status h k e = absurd cc

abbrev pub documented : Documented one_row plain_dialect
documented = record {
  rows = table;
  inserts = run_insert;
  primary_key = λ s i. table_once _ s;
  undetermined = run_gap;
  answers = λ q args s answer e. record {
    arranged = filter (meets_all plain_dialect args q.conditions) (table s);
    rearranged = Permᴰ.refl _;
    in_order = table_sorted _ _ s;
    in_window = cc;
  };
  groups = groups_of-Groups;
}
