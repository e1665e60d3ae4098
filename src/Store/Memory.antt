-- ===== src/Store/Memory.antt =====
-- internal/store/memory.go: the in-memory store. `created` holds the alerts in the order of their
-- creation, and a pointer is a place in it; `by_id` maps an id to such a pointer. Calls hold the
-- lock, and run one after another here.
use sentinel_api.Base.{
  ℕ, suc, ◌-◌, ◌/◌, String, Bool, true, false, ◌&&◌, ◌||◌, not, Option, none, some, List, [], ◌∷◌,
  ◌++◌, map, ℤ, pos, negsuc, ◌+ℤ◌, str_eq, is_blank, ltb, ◌==◌, length, get_elem?, set, take, drop,
  filter, slice_stable, codes, lower, contains, Map, lookup, insert, if◌then◌else◌,
}
use sentinel_api.Event.{Severity, critical, high, medium, low, unknown, severity_text, rank}
use sentinel_api.Alerts.Model.{
  Alert, Status, open_, assigned, in_progress, Counts, Filter, status_text, is_active,
  is_unassigned, tt_respond,
}
use sentinel_api.Alerts.Store.{Result, ok, err, not_found, duplicate_id, Store, find_active}

pub record MemoryStore : Type 0 where
  pub by_id : Map ℕ
  pub created : List Alert

unfoldable pub new_memory : MemoryStore
new_memory = record { by_id = []; created = [] }

unfoldable pub create_at : Option ℕ → Alert → MemoryStore → Result MemoryStore
create_at (some p) a m = err duplicate_id
create_at none a m =
    ok (record { by_id = insert a.id (length m.created) m.by_id; created = m.created ++ a ∷ [] })

unfoldable pub create : Alert → MemoryStore → Result MemoryStore
unfolding create_at
create a m = create_at (lookup a.id m.by_id) a m

-- A pointer is never dangling.
unfoldable pub or_missing : Option Alert → Result Alert
or_missing none = err not_found
or_missing (some a) = ok a

unfoldable pub get_at : Option ℕ → MemoryStore → Result Alert
unfolding or_missing
get_at none m = err not_found
get_at (some p) m = or_missing (get_elem? m.created p)

unfoldable pub get : String → MemoryStore → Result Alert
unfolding get_at
get i m = get_at (lookup i m.by_id) m

unfoldable pub update_at : Option ℕ → Alert → MemoryStore → Result MemoryStore
update_at none a m = err not_found
update_at (some p) a m = ok (record m { created = set m.created p a })

unfoldable pub update : Alert → MemoryStore → Result MemoryStore
unfolding update_at
update a m = update_at (lookup a.id m.by_id) a m

unfoldable pub find_open : String → String → MemoryStore → Result Alert
unfolding or_missing
find_open rule k m = or_missing (find_active rule k m.created)

-- `asked` is blank, or the field's value.
abbrev passes : String → String → Bool
passes asked field = is_blank asked || str_eq field asked

join_spaced : List String → List ℕ
join_spaced [] = []
join_spaced (s ∷ []) = codes s
join_spaced (s ∷ ss) = codes s ++ b' ' ∷ join_spaced ss

haystack : Alert → List ℕ
unfolding join_spaced
haystack a =
    map lower (join_spaced (a.title ∷ a.src_ip ∷ a.asset ∷ []) ++ b' ' ∷ join_spaced a.mitre)

unfoldable pub matches_filter : Filter → Alert → Bool
unfolding haystack
matches_filter f a =
    passes f.status (status_text a.status)
    && (passes f.severity (severity_text a.severity)
        && (passes f.asset a.asset
            && (passes f.assignee a.assignee
                && (passes f.rule_id a.rule_id
                    && (is_blank f.query || contains (haystack a) (map lower (codes f.query)))))))

-- The `less` of the queue: active first, then by falling rank, then the latest.
unfoldable pub comes_before : Alert → Alert → Bool
comes_before a b =
    let p = is_active a.status in
    let q = is_active b.status in
    if p && not q
    then true
    else if q && not p
    then false
    else if not (rank a.severity == rank b.severity)
    then ltb (rank b.severity) (rank a.severity)
    else ltb b.last_seen_at a.last_seen_at

-- `out[f.Offset:]` after the clamp; a negative offset is out of range.
unfoldable pub from_offset : ℤ → List Alert → Option (List Alert)
from_offset (pos n) out = some (drop (if ltb (length out) n then length out else n) out)
from_offset (negsuc n) out = none

unfoldable pub to_limit : ℤ → List Alert → List Alert
to_limit (pos n) out = if ltb 0 n && ltb n (length out) then take n out else out
to_limit (negsuc n) out = out

unfoldable pub page : Option (List Alert) → ℤ → Option (List Alert)
unfolding to_limit
page none limit = none
page (some out) limit = some (to_limit limit out)

-- The whole queue that a filter asks for.
unfoldable pub queue : Filter → MemoryStore → List Alert
queue f m = slice_stable comes_before (filter (matches_filter f) m.created)

unfoldable pub list : Filter → MemoryStore → Option (List Alert)
unfolding from_offset page
list f m = page (from_offset f.offset (queue f m)) f.limit

abbrev or_zero : Option ℕ → ℕ
or_zero none = 0
or_zero (some n) = n

tally_severity : Severity → Counts → Counts
tally_severity critical c = record c { critical = suc c.critical }
tally_severity high c = record c { high = suc c.high }
tally_severity medium c = record c { medium = suc c.medium }
tally_severity low c = record c { low = suc c.low }
tally_severity (unknown s) c = c

tally_status : Status → Counts → Counts
tally_status open_ c = record c { open_count = suc c.open_count }
tally_status assigned c = record c { assigned_count = suc c.assigned_count }
tally_status in_progress c = record c { in_progress_count = suc c.in_progress_count }
tally_status _ c = c

-- The body of the loop of `Counts`.
unfoldable pub tally : Alert → Counts → Counts
unfolding tally_severity tally_status
tally a c =
    let k = severity_text a.severity in
    let c = record c {
      by_severity = insert k (suc (or_zero (lookup k c.by_severity))) c.by_severity;
    } in
    let c = tally_severity a.severity c in
    let c =
      if is_active a.status
      then record c { total_active = suc c.total_active }
      else record c { resolved_count = suc c.resolved_count } in
    let c = tally_status a.status c in
    if is_unassigned a then record c { unassigned = suc c.unassigned } else c

unfoldable pub tally_all : List Alert → Counts → Counts
tally_all [] c = c
tally_all (a ∷ l) c = tally_all l (tally a c)

abbrev pub no_counts : Counts
no_counts = record {
  total_active = 0;
  open_count = 0;
  assigned_count = 0;
  in_progress_count = 0;
  resolved_count = 0;
  unassigned = 0;
  by_severity = ("CRITICAL", 0) ∷ ("HIGH", 0) ∷ ("MEDIUM", 0) ∷ ("LOW", 0) ∷ [];
  critical = 0;
  high = 0;
  medium = 0;
  low = 0;
}

unfoldable pub counts : MemoryStore → Counts
counts m = tally_all m.created no_counts

add_response : Option ℤ → ℤ × ℕ → ℤ × ℕ
add_response none t = t
add_response (some d) (total, n) = (total +ℤ d, suc n)

unfoldable pub sum_responses : List Alert → ℤ × ℕ → ℤ × ℕ
unfolding add_response
sum_responses [] t = t
sum_responses (a ∷ l) t = sum_responses l (add_response (tt_respond a) t)

-- Go's division rounds towards zero.
div_int : ℤ → ℕ → ℤ
div_int (pos t) n = pos (t / n)
div_int (negsuc t) n = let q = suc t / n in if q == 0 then pos 0 else negsuc (q - 1)

mean : ℤ × ℕ → ℤ × ℕ
unfolding div_int
mean (total, n) = if n == 0 then (pos 0, 0) else (div_int total n, n)

unfoldable pub mttr : MemoryStore → ℤ × ℕ
unfolding mean
mttr m = mean (sum_responses m.created (pos 0, 0))

-- The memory gives no error.
abbrev pub listed : Option (List Alert) → Option (Result (List Alert))
listed none = none
listed (some l) = some (ok l)

abbrev pub memory_store : Store
memory_store = record {
  State = MemoryStore;
  create = create;
  get = get;
  update = update;
  list = λ f m. listed (list f m);
  find_open = find_open;
  counts = λ m. ok (counts m);
  mttr = λ m. ok (mttr m);
}
