-- ===== src/Store/Tally.antt =====
-- internal/store/memory.go: what the counters of `Counts` count.
use sentinel_api.Base.{
  ◌+◌, ◌≤◌, Bool, true, false, List, [], ◌∷◌, ◌≡◌, refl, arith, not, length, count_if, String, Map,
  lookup, lookup-insert, Option, none, some, str_eq, str_eq_iff, ℕ, ◌∙◌, ap, insert, suc,
  Bool-cases, inl, inr, if◌then◌else◌,
}
use sentinel_api.Event
use sentinel_api.Event.{severity_text}
use sentinel_api.Alerts.Model.{
  Alert, Counts, open_, assigned, in_progress, is_active, is_unassigned,
}
use sentinel_api.Store.Memory.{MemoryStore, tally, tally_all, counts, no_counts}

abbrev pub at_open : Alert → Bool
at_open a = elim a.status [ open_ ↦ true | _ ↦ false ]

abbrev pub at_assigned : Alert → Bool
at_assigned a = elim a.status [ assigned ↦ true | _ ↦ false ]

abbrev pub at_in_progress : Alert → Bool
at_in_progress a = elim a.status [ in_progress ↦ true | _ ↦ false ]

abbrev pub at_critical : Alert → Bool
at_critical a = elim a.severity [ Event.critical ↦ true | _ ↦ false ]

abbrev pub at_high : Alert → Bool
at_high a = elim a.severity [ Event.high ↦ true | _ ↦ false ]

abbrev pub at_medium : Alert → Bool
at_medium a = elim a.severity [ Event.medium ↦ true | _ ↦ false ]

abbrev pub at_low : Alert → Bool
at_low a = elim a.severity [ Event.low ↦ true | _ ↦ false ]

abbrev pub live : Alert → Bool
live a = is_active a.status

-- The counters grew by the numbers of alerts that they are named for.
pub record Counted (l : List Alert) (c d : Counts) : Type 0 where
  pub total_active : d.total_active ≡ c.total_active + count_if live l
  pub resolved_count : d.resolved_count ≡ c.resolved_count + count_if (λ a. not (live a)) l
  pub open_count : d.open_count ≡ c.open_count + count_if at_open l
  pub assigned_count : d.assigned_count ≡ c.assigned_count + count_if at_assigned l
  pub in_progress_count : d.in_progress_count ≡ c.in_progress_count + count_if at_in_progress l
  pub unassigned : d.unassigned ≡ c.unassigned + count_if is_unassigned l
  pub critical : d.critical ≡ c.critical + count_if at_critical l
  pub high : d.high ≡ c.high + count_if at_high l
  pub medium : d.medium ≡ c.medium + count_if at_medium l
  pub low : d.low ≡ c.low + count_if at_low l

tally-Counted : (a : Alert) (c : Counts) → Counted (a ∷ []) c (tally a c)
unfolding tally
tally-Counted a c = ground arith

count_if-cons :
    (p : Alert → Bool) (a : Alert) (l : List Alert)
    → count_if p (a ∷ l) ≡ count_if p (a ∷ []) + count_if p l
count_if-cons p a l = ground arith

tally_all-Counted : (l : List Alert) (c : Counts) → Counted l c (tally_all l c)
unfolding tally_all
tally_all-Counted [] c = omega arith
tally_all-Counted (a ∷ l) c = joined (tally-Counted a c) (tally_all-Counted l (tally a c))
  where
    joined : {d e : Counts} → Counted (a ∷ []) c d → Counted l d e → Counted (a ∷ l) c e
    joined v w = record {
      total_active = omega (arith, v.total_active, w.total_active, count_if-cons live a l);
      resolved_count =
          omega (arith, v.resolved_count, w.resolved_count, count_if-cons (λ x. not (live x)) a l);
      open_count = omega (arith, v.open_count, w.open_count, count_if-cons at_open a l);
      assigned_count =
          omega (arith, v.assigned_count, w.assigned_count, count_if-cons at_assigned a l);
      in_progress_count =
          omega (arith, v.in_progress_count, w.in_progress_count, count_if-cons at_in_progress a l);
      unassigned = omega (arith, v.unassigned, w.unassigned, count_if-cons is_unassigned a l);
      critical = omega (arith, v.critical, w.critical, count_if-cons at_critical a l);
      high = omega (arith, v.high, w.high, count_if-cons at_high a l);
      medium = omega (arith, v.medium, w.medium, count_if-cons at_medium a l);
      low = omega (arith, v.low, w.low, count_if-cons at_low a l);
    }

abbrev or_none : Option ℕ → ℕ
or_none none = 0
or_none (some n) = n

-- The number that a map has for a severity; it is 0 where the map has none.
abbrev pub number_in : Map ℕ → String → ℕ
number_in m k = or_none (lookup k m)

abbrev pub of_severity : String → Alert → Bool
of_severity k a = str_eq (severity_text a.severity) k

-- The numbers by severity grew by those of the alerts with that text of a severity.
abbrev pub Graded : List Alert → Counts → Counts → Type 0
Graded l c d =
    (k : String)
    → number_in d.by_severity k ≡ number_in c.by_severity k + count_if (of_severity k) l

pub number-insert :
    (m : Map ℕ) (s k : String) (v : ℕ)
    → number_in (insert s v m) k ≡ (if str_eq s k then v else number_in m k)
number-insert m s k v =
    ap or_none (lookup-insert s k v m)
    ∙ elim (Bool-cases (str_eq s k)) [ inl h ↦ rw h refl | inr h ↦ rw h refl ]

tally_same :
    (a : Alert) (c : Counts)
    → (tally a c).by_severity
      ≡ insert
          (severity_text a.severity)
          (suc (number_in c.by_severity (severity_text a.severity)))
          c.by_severity
unfolding tally
tally_same a c = ground arith

pub number_same : (m : Map ℕ) (s k : String) → str_eq s k ≡ true → number_in m s ≡ number_in m k
number_same m s k h = ap (number_in m) ((str_eq_iff s k).0 h)

tally_graded :
    (a : Alert) (c : Counts) (k : String)
    → number_in (tally a c).by_severity k
      ≡ number_in c.by_severity k + (if of_severity k a then 1 else 0)
tally_graded a c k =
    let s = severity_text a.severity in
    rw (tally_same a c, number-insert)
      (elim (Bool-cases (str_eq s k)) [
        | inl h ↦ rw h (omega (arith, number_same c.by_severity s k h))
        | inr h ↦ rw h (omega arith)
      ])

tally_all-Graded : (l : List Alert) (c : Counts) → Graded l c (tally_all l c)
unfolding tally_all
tally_all-Graded [] c k = omega arith
tally_all-Graded (a ∷ l) c k = ground (arith, tally_all-Graded l (tally a c) k, tally_graded a c k)

live_or_not : (l : List Alert) → count_if live l + count_if (λ a. not (live a)) l ≡ length l
live_or_not [] = refl
live_or_not (a ∷ l) = ground (arith, live_or_not l)

unassigned-le-open : (l : List Alert) → count_if is_unassigned l ≤ count_if at_open l
unfolding is_unassigned
unassigned-le-open [] = omega arith
unassigned-le-open (a ∷ l) = ground (arith, unassigned-le-open l)

fresh : (k : String) → number_in no_counts.by_severity k ≡ 0
unfolding lookup
fresh k = ground arith

-- Each counter of `Counts`, those by severity included, is the number of stored alerts that it is
-- named for; every alert is
-- counted as active or as resolved, and the unassigned are among the open ones.
pub counts_lem :
    (m : MemoryStore)
    → Counted m.created no_counts (counts m)
      × ((k : String) → number_in (counts m).by_severity k ≡ count_if (of_severity k) m.created)
      × ((counts m).total_active + (counts m).resolved_count ≡ length m.created)
      × ((counts m).unassigned ≤ (counts m).open_count)
unfolding counts
counts_lem m =
    let v = tally_all-Counted m.created no_counts in
    (
      v,
      λ k. omega (arith, tally_all-Graded m.created no_counts k, fresh k),
      omega (arith, v.total_active, v.resolved_count, live_or_not m.created),
      omega (arith, v.unassigned, v.open_count, unassigned-le-open m.created),
    )
