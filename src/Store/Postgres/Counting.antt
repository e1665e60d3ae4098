-- ===== src/Store/Postgres/Counting.antt =====
-- internal/store/postgres.go: `Counts` adds up the groups to the numbers of alerts.
use sentinel_api.Base.{
  ℕ, suc, ◌+◌, Map, Bool, true, false, not, List, [], ◌∷◌, ◌++◌, ◌≡◌, refl, sym, ◌∙◌, ap, arith,
  Bool-cases, inl, inr, length, All, count_if, if◌then◌else◌, count_if-perm, count_if-append,
  String, str_eq, lookup, insert,
}
use mathlib.Core.List.{Permᴰ}
use sentinel_api.Event.{Severity, severity_text, severity_of_text}
use sentinel_api.Event
use sentinel_api.Alerts.Model.{
  Alert, Status, open_, assigned, in_progress, Counts, status_of_text, is_active, is_unassigned,
}
use sentinel_api.Store.Tally.{
  Counted, live, at_open, at_assigned, at_in_progress, at_critical, at_high, at_medium, at_low,
  Graded, number-insert, number_same, number_in, of_severity,
}
use sentinel_api.Store.Postgres.Totals.{Group, add_group, add_severity, add_status, or_zero}

-- The counters of two lists add up.
pub Counted-append :
    (k l : List Alert) (b c d : Counts) → Counted k b c → Counted l c d → Counted (k ++ l) b d
Counted-append k l b c d v w = record {
  total_active = omega (arith, v.total_active, w.total_active, count_if-append live k l);
  resolved_count =
      omega (arith, v.resolved_count, w.resolved_count, count_if-append (λ x. not (live x)) k l);
  open_count = omega (arith, v.open_count, w.open_count, count_if-append at_open k l);
  assigned_count =
      omega (arith, v.assigned_count, w.assigned_count, count_if-append at_assigned k l);
  in_progress_count =
      omega (arith, v.in_progress_count, w.in_progress_count, count_if-append at_in_progress k l);
  unassigned = omega (arith, v.unassigned, w.unassigned, count_if-append is_unassigned k l);
  critical = omega (arith, v.critical, w.critical, count_if-append at_critical k l);
  high = omega (arith, v.high, w.high, count_if-append at_high k l);
  medium = omega (arith, v.medium, w.medium, count_if-append at_medium k l);
  low = omega (arith, v.low, w.low, count_if-append at_low k l);
}

pub Counted-perm : (k l : List Alert) (c d : Counts) → Permᴰ k l → Counted k c d → Counted l c d
Counted-perm k l c d p v = record {
  total_active = omega (arith, v.total_active, count_if-perm live p);
  resolved_count = omega (arith, v.resolved_count, count_if-perm (λ x. not (live x)) p);
  open_count = omega (arith, v.open_count, count_if-perm at_open p);
  assigned_count = omega (arith, v.assigned_count, count_if-perm at_assigned p);
  in_progress_count = omega (arith, v.in_progress_count, count_if-perm at_in_progress p);
  unassigned = omega (arith, v.unassigned, count_if-perm is_unassigned p);
  critical = omega (arith, v.critical, count_if-perm at_critical p);
  high = omega (arith, v.high, count_if-perm at_high p);
  medium = omega (arith, v.medium, count_if-perm at_medium p);
  low = omega (arith, v.low, count_if-perm at_low p);
}

pub Graded-append :
    (k l : List Alert) (b c d : Counts) → Graded k b c → Graded l c d → Graded (k ++ l) b d
Graded-append k l b c d v w i = omega (arith, v i, w i, count_if-append (of_severity i) k l)

pub Graded-perm : (k l : List Alert) (c d : Counts) → Permᴰ k l → Graded k c d → Graded l c d
Graded-perm k l c d p v i = omega (arith, v i, count_if-perm (of_severity i) p)

abbrev opened : Status → Bool
opened s = elim s [ open_ ↦ true | _ ↦ false ]

abbrev taken : Status → Bool
taken s = elim s [ assigned ↦ true | _ ↦ false ]

abbrev started : Status → Bool
started s = elim s [ in_progress ↦ true | _ ↦ false ]

abbrev graded_critical : Severity → Bool
graded_critical s = elim s [ Event.critical ↦ true | _ ↦ false ]

abbrev graded_high : Severity → Bool
graded_high s = elim s [ Event.high ↦ true | _ ↦ false ]

abbrev graded_medium : Severity → Bool
graded_medium s = elim s [ Event.medium ↦ true | _ ↦ false ]

abbrev graded_low : Severity → Bool
graded_low s = elim s [ Event.low ↦ true | _ ↦ false ]

-- A group with the alerts that it counts: they have one status and one severity.
pub record Batch (g : Group) (q : List Alert) : Type 0 where
  pub same_status : All (λ a. a.status ≡ status_of_text g.status) q
  pub same_severity : All (λ a. a.severity ≡ severity_of_text g.severity) q
  pub same_text : All (λ a. severity_text a.severity ≡ g.severity) q
  pub actives : g.active ≡ count_if live q
  pub resolveds : g.resolved ≡ count_if (λ a. not (live a)) q
  pub unassigneds : g.unassigned ≡ count_if is_unassigned q

-- A test that is the same for all elements counts all or none.
count_if_const :
    (p : Alert → Bool) (b : Bool) (q : List Alert)
    → All (λ a. p a ≡ b) q
    → count_if p q ≡ (if b then length q else 0)
count_if_const p true [] h = refl
count_if_const p false [] h = refl
count_if_const p true (a ∷ q) h = rw h.0 (ap suc (count_if_const p true q h.1))
count_if_const p false (a ∷ q) h = rw h.0 (count_if_const p false q h.1)

by_field :
    {F : Type 0} (f : Alert → F) (p : F → Bool) (x : F) (q : List Alert)
    → All (λ a. f a ≡ x) q
    → count_if (λ a. p (f a)) q ≡ (if p x then length q else 0)
by_field f p x q h = count_if_const (λ a. p (f a)) (p x) q (each q h)
  where
    each : (q : List Alert) → All (λ a. f a ≡ x) q → All (λ a. p (f a) ≡ p x) q
    each [] h = tt
    each (a ∷ q) h = (ap p h.0, each q h.1)

abbrev when : Bool → ℕ → ℕ
when b n = if b then n else 0

-- What one step of the loop adds to each counter.
record Added (n active : ℕ) (sv : Severity) (st : Status) (g : Group) (c d : Counts) : Type 0 where
  total_active : d.total_active ≡ c.total_active + g.active
  resolved_count : d.resolved_count ≡ c.resolved_count + g.resolved
  unassigned : d.unassigned ≡ c.unassigned + g.unassigned
  open_count : d.open_count ≡ c.open_count + when (opened st) active
  assigned_count : d.assigned_count ≡ c.assigned_count + when (taken st) active
  in_progress_count : d.in_progress_count ≡ c.in_progress_count + when (started st) active
  critical : d.critical ≡ c.critical + when (graded_critical sv) n
  high : d.high ≡ c.high + when (graded_high sv) n
  medium : d.medium ≡ c.medium + when (graded_medium sv) n
  low : d.low ≡ c.low + when (graded_low sv) n

add_group-Added :
    (g : Group) (c : Counts)
    → Added
        (g.active + g.resolved)
        g.active
        (severity_of_text g.severity)
        (status_of_text g.status)
        g
        c
        (add_group g c)
unfolding add_group add_severity add_status
add_group-Added g c = go _ (severity_of_text g.severity) (status_of_text g.status)
  where
    go :
        (m : Map ℕ) (sv : Severity) (st : Status)
        → Added (g.active + g.resolved) g.active sv st g c (
            let n = g.active + g.resolved in
            let c = add_severity sv n (record c { by_severity = m }) in
            add_status st g.active (record c {
              total_active = c.total_active + g.active;
              resolved_count = c.resolved_count + g.resolved;
              unassigned = c.unassigned + g.unassigned;
            }))
    go m sv st = ground arith

add_status_same :
    (st : Status) (n : ℕ) (c : Counts) → (add_status st n c).by_severity ≡ c.by_severity
unfolding add_status
add_status_same st n c = ground arith

add_severity_same :
    (sv : Severity) (n : ℕ) (c : Counts) → (add_severity sv n c).by_severity ≡ c.by_severity
unfolding add_severity
add_severity_same sv n c = ground arith

number_added :
    (m : Map ℕ) (s k : String) (n : ℕ)
    → number_in (insert s (or_zero (lookup s m) + n) m) k ≡ number_in m k + when (str_eq s k) n
number_added m s k n = rw number-insert (elim (Bool-cases (str_eq s k)) [
  | inl h ↦ rw h (omega (arith, number_same m s k h))
  | inr h ↦ rw h (omega arith)
])

add_group_graded :
    (g : Group) (c : Counts) (k : String)
    → number_in (add_group g c).by_severity k
      ≡ number_in c.by_severity k + when (str_eq g.severity k) (g.active + g.resolved)
unfolding add_group
add_group_graded g c k =
    rw (add_status_same, add_severity_same) (number_added c.by_severity g.severity k _)

live_or_not : (q : List Alert) → count_if live q + count_if (λ a. not (live a)) q ≡ length q
live_or_not [] = refl
live_or_not (a ∷ q) = ground (arith, live_or_not q)

module _ (g : Group) (q : List Alert) (b : Batch g q) where
  -- The active alerts of the group are those of a status, if it is the group's.
  of_status :
      (p : Status → Bool)
      → ((s : Status) → p s ≡ true → is_active s ≡ true)
      → when (p (status_of_text g.status)) g.active ≡ count_if (λ a. p a.status) q
  of_status p lives =
      let counted = by_field (λ a. a.status) p (status_of_text g.status) q b.same_status in
      let all = by_field (λ a. a.status) is_active (status_of_text g.status) q b.same_status in
      elim (Bool-cases (p (status_of_text g.status))) [
        | inl h ↦ rw h (
            b.actives
            ∙ all
            ∙ ap (λ x. if x then length q else 0) (lives (status_of_text g.status) h)
            ∙ sym (counted ∙ ap (λ x. if x then length q else 0) h))
        | inr h ↦ rw h (sym (counted ∙ ap (λ x. if x then length q else 0) h))
      ]

  -- All the alerts of the group are those of a severity, if it is the group's.
  of_grade :
      (p : Severity → Bool)
      → when (p (severity_of_text g.severity)) (g.active + g.resolved)
        ≡ count_if (λ a. p a.severity) q
  of_grade p =
      let size : g.active + g.resolved ≡ length q =
        omega (arith, b.actives, b.resolveds, live_or_not q) in
      rw size (sym (by_field (λ a. a.severity) p (severity_of_text g.severity) q b.same_severity))

  pub batch-Graded : (c : Counts) → Graded q c (add_group g c)
  batch-Graded c k =
      let size : g.active + g.resolved ≡ length q =
        omega (arith, b.actives, b.resolveds, live_or_not q) in
      let counted =
        by_field (λ a. severity_text a.severity) (λ s. str_eq s k) g.severity q b.same_text in
      add_group_graded g c k
      ∙ ap (λ n. number_in c.by_severity k + n) (ap (when (str_eq g.severity k)) size ∙ sym counted)

  pub batch-Counted : (c : Counts) → Counted q c (add_group g c)
  unfolding is_active
  batch-Counted c =
      let d = add_group-Added g c in
      record {
        total_active = omega (arith, d.total_active, b.actives);
        resolved_count = omega (arith, d.resolved_count, b.resolveds);
        unassigned = omega (arith, d.unassigned, b.unassigneds);
        open_count =
            d.open_count ∙ ap (λ x. c.open_count + x) (of_status opened (λ s h. ground arith));
        assigned_count =
            d.assigned_count
            ∙ ap (λ x. c.assigned_count + x) (of_status taken (λ s h. ground arith));
        in_progress_count =
            d.in_progress_count
            ∙ ap (λ x. c.in_progress_count + x) (of_status started (λ s h. ground arith));
        critical = d.critical ∙ ap (λ x. c.critical + x) (of_grade graded_critical);
        high = d.high ∙ ap (λ x. c.high + x) (of_grade graded_high);
        medium = d.medium ∙ ap (λ x. c.medium + x) (of_grade graded_medium);
        low = d.low ∙ ap (λ x. c.low + x) (of_grade graded_low);
      }
