-- ===== src/Analysis/Incidents/Deadlines.antt =====
-- internal/analysis/analysis.go: what `buildIncident` says of a group of alerts.
use sentinel_api.Base.{
  ℕ, zero, suc, ◌+◌, ◌≤◌, ◌<◌, max, min, String, Bool, true, false, not, ◌&&◌, ◌||◌, Option, none,
  some, List, [], ◌∷◌, ◌++◌, map, ◌≡◌, refl, sym, ◌∙◌, ap, arith, ltb, ◌==◌, ◌⊎◌, any, All, Map,
  if◌then◌else◌,
}
use mathlib.Core.List.{append_assoc, append-nil}
use sentinel_api.Alerts.Model.{
  Alert, Status, open_, assigned, in_progress, resolved, custom, is_active,
}
use sentinel_api.Analysis.Chain.{earlier_of, later_of}
use sentinel_api.Analysis.Incidents.{
  Incident, Summary, no_summary, summarise, merge_status, next_status, is_taken, is_ended,
  ttr_target, ttm_target, sla_of, build_incident,
}

-- How far an alert is taken up; a resolved one counts for nothing.
abbrev pub stage_of : Status → ℕ
stage_of resolved = 0
stage_of in_progress = 3
stage_of assigned = 2
stage_of _ = 1

abbrev pub furthest : List Alert → ℕ
furthest [] = 0
furthest (a ∷ group) = max (stage_of a.status) (furthest group)

-- The status of an incident at a stage.
abbrev pub at_stage : ℕ → Option Status
at_stage zero = none
at_stage (suc zero) = some open_
at_stage (suc (suc zero)) = some assigned
at_stage (suc (suc (suc n))) = some in_progress

merge_status_stage :
    (a : Status) (n : ℕ) → n < 4 → merge_status a (at_stage n) ≡ at_stage (max (stage_of a) n)
unfolding merge_status next_status is_active
merge_status_stage open_ n h = ground arith
merge_status_stage assigned n h = ground arith
merge_status_stage in_progress n h = ground arith
merge_status_stage resolved n h = ground arith
merge_status_stage (custom s) n h = ground arith

stage_of-lt : (s : Status) → stage_of s < 4
stage_of-lt open_ = omega arith
stage_of-lt assigned = omega arith
stage_of-lt in_progress = omega arith
stage_of-lt resolved = omega arith
stage_of-lt (custom s) = omega arith

earlier_of-min : (t first : ℕ) → 0 < first → earlier_of t first ≡ min t first
earlier_of-min t first h = ground arith

late_min :
    (t first d now : ℕ) → ltb (min t first + d) now ≡ (ltb (t + d) now || ltb (first + d) now)
late_min t first d now = ground arith

regroup : (x a y r : Bool) → (a || (x || y)) ≡ r → ((if x then true else a) || y) ≡ r
regroup true true y r h = h
regroup true false y r h = h
regroup false a y r h = h

later_of_lem : (t last : ℕ) → (t ≤ later_of t last) × (last ≤ later_of t last)
later_of_lem t last = ground arith

furthest-lt : (group : List Alert) → furthest group < 4
furthest-lt [] = omega arith
furthest-lt (a ∷ group) = omega (arith, furthest-lt group, stage_of-lt a.status)

summarise-status :
    (group : List Alert) (s : Summary) (n : ℕ)
    → n < 4
    → s.status ≡ at_stage n
    → (summarise group s).status ≡ at_stage (max (furthest group) n)
unfolding summarise
summarise-status [] s n h e = e ∙ ap at_stage (omega arith)
summarise-status (a ∷ group) s n h e =
    summarise-status group (summarise (a ∷ []) s) (max (stage_of a.status) n)
      (omega (arith, stage_of-lt a.status))
      (ap (merge_status a.status) e ∙ merge_status_stage a.status n h)
    ∙ ap at_stage (omega arith)

summarise-ids :
    (group : List Alert) (s : Summary)
    → (summarise group s).alert_ids ≡ s.alert_ids ++ map (λ a. a.id) group
unfolding summarise
summarise-ids [] s = sym (append-nil s.alert_ids)
summarise-ids (a ∷ group) s =
    summarise-ids group (summarise (a ∷ []) s)
    ∙ append_assoc s.alert_ids (a.id ∷ []) (map (λ x. x.id) group)

abbrev pub starts : ℕ → Alert → Bool
starts t a = a.started_at == t

abbrev pub ends : ℕ → Alert → Bool
ends t a = a.last_seen_at == t

first_choice : (t first : ℕ) → (earlier_of t first ≡ t) ⊎ (earlier_of t first ≡ first)
first_choice t first = ground arith

last_choice : (t last : ℕ) → (later_of t last ≡ t) ⊎ (later_of t last ≡ last)
last_choice t last = ground arith

-- The result is one of the others, or what one step chose of two.
one_of_two :
    (x y z r : ℕ) (others : Bool)
    → (z ≡ x) ⊎ (z ≡ y)
    → (others || (z == r)) ≡ true
    → ((if x == r then true else others) || (y == r)) ≡ true
one_of_two x y z r others c h = ground arith

-- What the loop makes of the times, from a first time that is set.
record Spans (group : List Alert) (s t : Summary) : Type 0 where
  earlier : t.first_seen ≤ s.first_seen
  earliest : All (λ a. t.first_seen ≤ a.started_at) group
  later : s.last_seen ≤ t.last_seen
  first_of : (any (starts t.first_seen) group || (s.first_seen == t.first_seen)) ≡ true
  last_of : (any (ends t.last_seen) group || (s.last_seen == t.last_seen)) ≡ true
  latest : All (λ a. a.last_seen_at ≤ t.last_seen) group
  attained :
      (d now : ℕ)
      → (any (λ a. ltb (a.started_at + d) now) group || ltb (s.first_seen + d) now)
        ≡ ltb (t.first_seen + d) now

summarise-Spans :
    (group : List Alert) (s : Summary)
    → 0 < s.first_seen
    → All (λ a. 0 < a.started_at) group
    → Spans group s (summarise group s)
unfolding summarise
summarise-Spans [] s h p = record {
  earlier = omega arith;
  earliest = tt;
  first_of = ground arith;
  last_of = ground arith;
  later = omega arith;
  latest = tt;
  attained = λ d now. refl;
}
summarise-Spans (a ∷ group) s h p =
    let next = summarise (a ∷ []) s in
    let step = earlier_of-min a.started_at s.first_seen h in
    let v = summarise-Spans group next (omega (arith, step, p.0)) p.1 in
    record {
      earlier = omega (arith, step, v.earlier);
      earliest = (omega (arith, step, v.earlier), v.earliest);
      first_of =
          one_of_two a.started_at s.first_seen next.first_seen _ _
            (first_choice a.started_at s.first_seen) v.first_of;
      last_of =
          one_of_two a.last_seen_at s.last_seen next.last_seen _ _
            (last_choice a.last_seen_at s.last_seen) v.last_of;
      later = omega (arith, later_of_lem a.last_seen_at s.last_seen, v.later);
      latest = (omega (arith, later_of_lem a.last_seen_at s.last_seen, v.later), v.latest);
      attained = λ d now. regroup (ltb (a.started_at + d) now) _ _ _ (
          ap (λ b. any (λ x. ltb (x.started_at + d) now) group || b)
            (sym (late_min a.started_at s.first_seen d now) ∙ ap (λ t. ltb (t + d) now) (sym step))
          ∙ v.attained d now);
    }

in_group : (a others : Bool) → (others || a) ≡ true → (if a then true else others) ≡ true
in_group true others h = refl
in_group false true h = refl
in_group false false h = h

last_in :
    (t r : ℕ) (others : Bool)
    → (others || (later_of t 0 == r)) ≡ true
    → (if t == r then true else others) ≡ true
last_in t r others h = ground arith

last_first : (a x : Bool) → (a || x) ≡ (if x then true else a)
last_first true true = refl
last_first true false = refl
last_first false true = refl
last_first false false = refl

-- What an incident says of its alerts at a time.
pub record Describes (group : List Alert) (now : ℕ) (i : Incident) : Type 0 where
  pub listed : i.alert_ids ≡ map (λ a. a.id) group
  pub staged : i.status ≡ at_stage (furthest group)
  pub earliest : All (λ a. i.first_seen ≤ a.started_at) group
  pub latest : All (λ a. a.last_seen_at ≤ i.last_seen) group
  pub first : any (starts i.first_seen) group ≡ true
  pub last : any (ends i.last_seen) group ≡ true
  pub ttr :
      i.sla.ttr_breached
      ≡ (not (any is_taken group) && any (λ a. ltb (a.started_at + ttr_target) now) group)
  pub ttm :
      i.sla.ttm_breached
      ≡ (not (any is_ended group) && any (λ a. ltb (a.started_at + ttm_target) now) group)

-- Of alerts with a start time, the incident has all ids in order, the status of the one that is
-- furthest taken up (resolved ones aside; none if all are resolved), the earliest of their starts, the
-- latest of their last times, and it is late in its response if no alert was taken up and one started more than 15 minutes ago, late
-- in its mitigation if none was resolved and one started more than two hours ago.
pub build_incident_lem :
    (digest : String → String) (walk : Map ℕ → List String) (a : Alert) (rest : List Alert)
    (now : ℕ)
    → All (λ x. 0 < x.started_at) (a ∷ rest)
    → Describes (a ∷ rest) now (build_incident digest walk a rest now)
unfolding build_incident summarise sla_of
build_incident_lem digest walk a rest now p =
    let one = summarise (a ∷ []) no_summary in
    let v = summarise-Spans rest one p.0 p.1 in
    let breach : (d : ℕ)
        → ltb ((summarise rest one).first_seen + d) now
          ≡ any (λ x. ltb (x.started_at + d) now) (a ∷ rest) =
      λ d.
        sym (v.attained d now)
        ∙ last_first (any (λ x. ltb (x.started_at + d) now) rest) (ltb (a.started_at + d) now) in
    record {
      listed = summarise-ids rest one;
      staged =
          summarise-status (a ∷ rest) no_summary 0 (omega arith) refl ∙ ap at_stage (omega arith);
      earliest = (v.earlier, v.earliest);
      latest = (omega (arith, later_of_lem a.last_seen_at 0, v.later), v.latest);
      first = in_group (starts (summarise rest one).first_seen a) _ v.first_of;
      last = last_in a.last_seen_at (summarise rest one).last_seen _ v.last_of;
      ttr = ap (λ b. not (any is_taken (a ∷ rest)) && b) (breach ttr_target);
      ttm = ap (λ b. not (any is_ended (a ∷ rest)) && b) (breach ttm_target);
    }
