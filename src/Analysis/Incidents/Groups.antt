-- ===== src/Analysis/Incidents/Groups.antt =====
-- internal/analysis/analysis.go: `GroupIncidents` against a plain definition of the groups.
use sentinel_api.Base.{
  ℕ, String, Bool, not, Option, none, some, List, [], ◌∷◌, ◌++◌, ◌≡◌, refl, sym, ◌∙◌, ap, subst,
  inl, inr, arith, str_eq, str_eq_iff, filter, any, Map, lookup, lookup-insert, Bool-cases,
  if◌then◌else◌, ◌<◌, ◌≤◌, ◌⊎◌, ltb, ◌==◌, is_blank, All, IsSorted, false, true,
}
use Prim.Native.String.{◌++◌ as text_append}
use sentinel_api.Event.{Severity, critical, high, medium, low, unknown}
use sentinel_api.Analysis.Chain.{sev_rank}
use mathlib.Core.List.{append-nil, append_assoc, Permᴰ}
use sentinel_api.Alerts.Model.{Alert, resolved, is_active}
use sentinel_api.Analysis.Incidents.{
  Incident, incident_key, or_nil, with_new, file_alert, file_alerts, incident_before, incident_of,
  add_incident, collect_incidents, group_incidents, build_incident, has_active,
}

abbrev pub grade_of : Severity → ℕ
grade_of s = elim s [ critical ↦ 4 | high ↦ 3 | medium ↦ 2 | low ↦ 1 | unknown t ↦ 0 ]

-- What the alerts of an incident share: the source, or without one the asset.
abbrev pub group_name : Alert → String
group_name a =
    if not (is_blank a.src_ip) then text_append "ip:" a.src_ip else text_append "asset:" a.asset

abbrev pub has_key : String → Alert → Bool
has_key k a = str_eq (group_name a) k

-- The alerts of a key, in order.
abbrev pub with_key : String → List Alert → List Alert
with_key k alerts = filter (has_key k) alerts

abbrev without : String → List String → List String
without j ks = filter (λ k. not (str_eq j k)) ks

-- The keys in the order in which they first occur, each once.
unfoldable pub keys_of : List Alert → List String
keys_of [] = []
keys_of (a ∷ alerts) = group_name a ∷ without (group_name a) (keys_of alerts)

-- A group that a map holds: none if it is empty.
abbrev held : List Alert → Option (List Alert)
held [] = none
held (a ∷ g) = some (a ∷ g)

or_nil-held : (g : List Alert) → or_nil (held g) ≡ g
or_nil-held [] = refl
or_nil-held (a ∷ g) = refl

held-append : (g : List Alert) (a : Alert) → held (g ++ a ∷ []) ≡ some (g ++ a ∷ [])
held-append [] a = refl
held-append (b ∷ g) a = refl

filter-append :
    {A : Type 0} (p : A → Bool) (xs : List A) (y : A)
    → filter p (xs ++ y ∷ []) ≡ filter p xs ++ (if p y then y ∷ [] else [])
filter-append p [] y = refl
filter-append p (x ∷ xs) y = ground (arith, filter-append p xs y)

without-append :
    (j k : String) (ks : List String)
    → without j (ks ++ k ∷ []) ≡ (if str_eq j k then without j ks else without j ks ++ k ∷ [])
without-append j k ks = elim (Bool-cases (str_eq j k)) [
  | inl h ↦ filter-append (λ k. not (str_eq j k)) ks k ∙ rw h (append-nil (without j ks))
  | inr h ↦ filter-append (λ k. not (str_eq j k)) ks k ∙ rw h refl
]

keys_of-append :
    (seen : List Alert) (a : Alert)
    → keys_of (seen ++ a ∷ []) ≡ (
        if any (has_key (group_name a)) seen
        then keys_of seen
        else keys_of seen ++ group_name a ∷ [])
unfolding keys_of
keys_of-append [] a = refl
keys_of-append (b ∷ seen) a =
    let e = without-append (group_name b) (group_name a) (keys_of seen) in
    elim (Bool-cases (has_key (group_name a) b)) [
      | inl h ↦ elim (Bool-cases (any (has_key (group_name a)) seen)) [
        | inl k ↦ rw (keys_of-append seen a, k, h)
        | inr k ↦ rw (keys_of-append seen a, k, h) (ap (◌∷◌ (group_name b)) (e ∙ rw h))
      ]
      | inr h ↦ elim (Bool-cases (any (has_key (group_name a)) seen)) [
        | inl k ↦ rw (keys_of-append seen a, k, h)
        | inr k ↦ rw (keys_of-append seen a, k, h) (ap (◌∷◌ (group_name b)) (e ∙ rw h))
      ]
    ]

record Grouped (seen : List Alert) (st : List String × Map (List Alert)) : Type 0 where
  ordered : st.0 ≡ keys_of seen
  grouped : (k : String) → lookup k st.1 ≡ held (with_key k seen)

with_new-held :
    (k : String) (seen : List Alert) (order : List String)
    → with_new (held (with_key k seen)) order k
      ≡ (if any (has_key k) seen then order else order ++ k ∷ [])
with_new-held k [] order = refl
with_new-held k (a ∷ seen) order = elim (Bool-cases (has_key k a)) [
  | inl h ↦ rw h
  | inr h ↦ rw h (with_new-held k seen order)
]

file_alert-Grouped :
    (a : Alert) (seen : List Alert) (order : List String) (groups : Map (List Alert))
    → Grouped seen (order, groups)
    → Grouped (seen ++ a ∷ []) (file_alert a (order, groups))
unfolding file_alert incident_key
file_alert-Grouped a seen order groups v = record {
  ordered =
      ap (λ o. with_new o order (group_name a)) (v.grouped (group_name a))
      ∙ with_new-held (group_name a) seen order
      ∙ rw v.ordered (sym (keys_of-append seen a));
  grouped = λ k.
      rw
        (
          lookup-insert,
          v.grouped (group_name a),
          or_nil-held (with_key (group_name a) seen),
          filter-append (has_key k) seen a,
        )
        (elim (Bool-cases (has_key k a)) [
          | inl h ↦ rw h (
              subst
                (λ j.
                  some (with_key (group_name a) seen ++ a ∷ []) ≡ held (with_key j seen ++ a ∷ []))
                ((str_eq_iff (group_name a) k).0 h)
                (sym (held-append (with_key (group_name a) seen) a)))
          | inr h ↦ rw (h, append-nil) (v.grouped k)
        ]);
}

new_groups : Grouped [] ([], [])
unfolding keys_of lookup
new_groups = record { ordered = refl; grouped = λ k. refl }

file_alerts-Grouped :
    (alerts seen : List Alert) (order : List String) (groups : Map (List Alert))
    → Grouped seen (order, groups)
    → Grouped (seen ++ alerts) (file_alerts alerts (order, groups))
unfolding file_alerts file_alert
file_alerts-Grouped [] seen order groups v = rw append-nil v
file_alerts-Grouped (a ∷ alerts) seen order groups v =
    rw (← append_assoc seen (a ∷ []) alerts)
      (file_alerts-Grouped alerts (seen ++ a ∷ []) _ _ (file_alert-Grouped a seen order groups v))

-- Not resolved.
abbrev pub is_pending : Alert → Bool
is_pending a = elim a.status [ resolved ↦ false | _ ↦ true ]

abbrev pub Above : Incident → Incident → Type 0
Above x y =
    (grade_of y.severity < grade_of x.severity)
    ⊎ ((grade_of x.severity ≡ grade_of y.severity) × (y.last_seen ≤ x.last_seen))

-- The most severe incident first, then the latest.
abbrev pub Ranked : List Incident → Type 0
Ranked [] = Unit
Ranked (x ∷ l) = All (Above x) l × Ranked l

sev_rank-grade : (s : Severity) → sev_rank s ≡ grade_of s
unfolding sev_rank
sev_rank-grade s = ground arith

above :
    (g h s t : ℕ)
    → (if not (h == g) then ltb g h else ltb s t) ≡ false
    → (h < g) ⊎ ((g ≡ h) × (t ≤ s))
above g h s t e = ground arith

incident_before-Above : (x y : Incident) → incident_before y x ≡ false → Above x y
unfolding incident_before
incident_before-Above x y h =
    above (grade_of x.severity) (grade_of y.severity) x.last_seen y.last_seen
      (rw (sev_rank-grade x.severity, sev_rank-grade y.severity) at h)

All-Above :
    (x : Incident) (l : List Incident) → All (λ y. incident_before y x ≡ false) l → All (Above x) l
All-Above x [] h = tt
All-Above x (y ∷ l) h = (incident_before-Above x y h.0, All-Above x l h.1)

IsSorted-Ranked : (l : List Incident) → IsSorted incident_before l → Ranked l
IsSorted-Ranked [] h = tt
IsSorted-Ranked (x ∷ l) h = (All-Above x l h.0, IsSorted-Ranked l h.1)

-- What is documented of `sort.Slice`: it rearranges a list so that no element must come before one
-- that stands above it.
abbrev pub Sorts : ((Incident → Incident → Bool) → List Incident → List Incident) → Type 0
Sorts sort =
    (l : List Incident)
    → IsSorted incident_before (sort incident_before l) × Permᴰ (sort incident_before l) l

module _ (digest : String → String) (walk : Map ℕ → List String) where
  -- The incident of a group, if one of its alerts is not resolved.
  abbrev pub of_group : List Alert → ℕ → List Incident
  of_group [] now = []
  of_group (a ∷ g) now =
      if any is_pending (a ∷ g) then build_incident digest walk a g now ∷ [] else []

  any_active : (g : List Alert) → has_active g ≡ any is_pending g
  unfolding has_active is_active
  any_active [] = refl
  any_active (a ∷ g) = ground (arith, any_active g)

  add-of_group :
      (g : List Alert) (now : ℕ) (out : List Incident)
      → add_incident (incident_of digest walk g now) out ≡ of_group g now ++ out
  unfolding incident_of
  add-of_group [] now out = refl
  add-of_group (a ∷ g) now out =
      rw (any_active (a ∷ g))
        (elim (Bool-cases (any is_pending (a ∷ g))) [ inl h ↦ rw h refl | inr h ↦ rw h refl ])

  -- The incidents of the keys: those of whose alerts one is active.
  unfoldable pub incidents_for : List String → List Alert → ℕ → List Incident
  incidents_for [] alerts now = []
  incidents_for (k ∷ ks) alerts now =
      of_group (with_key k alerts) now ++ incidents_for ks alerts now

  collect-Grouped :
      (order : List String) (groups : Map (List Alert)) (alerts : List Alert) (now : ℕ)
      → ((k : String) → lookup k groups ≡ held (with_key k alerts))
      → collect_incidents digest walk order groups now ≡ incidents_for order alerts now
  unfolding collect_incidents incidents_for
  collect-Grouped [] groups alerts now g = refl
  collect-Grouped (k ∷ order) groups alerts now g =
      rw (g k, or_nil-held (with_key k alerts), collect-Grouped order groups alerts now g)
        (add-of_group (with_key k alerts) now (incidents_for order alerts now))

  -- Whatever the sort, it is given the incidents of the keys.
  pub group_incidents_sort :
      (sort : (Incident → Incident → Bool) → List Incident → List Incident) (alerts : List Alert)
      (now : ℕ)
      → group_incidents digest walk sort alerts now
        ≡ sort incident_before (incidents_for (keys_of alerts) alerts now)
  unfolding group_incidents
  group_incidents_sort sort alerts now =
      let v = file_alerts-Grouped alerts [] [] [] new_groups in
      ap (sort incident_before) (
        collect-Grouped _ _ alerts now v.grouped ∙ ap (λ ks. incidents_for ks alerts now) v.ordered)

  -- With a sort as documented, the incidents are ranked, the most severe first and then the latest, and
  -- are an arrangement of one for each source, or asset without a source, that has an alert which is
  -- not resolved, built from all its alerts in their order.
  pub group_incidents_lem :
      (sort : (Incident → Incident → Bool) → List Incident → List Incident) (alerts : List Alert)
      (now : ℕ)
      → Sorts sort
      → Ranked (group_incidents digest walk sort alerts now)
        × Permᴰ
            (group_incidents digest walk sort alerts now)
            (incidents_for (keys_of alerts) alerts now)
  group_incidents_lem sort alerts now sorts =
      rw group_incidents_sort (IsSorted-Ranked _ (sorts _).0, (sorts _).1)
