-- ===== src/Store/Index.antt =====
-- internal/store/memory.go: the index by id agrees with the alerts, and the store meets the laws
-- that the service relies on.
use sentinel_api.Base.{
  ℕ, String, none, some, [], ◌∷◌, ◌++◌, ◌≡◌, refl, sym, ◌∙◌, ap, inl, inr, subst, str_eq,
  str_eq_iff, Bool-cases, Option-cases, length, get_elem?, set, get_elem?-set_self,
  get_elem?-set_ne, get_elem?-append_last, get_elem?-append_lt, get_elem?-lt, lookup, insert,
  lookup-insert,
}
use native.Mathlib.Decide.{ℕ_discrete}
use sentinel_api.Alerts.Model.{Alert}
use sentinel_api.Alerts.Store.{
  Error, not_found, ok, err, Laws, find_alert, replace_alert, find_active,
}
use sentinel_api.Store.Memory.{
  MemoryStore, new_memory, create, get, update, find_open, memory_store, create_at, get_at,
  update_at, or_missing,
}
use sentinel_api.Store.Positions.{
  Sole, find_alert-at, replace_alert-at, find_active-at, get_elem?-snoc,
}

-- The index by id and the alerts agree: each entry leads to the alert of its id, and each alert has
-- an entry that leads to its place.
pub record IsIndexed (m : MemoryStore) : Type 0 where
  pub points :
      (i : String) (p : ℕ)
      → lookup i m.by_id ≡ some p
      → (a : Alert) × (get_elem? m.created p ≡ some a) × (a.id ≡ i)
  pub filed : (p : ℕ) (a : Alert) → get_elem? m.created p ≡ some a → lookup a.id m.by_id ≡ some p

-- A new store is indexed.
pub new_memory-IsIndexed : IsIndexed new_memory
unfolding new_memory lookup
new_memory-IsIndexed = record { points = λ i p h. cc; filed = λ p a h. cc }

module _ (m : MemoryStore) (v : IsIndexed m) where
  sole : (i : String) (p : ℕ) → lookup i m.by_id ≡ some p → Sole i p m.created
  sole i p h q b e f =
      let h' : lookup i m.by_id ≡ some q =
        subst (λ j. lookup j m.by_id ≡ some q) f (v.filed q b e) in
      cc (h, h')

  pub find_alert-lookup :
      (i : String) (p : ℕ) (a : Alert)
      → lookup i m.by_id ≡ some p
      → get_elem? m.created p ≡ some a
      → find_alert i m.created ≡ some a
  find_alert-lookup i p a h e =
      let (b, f, q) = v.points i p h in
      let same : a ≡ b = cc in find_alert-at i m.created p a e (rw same q) (sole i p h)

  pub find_alert_self :
      (p : ℕ) (a : Alert) → get_elem? m.created p ≡ some a → find_alert a.id m.created ≡ some a
  find_alert_self p a e = find_alert-lookup a.id p a (v.filed p a e) e

  pub get_ok : (i : String) (a : Alert) → get i m ≡ ok a → find_alert i m.created ≡ some a
  unfolding get get_at or_missing
  get_ok i a h = elim (Option-cases (lookup i m.by_id)) [
    | inl e ↦ cc (rw e at h)
    | inr (p, e) ↦ elim (Option-cases (get_elem? m.created p)) [
      | inl f ↦ cc (rw (e, f) at h)
      | inr (b, f) ↦ find_alert-lookup i p a e (f ∙ ap some (cc (rw (e, f) at h)))
    ]
  ]

  create-points :
      (a : Alert) (i : String) (p : ℕ)
      → lookup i (insert a.id (length m.created) m.by_id) ≡ some p
      → (b : Alert) × (get_elem? (m.created ++ a ∷ []) p ≡ some b) × (b.id ≡ i)
  create-points a i p h = elim (Bool-cases (str_eq a.id i)) [
    | inl e ↦
        let here : length m.created ≡ p = cc (rw (lookup-insert, e) at h) in
        (
          a,
          subst (λ q. get_elem? (m.created ++ a ∷ []) q ≡ some a) here
              (get_elem?-append_last m.created a),
          (str_eq_iff a.id i).0 e,
        )
    | inr e ↦
        let (b, f, q) = v.points i p (rw (lookup-insert, e) at h) in
        (b, get_elem?-append_lt m.created _ p (get_elem?-lt m.created p b f) ∙ f, q)
  ]

  create-filed :
      (a : Alert) (p : ℕ) (b : Alert)
      → lookup a.id m.by_id ≡ none
      → get_elem? (m.created ++ a ∷ []) p ≡ some b
      → lookup b.id (insert a.id (length m.created) m.by_id) ≡ some p
  create-filed a p b n e = elim (get_elem?-snoc m.created a b p e) [
    | inr (q, f) ↦ rw (lookup-insert, f, q, (str_eq_iff a.id a.id).1 refl)
    | inl f ↦ elim (Bool-cases (str_eq a.id b.id)) [
      | inl c ↦ cc (n, v.filed p b f, (str_eq_iff a.id b.id).0 c)
      | inr c ↦ rw (lookup-insert, c) (v.filed p b f)
    ]
  ]

  -- In a store whose index agrees with its alerts, an accepted `Create` keeps that so and appends
  -- the alert.
  pub create_ok :
      (a : Alert) (m' : MemoryStore)
      → create a m ≡ ok m'
      → IsIndexed m' × (m'.created ≡ m.created ++ a ∷ [])
  unfolding create create_at
  create_ok a m' h = elim (Option-cases (lookup a.id m.by_id)) [
    | inr (p, e) ↦ cc (rw e at h)
    | inl e ↦
        subst (λ x. IsIndexed x × (x.created ≡ m.created ++ a ∷ [])) (cc (rw e at h))
          (record { points = create-points a; filed = λ p b f. create-filed a p b e f }, refl)
  ]

  update-points :
      (a : Alert) (p : ℕ) (i : String) (q : ℕ)
      → lookup a.id m.by_id ≡ some p
      → lookup i m.by_id ≡ some q
      → (b : Alert) × (get_elem? (set m.created p a) q ≡ some b) × (b.id ≡ i)
  update-points a p i q e h =
      let (b, f, g) = v.points i q h in
      let (c, f', g') = v.points a.id p e in
      elim (ℕ_discrete p q) [
        | yes same ↦ (
          a,
          rw (← same) (get_elem?-set_self m.created p a (get_elem?-lt m.created p c f')),
          cc (f, f', g, g', same),
        )
        | no other ↦ (b, get_elem?-set_ne m.created p q a other ∙ f, g)
      ]

  update-filed :
      (a : Alert) (p q : ℕ) (b : Alert)
      → lookup a.id m.by_id ≡ some p
      → get_elem? (set m.created p a) q ≡ some b
      → lookup b.id m.by_id ≡ some q
  update-filed a p q b e h =
      let (c, f, g) = v.points a.id p e in
      elim (ℕ_discrete p q) [
        | yes same ↦
            let now : get_elem? (set m.created p a) p ≡ some a =
              get_elem?-set_self m.created p a (get_elem?-lt m.created p c f) in
            cc (now, h, same, e)
        | no other ↦ v.filed q b (sym (get_elem?-set_ne m.created p q a other) ∙ h)
      ]

  -- In a store whose index agrees with its alerts, an accepted `Update` keeps that so and replaces
  -- the alert of that id, in its place.
  pub update_ok :
      (a : Alert) (m' : MemoryStore)
      → update a m ≡ ok m'
      → IsIndexed m' × (m'.created ≡ replace_alert a m.created)
  unfolding update update_at
  update_ok a m' h = elim (Option-cases (lookup a.id m.by_id)) [
    | inl e ↦ cc (rw e at h)
    | inr (p, e) ↦
        let (b, f, q) = v.points a.id p e in
        subst (λ x. IsIndexed x × (x.created ≡ replace_alert a m.created)) (cc (rw e at h))
          (
            record {
              points = λ i k g. update-points a p i k e g;
              filed = λ k c g. update-filed a p k c e g;
            },
            sym (replace_alert-at a m.created p b f q (sole a.id p e)),
          )
  ]

  pub find_open_ok :
      (rule k : String) (a : Alert)
      → find_open rule k m ≡ ok a
      → (find_active rule k m.created ≡ some a) × (find_alert a.id m.created ≡ some a)
  unfolding find_open or_missing
  find_open_ok rule k a h = elim (Option-cases (find_active rule k m.created)) [
    | inl e ↦ cc (rw e at h)
    | inr (b, e) ↦
        let same : b ≡ a = cc (rw e at h) in
        let (p, f) = find_active-at rule k m.created b e in
        (
          e ∙ ap some same,
          subst (λ x. find_alert x.id m.created ≡ some x) same (find_alert_self p b f),
        )
  ]

pub find_open_error :
    (rule k : String) (m : MemoryStore) (e : Error)
    → find_open rule k m ≡ err e
    → (e ≡ not_found) × (find_active rule k m.created ≡ none)
unfolding find_open or_missing
find_open_error rule k m e h = elim (Option-cases (find_active rule k m.created)) [
  | inr (b, f) ↦ cc (rw f at h)
  | inl f ↦ (cc (rw f at h), f)
]

-- The in-memory store meets the laws of the store interface: what `Create` and `Update` accept is
-- appended or replaced in place, and `Get` and `FindOpen` return the alert that is there.
abbrev pub memory_laws : Laws memory_store
memory_laws = record {
  IsValid = IsIndexed;
  contents = λ m. m.created;
  create_ok = λ a m m' v h. create_ok m v a m' h;
  get_ok = λ i m a v h. get_ok m v i a h;
  update_ok = λ a m m' v h. update_ok m v a m' h;
  find_open_ok = λ rule k m a v h. find_open_ok m v rule k a h;
  find_open_missing = λ rule k m v h. (find_open_error rule k m not_found h).1;
}
