-- ===== src/Requests/Ring/Holds.antt =====
-- internal/requests/requests.go: which events a ring holds, and that `Append` keeps to it.
use sentinel_api.Base.{
  ℕ, suc, ◌+◌, ◌-◌, ◌%◌, ◌≤◌, ◌<◌, true, false, Option, some, List, [], ◌∷◌, ◌++◌, ◌≡◌, refl, sym,
  ap, ◌≢◌, ◌∙◌, inl, inr, arith, ltb, Bool-cases, length, length-append, length-drop, length-set,
  get_elem?, get_elem?-set_self, get_elem?-set_ne, get_elem?-append_lt, get_elem?-append_last, set,
  drop, if◌then◌else◌,
}
use native.Mathlib.Decide.{dec_lt, ℕ_discrete}
use native.Mathlib.Nat.{mod-eq_of_lt, mod-eq-sub-mod}
use sentinel_api.Event.{NormalizedEvent}
use sentinel_api.Requests.Ring.{Ring, append, len_locked}

-- The bounded history: a full one loses its oldest event.
unfoldable pub remember : ℕ → List NormalizedEvent → NormalizedEvent → List NormalizedEvent
remember cap q ev = (if ltb (length q) cap then q else drop 1 q) ++ ev ∷ []

abbrev pub start_of : Ring → ℕ
start_of r = if r.full then r.next else 0

-- The ring holds the events of the list, oldest first.
pub record Holds (r : Ring) (q : List NormalizedEvent) : Type 0 where
  pub sized : length r.buf ≡ r.cap
  pub inside : r.next < r.cap
  pub size : length q ≡ len_locked r
  pub placed :
      (j : ℕ) → j < length q → get_elem? r.buf ((start_of r + j) % r.cap) ≡ some (get_elem? q j)

wrap_below : (cap x : ℕ) → x < cap → x % cap ≡ x
wrap_below cap x h = mod-eq_of_lt h

wrap_above : (cap x : ℕ) → cap ≤ x → x < cap + cap → x % cap ≡ x - cap
wrap_above cap x h k = mod-eq-sub-mod h ∙ mod-eq_of_lt (omega arith)

get_elem?-drop_one :
    (q : List NormalizedEvent) (j : ℕ) → get_elem? (drop 1 q) j ≡ get_elem? q (suc j)
get_elem?-drop_one [] j = refl
get_elem?-drop_one (x ∷ q) j = refl

index_last : (cap next : ℕ) → next < cap → ((next + 1) % cap + (cap - 1)) % cap ≡ next
index_last cap next h = elim (dec_lt (next + 1) cap) [
  | yes k ↦
      rw (wrap_below cap (next + 1) k)
        (omega (arith, wrap_above cap (next + 1 + (cap - 1)) (omega arith) (omega arith)))
  | no k ↦
      let zero_next : (next + 1) % cap ≡ 0 =
        omega (arith, wrap_above cap (next + 1) (omega arith) (omega arith)) in
      rw zero_next (omega (arith, wrap_below cap (0 + (cap - 1)) (omega arith)))
]

index_shift :
    (cap next j : ℕ)
    → next < cap
    → suc j < cap
    → ((next + 1) % cap + j) % cap ≡ (next + suc j) % cap
index_shift cap next j h l = elim (dec_lt (next + 1) cap) [
  | yes k ↦ rw (wrap_below cap (next + 1) k) (ap (λ x. x % cap) (omega arith))
  | no k ↦
      let zero_next : (next + 1) % cap ≡ 0 =
        omega (arith, wrap_above cap (next + 1) (omega arith) (omega arith)) in
      rw zero_next (
        omega (
          arith,
          wrap_below cap (0 + j) (omega arith),
          wrap_above cap (next + suc j) (omega arith) (omega arith),
        ))
]

index_ne : (cap next j : ℕ) → next < cap → suc j < cap → (next + suc j) % cap ≢ next
index_ne cap next j h l = elim (dec_lt (next + suc j) cap) [
  | yes k ↦ omega (arith, wrap_below cap (next + suc j) k)
  | no k ↦ omega (arith, wrap_above cap (next + suc j) (omega arith) (omega arith))
]

module _ (buf : List (Option NormalizedEvent)) (next : ℕ) (q : List NormalizedEvent)
    (ev : NormalizedEvent) where
  place_new :
      (i j : ℕ)
      → next < length buf
      → i ≡ next
      → j ≡ length q
      → get_elem? (set buf next (some ev)) i ≡ some (get_elem? (q ++ ev ∷ []) j)
  place_new i j h e f =
      rw (e, f, get_elem?-set_self buf next (some ev) h, get_elem?-append_last q ev)

  place_old :
      (i j : ℕ)
      → next ≢ i
      → j < length q
      → get_elem? buf i ≡ some (get_elem? q j)
      → get_elem? (set buf next (some ev)) i ≡ some (get_elem? (q ++ ev ∷ []) j)
  place_old i j n h e =
      rw (get_elem?-set_ne buf next i (some ev) n, get_elem?-append_lt q (ev ∷ []) j h) e

module _ (r : Ring) (q : List NormalizedEvent) (ev : NormalizedEvent) (v : Holds r q) where
  next_room :
      (r.next + 1 < r.cap → (r.next + 1) % r.cap ≡ r.next + 1)
      × (r.cap ≤ r.next + 1 → (r.next + 1) % r.cap ≡ 0)
  next_room = (
    λ h. wrap_below r.cap (r.next + 1) h,
    λ h. omega (arith, v.inside, wrap_above r.cap (r.next + 1) h (omega (arith, v.inside))),
  )

  length-snoc : length (q ++ ev ∷ []) ≡ suc (length q)
  length-snoc = omega (arith, length-append q (ev ∷ []))

  at_zero : (s j : ℕ) → s ≡ 0 → j < r.cap → (s + j) % r.cap ≡ j
  at_zero s j e h =
      omega (arith, ap (λ x. (x + j) % r.cap) e, wrap_below r.cap (0 + j) (omega arith))

  -- The slot of an event that was there is still its slot.
  kept :
      (i j : ℕ)
      → r.next ≢ i
      → j < length q
      → i ≡ (start_of r + j) % r.cap
      → get_elem? (set r.buf r.next (some ev)) i ≡ some (get_elem? (q ++ ev ∷ []) j)
  kept i j n h e = place_old r.buf r.next q ev i j n h (ap (get_elem? r.buf) e ∙ v.placed j h)

  room_start : r.full ≡ false → start_of (append ev r) ≡ 0
  unfolding append
  room_start f = ground arith

  room-Holds : r.full ≡ false → Holds (append ev r) (q ++ ev ∷ [])
  unfolding append len_locked
  room-Holds f = record {
    sized = length-set r.buf r.next (some ev) ∙ v.sized;
    inside = omega (arith, v.inside);
    size = ground (arith, next_room, v.inside, v.size, length-append q (ev ∷ []));
    placed = λ j h.
        let size : length q ≡ r.next = ground (arith, v.size) in
        let below : j < r.cap = omega (arith, v.inside, length-snoc, size, h) in
        let here = at_zero (start_of (append ev r)) j (room_start f) below in
        elim (ℕ_discrete j (length q)) [
          | yes e ↦
              place_new r.buf r.next q ev _ j (omega (arith, v.inside, v.sized))
                (omega (arith, here, e, size)) e
          | no n ↦
              kept _ j (omega (arith, here, n, size)) (omega (arith, h, n, length-snoc))
                (here ∙ sym (at_zero (start_of r) j (ground arith) below))
        ];
  }

  drop-length : r.full ≡ true → suc (length (drop 1 q)) ≡ r.cap
  unfolding len_locked
  drop-length f = ground (arith, length-drop 1 q, v.size, v.inside)

  full-Holds : r.full ≡ true → Holds (append ev r) (drop 1 q ++ ev ∷ [])
  unfolding append len_locked
  full-Holds f = record {
    sized = length-set r.buf r.next (some ev) ∙ v.sized;
    inside = omega (arith, v.inside);
    size = ground (arith, drop-length f, length-append (drop 1 q) (ev ∷ []));
    placed = λ j h.
        let below : j < r.cap =
          omega (arith, drop-length f, length-append (drop 1 q) (ev ∷ []), h) in
        let start : start_of (append ev r) ≡ (r.next + 1) % r.cap = ground arith in
        let shift = ap (λ s. (s + j) % r.cap) start in
        elim (ℕ_discrete j (length (drop 1 q))) [
          | yes e ↦
              let last : j ≡ r.cap - 1 = omega (arith, drop-length f, e) in
              place_new r.buf r.next (drop 1 q) ev _ j (omega (arith, v.inside, v.sized))
                (shift
                  ∙ ap (λ k. ((r.next + 1) % r.cap + k) % r.cap) last
                  ∙ index_last r.cap r.next v.inside)
                e
          | no n ↦
              let inner : suc j < r.cap =
                omega (arith, drop-length f, below, n, h, length-append (drop 1 q) (ev ∷ [])) in
              let here = shift ∙ index_shift r.cap r.next j v.inside inner in
              let old : start_of r ≡ r.next = ground arith in
              place_old r.buf r.next (drop 1 q) ev _ j
                (λ e. index_ne r.cap r.next j v.inside inner (sym here ∙ sym e))
                (omega (arith, drop-length f, inner))
                (ap (get_elem? r.buf) (here ∙ ap (λ s. (s + suc j) % r.cap) (sym old))
                  ∙ v.placed (suc j) (omega (arith, drop-length f, length-drop 1 q, inner))
                  ∙ ap some (sym (get_elem?-drop_one q j)))
        ];
  }

  -- An append is remembered, and a full ring forgets its oldest event.
  pub append-Holds : Holds (append ev r) (remember r.cap q ev)
  unfolding remember len_locked
  append-Holds = elim (Bool-cases r.full) [
    | inl f ↦
        let whole : ltb (length q) r.cap ≡ false = ground (arith, v.size) in rw whole (full-Holds f)
    | inr f ↦
        let room : ltb (length q) r.cap ≡ true = ground (arith, v.size, v.inside) in
        rw room (room-Holds f)
  ]
