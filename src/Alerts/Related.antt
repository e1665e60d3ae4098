-- ===== src/Alerts/Related.antt =====
-- internal/alerts/service.go `RelatedEvents`: the recent events of an alert, over any store. `sort` is
-- `sort.Slice`, which leaves the order of equal elements open.
use mathlib.Core.List.{reverse, append-nil, append_assoc}
use sentinel_api.Base.{
  ℕ, zero, suc, ◌+◌, String, Bool, true, false, not, ◌&&◌, ◌||◌, List, [], ◌∷◌, ◌++◌, ◌≡◌, sym, ◌∙◌,
  ap, arith, ltb, ◌==◌, any, filter, take, length, length-append, str_eq, is_blank, Bool-cases, inl,
  inr, if◌then◌else◌,
}
use sentinel_api.Event.{NormalizedEvent}
use sentinel_api.Alerts.Model.{Alert}
use sentinel_api.Alerts.Store.{Store, Result, ok, err}

-- `for i := len(recent) - 1; i >= 0 && len(out) < max; i--`, over the events from the newest on.
unfoldable pub collect_newest :
    (NormalizedEvent → Bool)
    → ℕ
    → List NormalizedEvent
    → List NormalizedEvent
    → List NormalizedEvent
collect_newest p max out [] = out
collect_newest p max out (e ∷ older) =
    let more = collect_newest p max (out ++ e ∷ []) older in
    let same = collect_newest p max out older in
    if ltb (length out) max then (if p e then more else same) else out

unfoldable pub is_wanted : Alert → NormalizedEvent → Bool
is_wanted a e = any (str_eq e.id) a.event_ids

unfoldable pub is_near : Alert → NormalizedEvent → Bool
is_near a e =
    (not (is_blank a.src_ip) && str_eq e.src_ip a.src_ip)
    || (not (is_blank a.asset) && str_eq e.asset a.asset)

-- The second loop runs if the first finds nothing.
unfoldable pub newest_related : Alert → List NormalizedEvent → ℕ → List NormalizedEvent
unfolding collect_newest is_wanted is_near
newest_related a recent max =
    let out = collect_newest (is_wanted a) max [] (reverse recent) in
    if length out == 0 then collect_newest (is_near a) max out (reverse recent) else out

abbrev pub before : NormalizedEvent → NormalizedEvent → Bool
before d e = ltb d.timestamp e.timestamp

module _ (St : Store)
    (sort : (NormalizedEvent → NormalizedEvent → Bool)
      → List NormalizedEvent
      → List NormalizedEvent) where
  open St use {State, get}

  unfoldable pub found_related : Result Alert → List NormalizedEvent → ℕ → List NormalizedEvent
  unfolding newest_related
  found_related (err e) recent max = []
  found_related (ok a) recent max = sort before (newest_related a recent max)

  unfoldable pub related_events : String → List NormalizedEvent → ℕ → State → List NormalizedEvent
  unfolding found_related
  related_events i recent max s = found_related (get i s) recent max

collect_newest-take :
    (p : NormalizedEvent → Bool) (max k : ℕ) (out es : List NormalizedEvent)
    → length out + k ≡ max
    → collect_newest p max out es ≡ out ++ take k (filter p es)
unfolding collect_newest
collect_newest-take p max zero out [] h = sym (append-nil out)
collect_newest-take p max (suc k) out [] h = sym (append-nil out)
collect_newest-take p max zero out (e ∷ es) h =
    let full : ltb (length out) max ≡ false = ground arith in rw full (sym (append-nil out))
collect_newest-take p max (suc k) out (e ∷ es) h =
    let room : ltb (length out) max ≡ true = ground arith in
    elim (Bool-cases (p e)) [
      | inl y ↦
          rw (room, y)
            (collect_newest-take p max k (out ++ e ∷ []) es
                (omega (arith, length-append out (e ∷ []), h))
              ∙ append_assoc out (e ∷ []) (take k (filter p es)))
      | inr n ↦ rw (room, n) (collect_newest-take p max (suc k) out es h)
    ]

-- The newest events of a list that pass a test, newest first.
abbrev pub newest : (NormalizedEvent → Bool) → ℕ → List NormalizedEvent → List NormalizedEvent
newest p max recent = take max (filter p (reverse recent))

fallback :
    (p : NormalizedEvent → Bool) (max : ℕ) (recent out : List NormalizedEvent)
    → (if length out == 0 then collect_newest p max out (reverse recent) else out)
      ≡ (if length out == 0 then newest p max recent else out)
fallback p max recent [] = collect_newest-take p max max [] (reverse recent) (omega arith)
fallback p max recent (e ∷ out) =
    let some_out : (length (e ∷ out) == 0) ≡ false = ground arith in rw some_out

-- The events of an alert are, sorted by time, the newest of those whose id it has, at most `max`; only
-- if there is none, the newest of its source or asset.
pub related_events_lem :
    (St : Store)
    (sort : (NormalizedEvent → NormalizedEvent → Bool)
      → List NormalizedEvent
      → List NormalizedEvent)
    (i : String) (recent : List NormalizedEvent) (max : ℕ) (s : St.State) (a : Alert)
    → St.get i s ≡ ok a
    → related_events St sort i recent max s
      ≡ sort before (
          if length (newest (is_wanted a) max recent) == 0
          then newest (is_near a) max recent
          else newest (is_wanted a) max recent)
unfolding related_events found_related newest_related
related_events_lem St sort i recent max s a h =
    let wanted = collect_newest-take (is_wanted a) max max [] (reverse recent) (omega arith) in
    rw (h, wanted)
      (ap (sort before) (fallback (is_near a) max recent (newest (is_wanted a) max recent)))
