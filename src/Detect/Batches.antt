-- ===== src/Detect/Batches.antt =====
-- internal/detect/engine.go: what stands in the windows, and what a batch that reaches the emitter
-- consists of.
use sentinel_api.Base.{
  true, false, Option, none, some, List, [], ◌∷◌, ◌≡◌, refl, inl, inr, arith, str_eq_iff, is_blank,
  Bool-cases, All, lookup,
}
use sentinel_api.Event.{NormalizedEvent}
use sentinel_api.Detect.Rule.{Rule, Outcome, key, matches, should_alert}
use sentinel_api.Detect.Rules.{rules}
use sentinel_api.Detect.Engine.{
  WindowEntry, Engine, entries, slide, events_of, Emitter, new_engine, raise_alert, process_rule,
  process_rules, process,
}
use sentinel_api.Detect.Windows.{
  IsFiled, Windowed, IsKnown, rules-IsKnown, slide-IsFiled, set_entries-Windowed, slide-recent,
  filed-alike, slide-newest, should_alert_iff, IsBatch,
}

module _ {S : Type 0} (P : S → Type 0) (emit : Emitter S) (ev : NormalizedEvent)
    (keeps : (r : Rule) (evs : List NormalizedEvent) (o : Outcome) (s : S)
      → IsBatch ev r evs o
      → P s
      → P (emit r evs o s)) where
  raise_alert_keeps :
      (r : Rule) (ents : List WindowEntry) (out : Option Outcome) (s : S)
      → IsKnown r
      → matches r ev ≡ true
      → is_blank (key r ev) ≡ false
      → All (IsFiled r (key r ev)) ents
      → should_alert r (events_of (slide r.window ev ents)) ≡ out
      → P s
      → P (raise_alert emit r (events_of (slide r.window ev ents)) out s)
  unfolding raise_alert
  raise_alert_keeps r ents none s n m b f e p = p
  raise_alert_keeps r ents (some o) s n m b f e p =
      keeps r _ o s
        (record {
          enough = (should_alert_iff r _ o e).0;
          decided = (should_alert_iff r _ o e).1;
          alike = filed-alike r (key r ev) _ (slide-IsFiled r ev ents m f);
          recent = slide-recent r ev (key r ev) ents n.open_window f;
          newest = slide-newest r.window ev ents;
          keyed = λ h. ground (arith, str_eq_iff (key r ev) "");
        })
        p

  process_rule_keeps :
      (r : Rule) (rs : List Rule) (e : Engine) (s : S)
      → IsKnown r
      → All IsKnown rs
      → Windowed e r
      → All (Windowed e) rs
      → P s
      → (All (Windowed (process_rule emit ev r (e, s)).0) rs) × P (process_rule emit ev r (e, s)).1
  unfolding process_rule
  process_rule_keeps r rs e s n ns w ws p = elim (Bool-cases (matches r ev)) [
    | inr m ↦ rw m (ws, p)
    | inl m ↦ elim (Bool-cases (is_blank (key r ev))) [
      | inl b ↦ rw (m, b) (ws, p)
      | inr b ↦
          rw (m, b)
            (
              set_entries-Windowed e r (key r ev) _ rs (slide-IsFiled r ev _ m (w (key r ev))) n ns
                  ws,
              raise_alert_keeps r (entries e r.id (key r ev)) _ s n m b (w (key r ev)) refl p,
            )
    ]
  ]

  process_rules_keeps :
      (todo rs : List Rule) (e : Engine) (s : S)
      → All (λ r. (e : Engine) → All (Windowed e) rs → Windowed e r) todo
      → All IsKnown todo
      → All IsKnown rs
      → All (Windowed e) rs
      → P s
      → (All (Windowed (process_rules emit ev todo (e, s)).0) rs)
        × P (process_rules emit ev todo (e, s)).1
  unfolding process_rules
  process_rules_keeps [] rs e s at n ns ws p = (ws, p)
  process_rules_keeps (r ∷ todo) rs e s at n ns ws p =
      let step = process_rule_keeps r rs e s n.0 ns (at.0 e ws) ws p in
      process_rules_keeps todo rs _ _ at.1 n.1 ns step.0 step.1

-- Every window of every rule holds only what the rule filed there.
abbrev pub IsConsistent : Engine → Type 0
IsConsistent e = All (Windowed e) rules

new_engine-Windowed : (rs : List Rule) → All (Windowed new_engine) rs
unfolding new_engine entries lookup
new_engine-Windowed [] = tt
new_engine-Windowed (r ∷ rs) = (λ k. tt, new_engine-Windowed rs)

pub new_engine-IsConsistent : IsConsistent new_engine
new_engine-IsConsistent = new_engine-Windowed rules

each_of :
    (all rs : List Rule)
    → ((e : Engine) → All (Windowed e) all → All (Windowed e) rs)
    → All (λ r. (e : Engine) → All (Windowed e) all → Windowed e r) rs
each_of all [] f = tt
each_of all (r ∷ rs) f = (λ e h. (f e h).0, each_of all rs (λ e h. (f e h).1))

module _ {S : Type 0} (P : S → Type 0) (emit : Emitter S) (e : Engine) (ev : NormalizedEvent)
    (s : S) where
  -- Every batch that processing an event hands to the emitter `IsBatch`: at least the rule's
  -- threshold of events, all matched by the rule and with the event's key, which is not empty, all
  -- within the rule's window and the event last, with the outcome of the rule on them. So what the
  -- emitter keeps on such batches holds after processing; and if each window held only what its rule
  -- matched and keyed there, it still does.
  pub process_keeps :
      ((r : Rule) (evs : List NormalizedEvent) (o : Outcome) (s : S)
        → IsBatch ev r evs o
        → P s
        → P (emit r evs o s))
      → IsConsistent e
      → P s
      → IsConsistent (process e ev (some emit) s).0 × P (process e ev (some emit) s).1
  unfolding process
  process_keeps keeps c p =
      process_rules_keeps P emit ev keeps rules rules e s (each_of rules rules (λ e h. h))
        rules-IsKnown rules-IsKnown c p
