-- ===== src/Store/Postgres/Counted.antt =====
-- internal/store/postgres.go: `Counts` on a table with the rows of alerts.
use sentinel_api.Base.{
  String, lookup, Bool, true, false, ◌&&◌, not, none, List, [], ◌∷◌, map, ◌≡◌, refl, sym, ◌∙◌, ap,
  arith, subst, str_eq, str_eq_iff, Bool-cases, inl, inr, is_blank, All, All-perm, All-append_inv,
  count_if, count_if-map, map-perm_inv, map-append_inv,
}
use mathlib.Core.List.{Permᴰ}
use mathlib.Core.List.Permᴰ
use sentinel_api.Event.{severity_text, severity_of_text}
use sentinel_api.Alerts.Model.{
  Alert, Status, open_, assigned, in_progress, resolved, custom, Counts, status_text,
  status_of_text, is_active, is_unassigned,
}
use sentinel_api.Alerts.Store.{ok}
use sentinel_api.Store.Tally.{Counted, Graded, number_in, of_severity, live}
use sentinel_api.Store.Postgres.Sql.{Value, text_value}
use sentinel_api.Store.Postgres.Row.{Codec, row_args}
use sentinel_api.Store.Postgres.Session.{Database, answered, counts, counts_of}
use sentinel_api.Store.Postgres.Totals.{Group, add_groups, no_counts, add_group}
use sentinel_api.Store.Postgres.Documented.{
  Dialect, Documented, Part, Summarises, all_members, is_active_row, is_unassigned_row, field,
  field_in, same_value, stored,
}
use sentinel_api.Store.Postgres.RoundTrip.{IsPlain, alert_row}
use sentinel_api.Store.Postgres.Counting.{
  Batch, Counted-append, Counted-perm, batch-Counted, Graded-append, Graded-perm, batch-Graded,
}

text_of : Value → String
text_of (text_value s) = s
text_of _ = ""

-- The texts of a plain status tell what the status tells.
resolved_text :
    (s : Status)
    → status_of_text (status_text s) ≡ s
    → not (str_eq (status_text s) "RESOLVED") ≡ is_active s
unfolding status_of_text is_active
resolved_text (custom t) h = elim (Bool-cases (str_eq t "RESOLVED")) [
  | inl k ↦
      let e : resolved ≡ custom t = sym (ap status_of_text ((str_eq_iff t "RESOLVED").0 k)) ∙ h in
      absurd cc
  | inr k ↦ rw k refl
]
resolved_text open_ h = refl
resolved_text assigned h = refl
resolved_text in_progress h = refl
resolved_text resolved h = refl

open_text :
    (s : Status) (b : Bool)
    → status_of_text (status_text s) ≡ s
    → (str_eq (status_text s) "OPEN" && b) ≡ (elim s [ open_ ↦ true | _ ↦ false ] && b)
unfolding status_of_text
open_text (custom t) b h = elim (Bool-cases (str_eq t "OPEN")) [
  | inl k ↦
      let e : open_ ≡ custom t = sym (ap status_of_text ((str_eq_iff t "OPEN").0 k)) ∙ h in
      absurd cc
  | inr k ↦ rw k refl
]
open_text open_ b h = refl
open_text assigned b h = refl
open_text in_progress b h = refl
open_text resolved b h = refl

-- All counters, those by severity included.
abbrev Sums : List Alert → Counts → Counts → Type 0
Sums l c d = Counted l c d × Graded l c d

module _ (d : Dialect) (codec : Codec) where
  active_row : (a : Alert) → IsPlain a → is_active_row (alert_row d codec a) ≡ live a
  unfolding is_active_row field field_in same_value alert_row row_args stored
  active_row a plain = resolved_text a.status plain.plain_status

  unassigned_row :
      (a : Alert) → IsPlain a → is_unassigned_row (alert_row d codec a) ≡ is_unassigned a
  unfolding is_unassigned_row field field_in same_value alert_row row_args stored is_unassigned
  unassigned_row a plain = open_text a.status (is_blank a.assignee) plain.plain_status

  -- The alerts whose row holds a text in a column have the value of the text.
  All-values :
      {F : Type 0} (col : String) (show : F → String) (read : String → F) (f : Alert → F)
      → ((a : Alert) → field col (alert_row d codec a) ≡ text_value (show (f a)))
      → ((a : Alert) → IsPlain a → read (show (f a)) ≡ f a)
      → (s : String) (q : List Alert) → All IsPlain q
      → All (λ row. field col row ≡ text_value s) (map (alert_row d codec) q)
      → All (λ a. f a ≡ read s) q
  unfolding text_of
  All-values col show read f shown plain s [] h k = tt
  All-values col show read f shown plain s (a ∷ q) h k = (
    sym (plain a h.0) ∙ ap read (ap text_of (sym (shown a) ∙ k.0)),
    All-values col show read f shown plain s q h.1 k.1,
  )

  part-Batch :
      (p : Part) (q : List Alert)
      → Summarises p
      → All IsPlain q
      → p.members ≡ map (alert_row d codec) q
      → Batch p.group q
  unfolding field field_in alert_row row_args stored
  part-Batch p q s h e = record {
    same_status =
        All-values "status" status_text status_of_text (λ a. a.status) (λ a. refl)
          (λ a plain. plain.plain_status) p.group.status q h (subst (All _) e s.statuses);
    same_severity =
        All-values "severity" severity_text severity_of_text (λ a. a.severity) (λ a. refl)
          (λ a plain. plain.plain_severity) p.group.severity q h (subst (All _) e s.severities);
    same_text =
        All-values "severity" (λ s. s) (λ s. s) (λ a. severity_text a.severity) (λ a. refl)
          (λ a plain. refl) p.group.severity q h (subst (All _) e s.severities);
    actives =
        s.active
        ∙ ap (count_if is_active_row) e
        ∙ count_if-map (alert_row d codec) IsPlain is_active_row live q active_row h;
    resolveds =
        s.resolved
        ∙ ap (count_if (λ row. not (is_active_row row))) e
        ∙ count_if-map (alert_row d codec) IsPlain (λ row. not (is_active_row row))
            (λ a. not (live a)) q (λ a plain. ap not (active_row a plain)) h;
    unassigneds =
        s.unassigned
        ∙ ap (count_if is_unassigned_row) e
        ∙ count_if-map (alert_row d codec) IsPlain is_unassigned_row is_unassigned q unassigned_row
            h;
  }

  parts-Counted :
      (ps : List Part) (q : List Alert) (c : Counts)
      → All Summarises ps
      → All IsPlain q
      → all_members ps ≡ map (alert_row d codec) q
      → Sums q c (add_groups (map (λ p. p.group) ps) c)
  unfolding all_members add_groups
  parts-Counted [] [] c s h e = (omega arith, λ i. omega arith)
  parts-Counted [] (a ∷ q) c s h e = absurd cc
  parts-Counted (p ∷ ps) q c s h e =
      let (k, l, both, first, rest) =
        map-append_inv (alert_row d codec) p.members (all_members ps) q e in
      let plain = All-append_inv IsPlain k l (subst (All IsPlain) both h) in
      let batch = part-Batch p k s.0 plain.0 first in
      let d = add_groups (map (λ p. p.group) ps) (add_group p.group c) in
      let v = parts-Counted ps l (add_group p.group c) s.1 plain.1 rest in
      subst (λ x. Sums x c (add_groups (map (λ p. p.group) (p ∷ ps)) c)) (sym both)
        (
          Counted-append k l c (add_group p.group c) d (batch-Counted p.group k batch c) v.0,
          Graded-append k l c (add_group p.group c) d (batch-Graded p.group k batch c) v.1,
        )

-- Where the rows of the table are those of plain alerts and the reply to the query is complete,
-- `Counts` answers, and each counter, those by severity included, is the number of the alerts that
-- it is named for.
pub counts-Counted :
    (D : Database) (d : Dialect) (w : Documented D d) (codec : Codec) (l : List Alert) (s : D.State)
    (gs : List Group)
    → All IsPlain l
    → Permᴰ (w.rows s) (map (alert_row d codec) l)
    → D.query_groups s ≡ answered gs none
    → (c : Counts) × (counts D codec s ≡ ok c)
      × Counted l no_counts c
      × ((k : String) → number_in c.by_severity k ≡ count_if (of_severity k) l)
unfolding counts counts_of lookup
counts-Counted D d w codec l s gs plain own reply =
    let grouped = w.groups s gs reply in
    let (q, e, p) =
      map-perm_inv (alert_row d codec) l (Permᴰ.trans (Permᴰ.symm grouped.divided) own) refl in
    let v =
      subst (λ x. Sums q no_counts (add_groups x no_counts)) (sym grouped.groups_of)
        (parts-Counted d codec grouped.parts q no_counts grouped.summarised
          (All-perm IsPlain p plain) e) in
    (
      add_groups gs no_counts,
      rw reply refl,
      Counted-perm q l no_counts _ p v.0,
      λ k. omega (arith, Graded-perm q l no_counts (add_groups gs no_counts) p v.1 k),
    )
