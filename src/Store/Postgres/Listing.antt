-- ===== src/Store/Postgres/Listing.antt =====
-- internal/store/postgres.go: `List` as a window of an ordered arrangement of the alerts.
use sentinel_api.Base.{
  ℕ, suc, String, Bool, true, false, ◌&&◌, not, none, List, [], ◌∷◌, map, ◌≡◌, refl, sym, ◌∙◌, ap,
  arith, subst, pos_part, str_eq, ltb, take, drop, filter, All, IsSorted, if◌then◌else◌, All-perm,
  All-filter, All-take, All-drop, filter-perm, filter-map, map-perm_inv, map-take, map-drop,
}
use mathlib.Core.List.{Permᴰ}
use sentinel_api.Event.{severity_text}
use sentinel_api.Alerts.Model.{Alert, Filter, status_text}
use sentinel_api.Alerts.Store.{ok}
use sentinel_api.Store.Postgres.Sql.{active_first, falling, parameter}
use sentinel_api.Store.Postgres.Row.{Codec, row_args}
use sentinel_api.Store.Postgres.Session.{Database, answered, list, scan_all, scan_rows}
use sentinel_api.Store.Postgres.Query.{
  list_args, list_clauses, list_select, default_limit, arg_number,
}
use sentinel_api.Store.Postgres.Documented.{
  Row, Dialect, Documented, field, field_in, same_value, operand, number_of, limit_rows,
  offset_rows, stored, row_before, is_active_row, value_before,
}
use sentinel_api.Store.Postgres.RoundTrip.{cut, kept, Lossless, IsPlain, alert_row, scan-alert_row}
use sentinel_api.Store.Postgres.Clauses.{
  wanted, list_conditions_lem, argument-append, argument-append_second,
}

-- The status is not RESOLVED, as a text.
abbrev is_unresolved : Alert → Bool
is_unresolved a = not (str_eq (status_text a.status) "RESOLVED")

-- The order of `List`: unresolved alerts first, then the severity as a text, falling, then the latest
-- in microseconds.
unfoldable pub alert_before : Dialect → Alert → Alert → Bool
alert_before d a b =
    let s = severity_text a.severity in
    let t = severity_text b.severity in
    if is_unresolved a && not (is_unresolved b)
    then true
    else if is_unresolved b && not (is_unresolved a)
    then false
    else if d.before t s
    then true
    else if d.before s t
    then false
    else if ltb (cut b.last_seen_at) (cut a.last_seen_at)
    then true
    else false

module _ (d : Dialect) (codec : Codec) where
  abbrev order : Row → Row → Bool
  order = row_before d (active_first ∷ falling "severity" ∷ falling "last_seen_at" ∷ [])

  order-alert_row :
      (a b : Alert) → order (alert_row d codec a) (alert_row d codec b) ≡ alert_before d a b
  unfolding row_before alert_before is_active_row field field_in same_value value_before alert_row
      row_args stored
  order-alert_row a b = ground arith

  All-alert_row :
      (x : Alert) (l : List Alert)
      → All (λ row. order row (alert_row d codec x) ≡ false) (map (alert_row d codec) l)
      → All (λ y. alert_before d y x ≡ false) l
  All-alert_row x [] h = tt
  All-alert_row x (y ∷ l) h = (sym (order-alert_row y x) ∙ h.0, All-alert_row x l h.1)

  IsSorted-alert_row :
      (l : List Alert) → IsSorted order (map (alert_row d codec) l) → IsSorted (alert_before d) l
  IsSorted-alert_row [] h = tt
  IsSorted-alert_row (x ∷ l) h = (All-alert_row x l h.0, IsSorted-alert_row l h.1)

  -- The number of the limit and of the offset among the arguments.
  operand-limit :
      (f : Filter)
      → operand (list_args f) (parameter (arg_number (list_clauses f)))
        ≡ pos_part (default_limit f.limit)
  unfolding operand list_args arg_number number_of
  operand-limit f = ap number_of (argument-append (list_clauses f).args _ _)

  operand-offset :
      (f : Filter)
      → operand (list_args f) (parameter (suc (arg_number (list_clauses f)))) ≡ pos_part f.offset
  unfolding operand list_args arg_number number_of
  operand-offset f = ap number_of (argument-append_second (list_clauses f).args _ _ [])

-- The window that the filter asks for.
abbrev pub window_of : Filter → List Alert → List Alert
window_of f q = take (pos_part (default_limit f.limit)) (drop (pos_part f.offset) q)

module _ (D : Database) (d : Dialect) (w : Documented D d) (codec : Codec)
    (format : ℕ → String) where
  -- The alert is plain, and its documents come back.
  abbrev pub IsWhole : Alert → Type 0
  IsWhole a = IsPlain a × Lossless d codec format a

  scan_rows-map :
      (l : List Alert)
      → All IsWhole l
      → scan_rows D codec (map (alert_row d codec) l) ≡ ok (map (kept format) l)
  unfolding scan_rows
  scan_rows-map [] h = refl
  scan_rows-map (a ∷ l) h =
      rw (scan-alert_row d codec format a h.0.0 h.0.1, scan_rows-map l h.1) refl

  window_rows :
      (f : Filter) (q : List Alert)
      → limit_rows
          (list_args f)
          (list_select f).limit
          (offset_rows (list_args f) (list_select f).offset (map (alert_row d codec) q))
        ≡ map (alert_row d codec) (window_of f q)
  unfolding limit_rows offset_rows list_select
  window_rows f q =
      rw
        (
          operand-limit d codec f,
          operand-offset d codec f,
          map-drop (alert_row d codec) (pos_part f.offset) q,
          map-take (alert_row d codec) (pos_part (default_limit f.limit))
              (drop (pos_part f.offset) q),
        )
        refl

  listed :
      (f : Filter) (q : List Alert) (s : D.State)
      → All IsWhole q
      → D.query (list_select f) (list_args f) s
        ≡ answered (map (alert_row d codec) (window_of f q)) none
      → list D codec f s ≡ ok (map (kept format) (window_of f q))
  unfolding list scan_all
  listed f q s plain reply =
      let all = All-take IsWhole _ (drop (pos_part f.offset) q) (All-drop IsWhole _ q plain) in
      rw (reply, scan_rows-map (window_of f q) all) refl

  Listing : Filter → List Alert → D.State → Type 0
  Listing f l s =
      (q : List Alert) × Permᴰ q (filter (wanted d f) l)
      × IsSorted (alert_before d) q
      × (list D codec f s ≡ ok (map (kept format) (window_of f q)))

  Listing-of :
      (f : Filter) (l q : List Alert) (s : D.State) (arranged answer : List Row)
      → All IsWhole l
      → IsSorted (order d codec) arranged
      → answer
        ≡ limit_rows
            (list_args f)
            (list_select f).limit
            (offset_rows (list_args f) (list_select f).offset arranged)
      → D.query (list_select f) (list_args f) s ≡ answered answer none
      → arranged ≡ map (alert_row d codec) q
      → Permᴰ q (filter (wanted d f) l)
      → Listing f l s
  unfolding Listing
  Listing-of f l q s arranged answer plain sorted windowed reply same p = (
    q,
    p,
    IsSorted-alert_row d codec q (subst (IsSorted (order d codec)) same sorted),
    listed f q s (All-perm IsWhole p (All-filter IsWhole (wanted d f) l plain)) (
        reply
        ∙ ap (λ rows. answered rows none)
            (windowed
              ∙ ap
                  (λ rows.
                    limit_rows (list_args f) (list_select f).limit
                      (offset_rows (list_args f) (list_select f).offset rows))
                  same
              ∙ window_rows f q)),
  )

  -- Where the rows of the table are those of whole alerts and the reply to the query is complete,
  -- `List` returns, as far as the database keeps them, the window of an arrangement of the alerts
  -- that pass the filter: unresolved ones first, then by falling text of the severity, then the
  -- latest.
  pub list_lem :
      (f : Filter) (l : List Alert) (s : D.State) (answer : List Row)
      → All IsWhole l
      → Permᴰ (w.rows s) (map (alert_row d codec) l)
      → D.query (list_select f) (list_args f) s ≡ answered answer none
      → (q : List Alert) × Permᴰ q (filter (wanted d f) l)
        × IsSorted (alert_before d) q
        × (list D codec f s ≡ ok (map (kept format) (window_of f q)))
  unfolding Listing list_select
  list_lem f l s answer plain own reply =
      let found = w.answers (list_select f) (list_args f) s answer reply in
      let chosen : Permᴰ found.arranged (map (alert_row d codec) (filter (wanted d f) l)) =
        subst (Permᴰ found.arranged)
          (filter-map (alert_row d codec) _ (wanted d f) l (list_conditions_lem d codec f))
          (Permᴰ.trans found.rearranged (filter-perm _ own)) in
      let (q, same, p) = map-perm_inv (alert_row d codec) _ chosen refl in
      Listing-of f l q s found.arranged answer plain found.in_order found.in_window reply same p
