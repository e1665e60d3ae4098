-- ===== src/Store/Postgres/Created.antt =====
-- internal/store/postgres.go: an alert that was created is found again.
use sentinel_api.Base.{
  ℕ, ◌≤◌, String, Bool, true, none, List, [], ◌∷◌, ◌≡◌, refl, ◌∙◌, arith, subst, filter, count_if,
  str_eq_self, filter-perm, count_if-perm, singleton-perm, length-filter, empty_of_length,
  filter-ext, Bool,
}
use mathlib.Core.List.{Permᴰ}
use sentinel_api.Alerts.Model.{Alert}
use sentinel_api.Alerts.Store.{Result, ok, err}
use sentinel_api.Store.Postgres.Sql.{column_is, text_value, select_by_id, insert_alert}
use sentinel_api.Store.Postgres.Row.{Codec, row_args}
use sentinel_api.Store.Postgres.Session.{Database, answered, create, get, scan_first, wrap_error}
use sentinel_api.Store.Postgres.Documented.{
  Row, Dialect, Documented, meets, meets_all, field, field_in, same_value, argument, value_at,
  limit_rows, offset_rows, stored,
}
use sentinel_api.Store.Postgres.RoundTrip.{
  kept, Lossless, IsPlain, alert_row, insert_alert_lem, scan-alert_row,
}

-- If at most one element passes, and it is the first, then it is all that any arrangement has.
only_passing :
    {A : Type 0} (p : A → Bool) (x : A) (l found all : List A)
    → p x ≡ true
    → Permᴰ all (x ∷ l)
    → count_if p all ≤ 1
    → Permᴰ found (filter p all)
    → found ≡ x ∷ []
only_passing p x l found all px d once f =
    let empty : filter p l ≡ [] =
      empty_of_length (filter p l) (ground (arith, length-filter p l, count_if-perm p d)) in
    let only : filter p (x ∷ l) ≡ x ∷ [] = rw (px, empty) refl in
    singleton-perm x found (subst (Permᴰ found) only (Permᴰ.trans f (filter-perm p d)))

module _ (D : Database) (d : Dialect) (w : Documented D d) (codec : Codec) where
  wrap_error-ok :
      (what : String) (r : Result D.State) (s : D.State) → wrap_error what r ≡ ok s → r ≡ ok s
  wrap_error-ok what (err e) s h = cc
  wrap_error-ok what (ok s') s h = h

  -- Once Create accepted an alert, the rows are those before and its row.
  pub create_rows :
      (a : Alert) (s s' : D.State)
      → create D codec a s ≡ ok s'
      → Permᴰ (w.rows s') (alert_row d codec a ∷ w.rows s)
  unfolding create insert_alert
  create_rows a s s' e =
      subst (λ r. Permᴰ (w.rows s') (r ∷ w.rows s)) (insert_alert_lem d codec a)
        (w.inserts _ _ (row_args codec a) s s' (wrap_error-ok "create alert: " _ s' e))

  abbrev has_id : String → Row → Bool
  has_id i row = same_value (field "id" row) (text_value i)

  id_condition :
      (i : String) (row : Row)
      → meets_all d (text_value i ∷ []) (column_is "id" 1 ∷ []) row ≡ has_id i row
  unfolding meets_all meets argument value_at
  id_condition i row = ground arith

  alert_row-has_id : (a : Alert) → has_id a.id (alert_row d codec a) ≡ true
  unfolding alert_row row_args field field_in stored same_value
  alert_row-has_id a = str_eq_self a.id

  -- After Create accepted a plain alert, Get of its id returns the alert as far as the database keeps
  -- it, if the reply to its query is complete and the JSON documents of the alert read as what was
  -- written.
  pub get-create :
      (format : ℕ → String) (a : Alert) (s s' : D.State) (answer : List Row)
      → IsPlain a
      → Lossless d codec format a
      → create D codec a s ≡ ok s'
      → D.query select_by_id (text_value a.id ∷ []) s' ≡ answered answer none
      → get D codec a.id s' ≡ ok (kept format a)
  unfolding get scan_first select_by_id limit_rows offset_rows
  get-create format a s s' answer plain back e reply =
      let found = w.answers select_by_id (text_value a.id ∷ []) s' answer reply in
      let only : answer ≡ alert_row d codec a ∷ [] =
        found.in_window
        ∙ only_passing (has_id a.id) (alert_row d codec a) (w.rows s) found.arranged (w.rows s')
            (alert_row-has_id a) (create_rows a s s' e) (w.primary_key s' a.id)
            (subst (Permᴰ found.arranged)
              (filter-ext _ (has_id a.id) (id_condition a.id) (w.rows s')) found.rearranged) in
      rw (reply, only) (scan-alert_row d codec format a plain back)
