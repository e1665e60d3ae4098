-- ===== src/Server/Desk/Calls.antt =====
-- internal/server/handlers.go: the handlers that change alerts make exactly the service's calls.
use sentinel_api.Base.{
  ℕ, String, Bool, true, false, Option, none, some, List, [], ◌∷◌, ◌++◌, ◌≡◌, refl, ◌∙◌, ap, sym,
  subst, is_blank, if◌then◌else◌, All,
}
use sentinel_api.Alerts.Model.{Alert, status_of_text, action_of_text}
use sentinel_api.Alerts.Store.{Store, Laws, Result, ok, err}
use sentinel_api.Alerts.Service.{assign, set_status, action}
use sentinel_api.Alerts.History.{Call, assigns, sets, acts, step, run, after, run-IsSound}
use sentinel_api.Alerts.Soundness.{IsSound}
use sentinel_api.Server.Desk.{
  fails, missing_assignee, AssignBody, StatusBody, ActionBody, or_console, answer_call,
  assign_handler, status_handler, action_handler,
}

-- A request that may change an alert, with the clock readings of its handling; `none` is a body that
-- cannot be read.
pub data Request : Type 0 where
  assigning : (now at : ℕ) (i : String) (body : Option AssignBody) → Request
  moving : (now at : ℕ) (i : String) (body : Option StatusBody) → Request
  acting : (now at : ℕ) (i : String) (body : Option ActionBody) → Request

-- The calls on the service that a request comes to: none for a body that is refused.
unfoldable pub calls_of : Request → List Call
unfolding status_of_text action_of_text
calls_of (assigning now at i (some b)) =
    if is_blank b.assignee then [] else assigns now at i b.assignee (or_console b.actor) ∷ []
calls_of (moving now at i (some b)) =
    sets now at i (status_of_text b.status) (or_console b.actor) ∷ []
calls_of (acting now at i (some b)) =
    acts now at i (action_of_text b.action) b.note (or_console b.actor) ∷ []
calls_of _ = []

unfoldable pub all_calls : List Request → List Call
unfolding calls_of
all_calls [] = []
all_calls (r ∷ rs) = calls_of r ++ all_calls rs

module _ (St : Store) where
  unfoldable pub serve : Request → St.State → St.State
  unfolding assign_handler status_handler action_handler
  serve (assigning now at i body) s = (assign_handler St now at i body s).1
  serve (moving now at i body) s = (status_handler St now at i body s).1
  serve (acting now at i body) s = (action_handler St now at i body s).1

  unfoldable pub serve_all : List Request → St.State → St.State
  unfolding serve
  serve_all [] s = s
  serve_all (r ∷ rs) s = serve_all rs (serve r s)

  module _ (L : Laws St) where
    run-append :
        (cs ds : List Call) (s : St.State) → run St L (cs ++ ds) s ≡ run St L ds (run St L cs s)
    unfolding run
    run-append [] ds s = refl
    run-append (c ∷ cs) ds s = run-append cs ds (step St L c s)

    answered :
        (s : St.State) (r : Result (Alert × St.State)) → (answer_call St s r).1 ≡ after St L s r
    unfolding answer_call after
    answered s (ok (a, s')) = refl
    answered s (err e) = refl

    checked :
        (s : St.State) (b : Bool) (c : Call) (r : Result (Alert × St.State))
        → step St L c s ≡ after St L s r
        → (if b then (fails 400 missing_assignee, s) else answer_call St s r).1
          ≡ run St L (if b then [] else c ∷ []) s
    unfolding run
    checked s true c r h = refl
    checked s false c r h = answered s r ∙ sym h

    serve-run : (r : Request) (s : St.State) → serve r s ≡ run St L (calls_of r) s
    unfolding serve calls_of run step assign_handler status_handler action_handler
    serve-run (assigning now at i none) s = refl
    serve-run (assigning now at i (some b)) s =
        checked s (is_blank b.assignee) (assigns now at i b.assignee (or_console b.actor))
          (assign St now at i b.assignee (or_console b.actor) s) refl
    serve-run (moving now at i none) s = refl
    serve-run (moving now at i (some b)) s =
        answered s (set_status St now at i (status_of_text b.status) (or_console b.actor) s)
    serve-run (acting now at i none) s = refl
    serve-run (acting now at i (some b)) s =
        answered s (action St now at i (action_of_text b.action) b.note (or_console b.actor) s)

    -- Handling any requests that change alerts leaves the store exactly as the service's calls leave it
    -- that the requests come to, one for each whose body is read and, for an assignment, names an
    -- assignee; all others change nothing.
    pub serve_all-run :
        (rs : List Request) (s : St.State) → serve_all rs s ≡ run St L (all_calls rs) s
    unfolding serve_all all_calls run
    serve_all-run [] s = refl
    serve_all-run (r ∷ rs) s =
        serve_all-run rs (serve r s)
        ∙ ap (run St L (all_calls rs)) (serve-run r s)
        ∙ sym (run-append (calls_of r) (all_calls rs) s)

    -- So any requests keep every alert of a valid store sound.
    pub serve_all-IsSound :
        (rs : List Request) (s : St.State)
        → L.IsValid s
        → All IsSound (L.contents s)
        → All IsSound (L.contents (serve_all rs s))
    serve_all-IsSound rs s v h =
        subst (λ x. All IsSound (L.contents x)) (sym (serve_all-run rs s))
          (run-IsSound St L (all_calls rs) s v h)
