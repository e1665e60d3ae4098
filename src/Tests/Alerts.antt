-- ===== src/Tests/Alerts.antt =====
-- internal/alerts/service.go over the in-memory store.
use sentinel_api.Base.{some, [], ◌∷◌, ◌≡◌, refl, arith, All, lookup, insert}
use sentinel_api.Alerts.Model.{Alert}
use sentinel_api.Alerts.Store.{find_alert}
use sentinel_api.Alerts.Merge.{fresh_alert}
use sentinel_api.Alerts.Soundness.{IsSound, Evolves}
use sentinel_api.Alerts.Lifecycle.{fresh_alert-IsSound}
use sentinel_api.Alerts.Effects.{IsDeduplicated}
use sentinel_api.Alerts.History.{Failure, run, run-IsSound, run-Evolves, run-IsDeduplicated}
use sentinel_api.Detect.Rules.{sqli_rule}
use sentinel_api.Store.Memory.{new_memory, memory_store, create, create_at}
use sentinel_api.Store.Index.{
  IsIndexed, new_memory-IsIndexed, create_ok, find_open_error, memory_laws,
}
use sentinel_api.Tests.Fixtures.{alert_one, one_alert, calls, probe, outcome}

pub one_alert-IsIndexed : IsIndexed one_alert
unfolding create create_at new_memory lookup insert fresh_alert
one_alert-IsIndexed = (create_ok new_memory new_memory-IsIndexed alert_one one_alert refl).0

pub memory-no_failure : ¬ (Failure memory_store memory_laws)
memory-no_failure (rule, k, s, e, h, n) = n (find_open_error rule k s e h).0

pub one_alert-IsDeduplicated : IsDeduplicated one_alert.created
one_alert-IsDeduplicated = λ rule k. ground arith

pub one_alert-IsSound : All IsSound one_alert.created
one_alert-IsSound = (fresh_alert-IsSound "a1" 7 sqli_rule probe probe outcome ("e1" ∷ []), tt)

run-IsSound_example : All IsSound (run memory_store memory_laws calls one_alert).created
run-IsSound_example =
    run-IsSound memory_store memory_laws calls one_alert one_alert-IsIndexed one_alert-IsSound

run-Evolves_example :
    (b : Alert) × (find_alert "a1" (run memory_store memory_laws calls one_alert).created ≡ some b)
    × Evolves alert_one b
unfolding find_alert fresh_alert
run-Evolves_example =
    run-Evolves memory_store memory_laws calls one_alert "a1" alert_one one_alert-IsIndexed refl

run-IsDeduplicated_example : IsDeduplicated (run memory_store memory_laws calls one_alert).created
run-IsDeduplicated_example =
    run-IsDeduplicated memory_store memory_laws calls one_alert memory-no_failure
      one_alert-IsIndexed one_alert-IsDeduplicated
