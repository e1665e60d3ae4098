-- ===== src/Tests/Requests.antt =====
-- internal/requests/requests.go: a ring of two slots, and a hub with one subscriber.
use sentinel_api.Base.{some, [], ◌∷◌, map, ◌≡◌, arith, take_last}
use sentinel_api.Requests.Ring.{new_ring, snapshot}
use sentinel_api.Requests.Ring.Refine.{append_all, snapshot_lem}
use sentinel_api.Requests.Hub.{Hub, IsValid, publish, delivered, publish_lem}
use sentinel_api.Tests.Fixtures.{event_at, probe}

snapshot_lem_example :
    snapshot (append_all (probe ∷ event_at "e2" 5 "1.1.1.1" [] ∷ probe ∷ []) (new_ring 2))
    ≡ map
        (λ x. some x)
        (take_last (new_ring 2).cap (probe ∷ event_at "e2" 5 "1.1.1.1" [] ∷ probe ∷ []))
snapshot_lem_example = snapshot_lem 2 (probe ∷ event_at "e2" 5 "1.1.1.1" [] ∷ probe ∷ [])

abbrev one_subscriber : Hub
one_subscriber = record { subs = (0, probe ∷ []) ∷ []; next = 1 }

one_subscriber-IsValid : IsValid one_subscriber
one_subscriber-IsValid = ((omega arith, omega arith), tt)

publish_lem_example :
    ((publish probe one_subscriber).subs ≡ map (delivered probe) one_subscriber.subs)
    × IsValid (publish probe one_subscriber)
publish_lem_example = publish_lem probe one_subscriber one_subscriber-IsValid
