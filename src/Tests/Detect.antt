-- ===== src/Tests/Detect.antt =====
-- internal/detect/engine.go: an emitter that notes the sizes of its batches.
use sentinel_api.Base.{ℕ, ◌<◌, some, List, [], ◌∷◌, ap, arith, length, length-append, All}
use sentinel_api.Event.{NormalizedEvent}
use sentinel_api.Detect.Rule.{Rule, Outcome}
use sentinel_api.Detect.Engine.{Emitter, new_engine, process}
use sentinel_api.Detect.Windows.{IsBatch}
use sentinel_api.Detect.Batches.{IsConsistent, new_engine-IsConsistent, process_keeps}
use sentinel_api.Tests.Fixtures.{probe}

abbrev note_size : Emitter (List ℕ)
note_size r evs o s = length evs ∷ s

abbrev Sizes : List ℕ → Type 0
Sizes = All (λ n. 0 < n)

note_size-Sizes :
    (r : Rule) (evs : List NormalizedEvent) (o : Outcome) (s : List ℕ)
    → IsBatch probe r evs o
    → Sizes s
    → Sizes (note_size r evs o s)
note_size-Sizes r evs o s b h =
    let (older, e) = b.newest in (omega (arith, length-append older (probe ∷ []), ap length e), h)

process_keeps_example :
    IsConsistent (process new_engine probe (some note_size) []).0
    × Sizes (process new_engine probe (some note_size) []).1
process_keeps_example =
    process_keeps Sizes note_size new_engine probe [] note_size-Sizes new_engine-IsConsistent tt
