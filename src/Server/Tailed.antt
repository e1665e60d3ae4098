-- ===== src/Server/Tailed.antt =====
-- From a line of a tailed file to the pipeline: internal/ingest/tail.go hands what it parses to the
-- channel that the loop of internal/server/pipeline.go reads. A line that is refused is passed over.
pub mod Blocked
use sentinel_api.Base.{ℕ, String, Option, List, Map, Str}
use sentinel_api.Event.{Geo}
use sentinel_api.Detect.Rule.{Rule}
use sentinel_api.Edge.{Kind, Policy}
use sentinel_api.Alerts.Store.{Store}
use sentinel_api.Ingest.Value.{Value, RawLog}
use sentinel_api.Ingest.Tail.{Outcome, panics, refused, parsed, parse_line}
use sentinel_api.Ingest.Normalize.{normalize}
use sentinel_api.Server.Pipeline.{Arrival, Pipeline, receive}

-- The clock readings of the loop and of the edge, and what the service draws.
pub record Moment : Type 0 where
  pub ts : ℕ
  pub now : ℕ
  pub draw : Rule → String × ℕ

module _ (St : Store) (visit : Kind → Map Policy → List Policy) (print : Value → String)
    (event_id : ℕ → ℕ → String) (geo_of : String → Option Geo) where
  -- The body of the loop, for what the channel gives.
  unfoldable pub receive_raw : Moment → RawLog → Pipeline St visit → Pipeline St visit
  unfolding normalize receive
  receive_raw m raw p =
      receive St visit
        (record { ev = normalize print event_id geo_of raw m.ts; now = m.now; draw = m.draw }) p

  unfoldable pub handed_over :
      Moment → Outcome RawLog → Pipeline St visit → Outcome (Pipeline St visit)
  unfolding receive_raw
  handed_over m panics p = panics
  handed_over m refused p = parsed p
  handed_over m (parsed raw) p = parsed (receive_raw m raw p)

  unfoldable pub receive_line :
      Moment → Str → String → Pipeline St visit → Outcome (Pipeline St visit)
  unfolding handed_over parse_line
  receive_line m line asset p = handed_over m (parse_line line asset) p
