-- ===== src/Server/Tailed/Blocked.antt =====
-- From a deployed block to the tailed lines of its source.
use sentinel_api.Base.{
  ℕ, suc, String, true, false, Option, some, List, Map, ◌≡◌, refl, ap, pos, atoi, numbers, text,
  is_blank,
}
use sentinel_api.Event.{Geo, NormalizedEvent}
use sentinel_api.Edge.{Kind, deny, Policy, Engine, eval, is_expired, count_block}
use sentinel_api.Edge.Verdict.{Complete, contained}
use sentinel_api.Alerts.Store.{Store}
use sentinel_api.Containment.{block_ip, Containment, Items, ok, Lifetime}
use sentinel_api.Requests.Ring.{append}
use sentinel_api.Requests.Hub.{publish}
use sentinel_api.Ingest.Value.{Value}
use sentinel_api.Ingest.Tail.{parsed, RequestLine}
use sentinel_api.Ingest.Tail.Nginx.{Combined, IsCombined, log_line}
use sentinel_api.Ingest.Normalize.Nginx.{IsRequest, request_text, line_event, normalize-log_line}
use sentinel_api.Server.Pipeline.{Arrival, Pipeline, receive}
use sentinel_api.Server.Control.{deploy_control}
use sentinel_api.Server.Control.Effects.{deploy_blocks}
use sentinel_api.Server.Tailed.{Moment, receive_raw, handed_over, receive_line}

module _ (St : Store) (visit : Kind → Map Policy → List Policy) (print : Value → String)
    (event_id : ℕ → ℕ → String) (geo_of : String → Option Geo) where
  -- The pipeline after an event that the edge has denied.
  abbrev pub after_denial : NormalizedEvent → Pipeline St visit → Pipeline St visit
  after_denial ev p = record p {
    gate = count_block deny p.gate;
    ring = append (contained deny ev) p.ring;
    hub = publish (contained deny ev) p.hub;
    events = suc p.events;
  }

  receive-denied :
      (a : Arrival) (p : Pipeline St visit)
      → eval visit a.now a.ev p.gate ≡ (true, contained deny a.ev, count_block deny p.gate)
      → receive St visit a p ≡ after_denial a.ev p
  unfolding receive
  receive-denied a p h = rw h

  -- Once the handler has deployed a block for an address under an id that is not empty, each line in
  -- nginx's combined format from that address, well formed, with a request line and a number for its
  -- status, comes out blocked with 403 until the control expires, in whatever order the edge walks its
  -- policies: the detection engine and the alerts are as they were, the ring and the hub get the
  -- blocked event, and the edge has counted it.
  pub receive_line-blocked :
      (complete : Complete visit) (parse : String → Option Lifetime) (deployed_at : ℕ)
      (i direction duration enforcement : String) (note : String) (ids : List String)
      (items items' : Items) (e : Engine) (c : Containment) (l : Combined) (r : RequestLine) (n : ℕ)
      (asset : String) (m : Moment) (p : Pipeline St visit)
      → is_blank i ≡ false
      → deploy_control parse deployed_at i block_ip
          (text l.ip)
          direction
          duration
          enforcement
          note
          ids
          items
          e
        ≡ ok (c, items', p.gate)
      → is_expired m.now c.expires_at ≡ false
      → l.request ≡ request_text r
      → IsRequest r
      → IsCombined l
      → atoi (numbers l.status) ≡ some (pos n)
      → receive_line St visit print event_id geo_of m (log_line l) asset p
        ≡ parsed (after_denial (line_event print event_id geo_of l r n asset m.ts) p)
  unfolding receive_line handed_over receive_raw
  receive_line-blocked complete parse t i direction duration enforcement note ids items items' e c l
        r n asset m p named done live request v w status =
      let (raw, parses, becomes) =
        normalize-log_line print event_id geo_of l r n asset m.ts request v w status in
      let ev = line_event print event_id geo_of l r n asset m.ts in
      let a : Arrival = record { ev = ev; now = m.now; draw = m.draw } in
      let denied =
        deploy_blocks parse t i (text l.ip) direction duration enforcement note ids items e c items'
          p.gate named done visit m.now ev complete refl live in
      rw (parses, becomes) (ap parsed (receive-denied a p denied))
