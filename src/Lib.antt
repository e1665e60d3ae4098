-- ===== src/Lib.antt =====
-- Sentinel API: a verification library for the core of the service.
--
-- The program takes log events, lets an edge engine block some of them, runs detection rules over
-- the rest, keeps alerts with a lifecycle, and lets operators deploy controls. One goroutine runs
-- the loop of internal/server/pipeline.go: the normalised event goes to `Engine.Eval` of the edge;
-- if it is not blocked, to `Engine.Process` of the detection engine, whose emitter is the alert
-- service's `Ingest`; blocked or not, it is appended to the ring of recent requests and published
-- to the hub. HTTP handlers call the alert service, the containment service and the edge.
--
-- The files and the code that they model:
--   Event, Event/Tag             internal/event/event.go
--   Detect/Rule, Rules, Signs,   internal/detect/rules.go: the rules, and the pattern of the
--   Scans, Pattern               injection rule as a regular expression with a matcher
--   Detect/Engine                internal/detect/engine.go: the windows, `Process`, `Drain`
--   Detect/Windows, Batches      what the windows hold and what the emitter is given
--   Alerts/Model                 internal/alerts/model.go
--   Alerts/Store                 the `Store` interface of internal/alerts/service.go, with laws
--   Alerts/Merge, Service        internal/alerts/service.go: `Ingest`, `Merge`, `Assign`,
--                                `SetStatus`, `Action`, `List`
--   Alerts/Related, Seed         `RelatedEvents` and `SeedDemo` of internal/alerts/service.go
--   Alerts/Soundness, Lifecycle  what a sound alert is, and the life of one alert
--   Alerts/Contents, Effects,    lists of alerts, what one call does to them, and every history
--   History                      of calls over any lawful store
--   Store/Memory                 internal/store/memory.go
--   Store/Positions, Index,      its index and laws, its `List`, its `Counts`
--   Queue, Tally
--   Store/Postgres/Sql, Row,     internal/store/postgres.go with the table of
--   Query, Totals, Session       migrations/00001_create_alerts.sql: the statements, the rows, and
--                                the operations; internal/store/factory.go
--   Store/Postgres/Documented    what the code relies on in Postgres and its driver
--   Store/Postgres/RoundTrip,    a row and its alert, `Get` after `Create`, and what `Update` comes
--   Created, Refused             to
--   Store/Postgres/Clauses,      `List` against the filter, and `Counts` against the alerts
--   Listing, Counting, Counted
--   Edge                         internal/edge/edge.go
--   Edge/Verdict, Rate, Counters what is blocked, the token bucket, the counters
--   Containment                  internal/containment/containment.go
--   Containment/Keeps, Life      the controls over any calls
--   Containment/Duration, its    `ParseDuration` of internal/containment/containment.go
--   child Days
--   Requests/Ring, Hub           internal/requests/requests.go
--   Requests/Ring/Holds, Refine  the ring against a bounded list
--   Ingest/Value                 `RawLog` of internal/event/event.go, internal/ingest/fields.go
--   Ingest/Tail                  the line parsers of internal/ingest/tail.go
--   Ingest/Tail/Opening, Nginx,  what they make of a line of nginx, and of one that is cut off
--   Panics
--   Ingest/Normalize, its child  internal/ingest/normalize.go, and from a line to its event
--   Nginx
--   Ingest/Simulator/Random,     internal/ingest/simulator.go: the generator, the kinds of traffic,
--   Pools, Traffic, Live,        the ticks, and the seeded history
--   History
--   Ingest/Simulator/Yields,     what a tick and the history send, and that they end
--   Kinds, Ends, Seeded
--   Enrich                       internal/enrich/geo.go
--   Config                       internal/config/config.go, internal/logging/logger.go
--   Analysis/Phase, Chain        the kill chain of internal/analysis/analysis.go
--   Analysis/Chain/Partition,    which alerts a chain holds, its severity, and the chains of the
--   Highest, Own                 program's own rules
--   Analysis/Indicators, Tools   `ExtractIOCs` of internal/analysis/analysis.go
--   Analysis/Incidents, Groups,  `GroupIncidents` and `buildIncident` of the same file
--   Deadlines
--   Server/Pipeline              the loop of internal/server/pipeline.go
--   Server/Pipeline/Invariant    what holds of all parts after any events
--   Server/Rate                  the rate window of internal/server/pipeline.go
--   Server/Control               internal/server/analysis_handlers.go: `edgePolicyFor`,
--                                `actionForControl`, deploying and revoking a control
--   Server/Control/Effects       what a deployed control does to the traffic
--   Server/Deployment            `DeployContainment` with its actions on alerts, in the same file
--   Server/Incidents             internal/server/analysis_handlers.go: `IncidentAssign`,
--                                `IncidentContain`, `incidentContained`, `alertsForSource`
--   Server/Incidents/Contained,  what containing an incident deploys, and what it answers
--   Gone
--   Server/Inquiries             the handlers of the same file that show chains, indicators and
--                                incidents
--   Server/Reading, its child    `Metrics` and `alertTimeline` of internal/server/handlers.go
--   Buckets
--   Server/Intake, its child     `Ingest` of internal/server/handlers.go
--   Room
--   Server/Tailed, its child     from a tailed line to the loop of internal/server/pipeline.go
--   Blocked
--   Server/Desk                  internal/server/handlers.go: `Health`, `Summary`, `ListAlerts`,
--                                `GetAlert`, `AlertEvents`, `Assign`, `SetStatus`, `Action`,
--                                `ListRequests`, and `ListContainment` of the other handlers
--   Server/Desk/Calls, Taken,    requests as calls of the alert service, what `Assign` answers, and
--   Stream                       `StreamRequests`
--   Server/Build                 internal/server/app.go
--   Base                         lists, maps, integers and sorting that all parts share, and the
--                                searches and slices of texts
--   Tests                        concrete inputs, by component
--
-- How the code is represented. A struct is a record, and a method takes the state and returns the
-- new one. A map is an association list; where Go walks a map, the order is a function `visit` of
-- which only completeness is assumed. Times are nanoseconds since Go's zero time, confidences are
-- hundredths, tokens are counted in units of 10^-9 and rates in whole tokens per second, so that
-- no rounding of floating-point numbers is modelled. Counters are exact numbers, but for the
-- slots of the rate window, which wrap at 2^64. Clock readings and drawn ids are arguments.
-- An error is a value, and a panic is `none` or a value `panics` or `failed`. Methods that hold a
-- lock are single steps, and concurrent calls are the sequences of them. Every loop is a recursion on
-- a list or a number. Only a burst of the simulator has fuel, one more than the 8 events that a burst
-- may have at most, so that it never runs out.
--
-- A log line is a list of characters, taken to be ASCII, and a parser of lines can panic, refuse or
-- accept. Parameters stand for what the program calls and does not define: `fmt.Sprintf`, the
-- resolver, `time.ParseDuration`, `net.ParseIP` and `net.ParseCIDR`, the codec of encoding/json, the
-- digest of an incident's id, `sort.Slice`, which leaves the order of equal elements open, the order
-- in which a set is walked, the generator of math/rand, what viper read, and the database with its
-- driver. Store/Postgres/Documented states what is documented of the database: a row is stored with
-- its columns in order, a primary key is unique, a query answers the matching rows in the order it
-- asks for, a grouped query counts them, and a statement is refused if an argument is never named.
--
-- Not modelled: the decoding of requests and the encoding of answers, the routes and the middleware
-- of internal/server/router.go, the goroutine that reads log files, the timers and pauses of the
-- simulator, and cmd/sentinel-api/main.go, which starts the server and waits for a signal: they are
-- calls of the web framework and of the Go runtime.
mod Base
pub mod Event
pub mod Detect
pub mod Alerts
pub mod Store
pub mod Edge
pub mod Containment
pub mod Requests
pub mod Analysis
pub mod Ingest
pub mod Enrich
pub mod Config
pub mod Server
pub mod Tests
