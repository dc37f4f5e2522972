-- ===== src/Lib.antt =====
-- The safety and operations core of Mine Monitor (src/minemonitor).
--
-- A tracked asset's position enters by ingest and is stored; `pipeline.process_position` then takes
-- it through every zone of the site. For each zone the debounced membership engine
-- (zones/engine.py) steps the asset's row, and the zone's rules (rules/) raise alarms. An alarm goes
-- into the queue of events with its notifications in one transaction (events/repository.py,
-- notifications/outbox.py), and a tick delivers the notifications (notifications/dispatch.py). The
-- gate service (access/service.py) raises its alarms into the same queue. Incidents are worked
-- through a lifecycle (operations/incidents.py); an edge node turns camera observations into
-- operational events (vision/temporal.py) and keeps them in a durable queue until they are
-- delivered (vision/edge/outbox.py, publish.py); logins are locked after failures (auth/lockout.py).
-- Trackers speak a binary protocol over TCP (ingest/adapters/teltonika.py), and the stored positions
-- of a truck are cut into haul cycles (cycles/statemachine.py). A register of breaches of personal
-- data raises alarms for the deadlines of their notices, on the maintenance tick
-- (breaches/service.py).
--
--   Prelude                   lists, options, tables and texts that all modules share
--   Storage                   storage/models.py and storage/db.py: rows, the session, its commit
--   Events                    events/repository.py
--   Notifications.Outbox      notifications/outbox.py
--   Notifications.Dispatch    notifications/dispatch.py
--   Zones.Engine              zones/engine.py
--   Rules.Config, .Evaluate   rules/config.py, rules/evaluate.py
--   Rules.Occupancy           rules/occupancy.py and zones/occupancy.py
--   Rules.Offline             rules/offline.py
--   Pipeline                  pipeline.py
--   Access.Model, .Service, .Quarantine, .Search
--                             access/service.py
--   Operations.Incidents      operations/incidents.py
--   Vision.Temporal, .TemporalEngine
--                             vision/temporal.py
--   Vision.EdgeOutbox         vision/edge/outbox.py
--   Vision.Publish            vision/edge/publish.py
--   Auth.Lockout, .Cache      auth/lockout.py, auth/cache.py
--   Cycles.Visits, .Stops, .Queue, .Analyse
--                             cycles/statemachine.py
--   Breaches, .Recording, .Service, .Ticks
--                             breaches/service.py and audit.py
--   Ingest.Teltonika          ingest/adapters/teltonika.py
--
-- A function here has the name of the Python function that it translates, without a leading
-- underscore; a part of one has a name of its own and stands by it. A row is a record, a table is a
-- list of rows or an association list, and a function that writes takes the state and returns it.
-- Times are whole microseconds in UTC, the resolution of a Python datetime; distances are whole
-- millimetres, speeds metres per hour and confidences ten-thousandths, where the code has floats. A
-- ULID is the number of its draw, so that two draws differ. Bytes are numbers below 256, an integer
-- that may be negative is an ℤ, and the haversine distance and the point in polygon of the haul
-- cycles are a `Geometry`, which is an argument; a mean of positions is kept as a sum and a count.
--
-- The session is SQLAlchemy's with `autoflush=False`: rows that are added wait, queries read only
-- the flushed ones, and a commit or a flush fails, keeping nothing, where a primary key or a unique
-- constraint is violated. `none`, or `integrity_error`, stands for that failure. There is no
-- concurrent session.
--
-- The loops of the code run over finite lists and are structural recursion here, but for the `while
-- True` of `drain` in vision/edge/publish.py, which has fuel, a number of rounds: one more than the
-- records that are pending is enough.
--
-- Not modelled: polygon tests and distances, which are floats and arguments of the pipeline; the
-- shift calendar, the SHA-256 bucket of an id and the senders of messages, which are arguments too;
-- the text of summaries and JSON payloads; queries for display, the HTTP routers, adapters of
-- devices, reports, the recomputation of haul cycles, video capture and inference, scripts and
-- deployment.
pub mod Prelude
pub mod Auth
pub mod Storage
pub mod Notifications
pub mod Events
pub mod Zones
pub mod Rules
pub mod Pipeline
pub mod Operations
pub mod Vision
pub mod Access
pub mod Ingest
pub mod Cycles
pub mod Breaches
