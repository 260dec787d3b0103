-- ===== src/Lib.antt =====
-- Transit Late Again records how late public transport runs. Pollers fetch the realtime feeds under one
-- account's limits (internal/feed), each body is decoded into updates (internal/gtfsrt), the matcher
-- resolves an update against the timetable to an observation on a service date (internal/match,
-- internal/servicetime), and an observation goes two ways: into the cache of the latest state, which the
-- handlers read (internal/cache, internal/api), and through the change filter and a bounded queue to the
-- writer, which stores batches in Postgres (internal/ingest, internal/store). A loader keeps one version of
-- the timetable active for each feed (internal/gtfsstatic), and a job rolls the observations up, hour by
-- hour, and drops the partitions that are rolled up and past retention (internal/rollup).
--
-- Files and what they model:
--   Base, Base/...            signed integers with Go's fixed widths, lists, maps as association lists
--   ServiceTime               internal/servicetime/servicetime.go: service days and candidate dates,
--                             and ParseGTFSTime in ServiceTime/Clock
--   Civil                     the dates of time.Parse that internal/match/matcher.go reads
--   Gtfsrt, Gtfsrt/...        internal/gtfsrt: types.go and Decode
--   Match/Schedule            internal/match/schedule.go: the timetable and its calendar
--   Match/Counts, Match/Resolve, Match/Dates, Match/Matcher
--                             internal/match/matcher.go: counts, stops and delays, dates, and Match
--   Ingest                    internal/ingest/observation.go: observations and their keys
--   Ingest/Filter             internal/ingest/filter.go: Admit, ExpireBefore, Forget, the eviction
--   Ingest/Writer             internal/ingest/writer.go: Run as a machine over the events of its select,
--                             writeBatch, and columnsOf in Ingest/Writer/Columns
--   Ingest/Pipeline           internal/ingest/pipeline.go: Submit, and its accesses interleaved with
--                             the writer and the shutdown, as a relation
--   Store/Retry               internal/store/store.go: Retry, Retryable and the jitter
--   Store/Migrate             internal/store/migrate.go: the loop of Migrate
--   Cache, Cache/Read         internal/cache/latest.go: Update, Stale, and what the handlers read
--   Feed/Limiter              internal/feed/limiter.go: the bucket and the daily budget
--   Feed/Poller               internal/feed/poller.go and client.go: one poll and the next wait
--   GtfsStatic/Row, Tables    internal/gtfsstatic/parse.go: the fields of a record, and the conversions
--   GtfsStatic/Bundle         internal/gtfsstatic/parse.go and load.go: open, Next, and the loop of insert
--   GtfsStatic/Versions       internal/gtfsstatic/load.go: Load, activate, insert and prune
--   GtfsStatic/Memory         internal/gtfsstatic/schedule.go: Schedule, over the rows of its queries
--   GtfsStatic/Publish        internal/gtfsstatic/refresh.go: publishActive, and Run's loop over the feeds
--   GtfsStatic/Refresh        internal/gtfsstatic/refresh.go: when the next load is
--   Rollup/Partitions         internal/rollup/job.go: EnsurePartitions and DropPartitionsBefore
--   Rollup/Window             internal/rollup/rollup.go: the window, the final words, the watermark
--   Rollup/Tick               internal/rollup/job.go: Tick
--   Config/Rules, Config/Env  internal/config: validate, and the readers of env.go
--   Config/Feeds              internal/config/feeds.go: the checks of the catalogue, and SelectFeeds
--   Service                   cmd/transitlateagain/main.go: decodeAndIngest, with what others do to the
--                             pipeline between its accesses as an argument
--   Api/RateLimit             internal/api/ratelimit.go: the bucket of each client, and limit
--   Api/Board                 internal/api/handlers_now.go: stopNow, the departures of a stop
--   Api/Now                   internal/api/handlers_now.go: status and summarise
--   Api/History               internal/api/handlers_history.go: the percentile over several rows,
--                             and groupRows and combine in Api/History/Groups
--   Examples/...              the theorems at concrete inputs
--
-- The state of a component is a record with the fields of the Go struct, and each method a function on
-- it; a method that holds a mutex is one step. Submit, which releases the filter's before it sends,
-- forgets and counts, is a step for each of these accesses; a turn of the writer is one step. Instants
-- and durations are nanoseconds, dates are days since the epoch, a nil pointer is `none`, and int32,
-- uint32, int16 and int64 conversions keep the low bits. Counters do not wrap. time.Time.Sub does not
-- saturate, since no comparison depends on it.
--
-- No definition uses fuel but `find_owner`, whose loop is counted down from three: the owner is tomorrow,
-- today or yesterday, and the theorem on it shows that this suffices. The loop of Retry recurses on the
-- delays that are left, that of EnsurePartitions on the number of days, all other loops on their lists.
--
-- The tables that a job or a load changes are a record: the rows of a partition, the versions of a timetable,
-- the watermark. A statement is the change that it spells, and a transaction is made whole or not at all;
-- which of them fail is an argument, so that the theorems hold for every course of events.
--
-- Parameters are the zone (any offset from 0 to 14 hours east of UTC), the generated protobuf
-- code, the database's answers (it inserts at most the rows of a statement), the classes of an error, the
-- HTTP transport, the readers of CSV, URLs and numbers of Go's library, random numbers, and the arithmetic of
-- float64.
--
-- Not modelled: the HTTP requests, the SQL of the history, trip and meta handlers, the lists of lines and of
-- a line's trips, the sums of the rollup over the final words, the mean and the shares that are float64,
-- the reading of the feeds file, the metrics, the wiring of the commands, and log lines. They format, call
-- libraries, or are statements that only the database gives a meaning to.
pub mod Base
pub mod ServiceTime
pub mod Civil
pub mod Gtfsrt
pub mod Match
pub mod Store
pub mod Ingest
pub mod Cache
pub mod Feed
pub mod Api
pub mod GtfsStatic
pub mod Rollup
pub mod Config
pub mod Service
pub mod Examples
