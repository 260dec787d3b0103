-- ===== src/Ingest/Pipeline.antt =====
-- internal/ingest/pipeline.go: the filter, the bounded channel and the writer, wired together. A step
-- relation interleaves the producers, access by access, with the writer's goroutine, the maintenance
-- job and the shutdown. `submit` is a call with no step of another between its accesses.
pub mod Balance
pub mod Drops
use headway.Base.{
  ℕ, suc, ℤ, Bool, true, false, List, [], ◌∷◌, ◌++◌, Option, none, some, length, if◌then◌else◌, ltb,
  ◌≡◌,
}
use headway.ServiceTime.{Duration, Date}
use headway.Store.Retry.{Errors}
use headway.Ingest.{Observation, key, key_eq}
use headway.Ingest.Filter.{Filter, new_filter, admit, forget, expire_before, len}
use headway.Ingest.Writer.{Writer, WriterConfig, new_writer, Event, Database, turn}
use headway.Ingest.Writer.Balance.{IsHonest}

-- The configuration checks that the size of the queue and the filter's bound are at least one.
pub record PipelineConfig : Type 0 where
  pub queue_size : ℕ
  pub batch_size : ℤ
  pub flush_interval : Duration
  pub write_timeout : Duration
  pub filter_min_delta_s : ℤ
  pub filter_max_entries : ℕ

-- `queue` and `capacity` are the channel's; `started` tells that the writer's goroutine has been
-- launched, and `returned` that it has ended.
pub record Pipeline : Type 0 where
  pub queue : List Observation
  pub capacity : ℕ
  pub closed : Bool
  pub filter : Filter
  pub writer : Writer
  pub dropped : ℕ
  pub started : Bool
  pub returned : Bool

unfoldable pub new_pipeline : PipelineConfig → Pipeline
new_pipeline cfg = record {
  queue = [];
  capacity = cfg.queue_size;
  closed = false;
  filter = new_filter cfg.filter_min_delta_s cfg.filter_max_entries;
  writer = new_writer (record {
    batch_size = cfg.batch_size;
    flush_interval = cfg.flush_interval;
    write_timeout = cfg.write_timeout;
  });
  dropped = 0;
  started = false;
  returned = false;
}

unfoldable pub start : Pipeline → Pipeline
start p = record p { started = true }

-- What the channel does with an observation that the filter admits. It has no value when the channel
-- is closed: the send panics.
abbrev pub offer : Observation → Pipeline → Option (Pipeline × Bool)
offer o p =
    if p.closed
    then none
    else if ltb (length p.queue) p.capacity
    then some (record p { queue = p.queue ++ o ∷ [] }, true)
    else some (record p { filter = forget (key o) p.filter; dropped = suc p.dropped }, false)

unfoldable pub submit : Observation → Pipeline → Option (Pipeline × Bool)
submit o p =
    let (filter, admitted) = admit o p.filter in
    let q = record p { filter = filter } in if admitted then offer o q else some (q, false)

unfoldable pub close : Pipeline → Pipeline
close p = record p { closed = true }

unfoldable pub expire_filter_before : Date → Pipeline → Pipeline × ℕ
expire_filter_before service_date p =
    let (filter, n) = expire_before service_date p.filter in (record p { filter = filter }, n)

pub record Stats : Type 0 where
  pub queue_len : ℕ
  pub queue_cap : ℕ
  pub dropped : ℕ
  pub suppressed : ℕ
  pub admitted : ℕ
  pub written : ℕ
  pub failed : ℕ
  pub batches : ℕ
  pub conflicts : ℕ
  pub filter_size : ℕ

unfoldable pub pipeline_stats : Pipeline → Stats
unfolding len
pipeline_stats p = record {
  queue_len = length p.queue;
  queue_cap = p.capacity;
  dropped = p.dropped;
  suppressed = p.filter.suppressed;
  admitted = p.filter.admitted;
  written = p.writer.written;
  failed = p.writer.failed;
  batches = p.writer.batches;
  conflicts = p.writer.conflicts;
  filter_size = len p.filter;
}

-- Where a call of Submit stands between two accesses of what it shares: the filter has admitted its
-- observation, the full queue has then refused it, or the filter has then forgotten its key.
pub data Phase : Type 0 where
  admitted : Phase
  refused : Phase
  forgotten : Phase

-- The pipeline, and the calls of Submit in flight.
pub record State : Type 0 where
  pub pipeline : Pipeline
  pub calls : List (Phase × Observation)

-- The filter's part of a call, under its mutex: the call goes on if the observation is admitted.
abbrev pub begun : Observation → State → Filter × Bool → State
begun o s (filter, news) = record {
  pipeline = record s.pipeline { filter = filter };
  calls = if news then (admitted, o) ∷ s.calls else s.calls;
}

unfoldable pub begin_submit : Observation → State → State
begin_submit o s = begun o s (admit o s.pipeline.filter)

-- The next access of a call, with where it stands after that; `none` for a call that returns. Without
-- a value, it panics: the channel is closed.
unfoldable pub advance : Phase → Observation → Pipeline → Option (Pipeline × Option Phase)
advance admitted o p =
    if p.closed
    then none
    else if ltb (length p.queue) p.capacity
    then some (record p { queue = p.queue ++ o ∷ [] }, none)
    else some (p, some refused)
advance refused o p = some (record p { filter = forget (key o) p.filter }, some forgotten)
advance forgotten o p = some (record p { dropped = suc p.dropped }, none)

abbrev pub in_flight : Option Phase → Observation → List (Phase × Observation)
in_flight none o = []
in_flight (some phase) o = (phase, o) ∷ []

module _ (errors : Errors) where
  -- What the others do. The writer's goroutine runs once started and until it returns; it sees the
  -- channel closed only once that is empty, and its deadline only after Close has been called. A turn
  -- of the writer, which shares only the channel and its counters, is one move.
  pub data Move : Pipeline → Pipeline → Type 0 where
    starting : (p : Pipeline) → p.started ≡ false → Move p (start p)
    expiring : (p : Pipeline) (service_date : Date) → Move p (expire_filter_before service_date p).0
    closing : (p : Pipeline) → p.closed ≡ false → Move p (close p)
    receiving :
        (p : Pipeline) (o : Observation) (os : List Observation) (db : Database errors)
        → p.started ≡ true
        → p.returned ≡ false
        → p.queue ≡ o ∷ os
        → IsHonest errors db
        → Move p (record p { queue = os; writer = (turn errors (Event.received o) db p.writer).0 })
    ticking :
        (p : Pipeline) (db : Database errors)
        → p.started ≡ true
        → p.returned ≡ false
        → IsHonest errors db
        → Move p (record p { writer = (turn errors Event.tick db p.writer).0 })
    draining :
        (p : Pipeline) (db : Database errors)
        → p.started ≡ true
        → p.returned ≡ false
        → p.closed ≡ true
        → p.queue ≡ []
        → IsHonest errors db
        → Move p (record p { returned = true; writer = (turn errors Event.closed db p.writer).0 })
    cancelling :
        (p : Pipeline) (db : Database errors)
        → p.started ≡ true
        → p.returned ≡ false
        → p.closed ≡ true
        → IsHonest errors db
        → Move p (record p { returned = true; writer = (turn errors Event.deadline db p.writer).0 })

  -- One step: a call of Submit begins, any call in flight makes its next access, or another moves.
  pub data Step : State → State → Type 0 where
    submitting : (s : State) (o : Observation) → Step s (begin_submit o s)
    advancing :
        (s : State) (before after : List (Phase × Observation)) (phase : Phase) (o : Observation)
        (p : Pipeline) (next : Option Phase)
        → s.calls ≡ before ++ (phase, o) ∷ after
        → advance phase o s.pipeline ≡ some (p, next)
        → Step s (record { pipeline = p; calls = before ++ (in_flight next o ++ after) })
    moving : (s : State) (p : Pipeline) → Move s.pipeline p → Step s (record s { pipeline = p })

  pub data Reachable (cfg : PipelineConfig) : State → Type 0 where
    created : Reachable cfg (record { pipeline = new_pipeline cfg; calls = [] })
    stepped : (s r : State) → Reachable cfg s → Step s r → Reachable cfg r

  -- Any number of steps.
  pub data Steps : State → State → Type 0 where
    stay : (s : State) → Steps s s
    go : (s t r : State) → Step s t → Steps t r → Steps s r
