-- ===== src/Ingest/Writer.antt =====
-- internal/ingest/writer.go: the one goroutine that drains the channel. The channel and the timers are
-- the events it receives; Postgres answers to each statement through Store.Retry. The counters do not
-- wrap, but a difference of two of Go's uint64 does.
pub mod Columns
pub mod Balance
pub mod Bounds
use headway.Base.{
  ℕ, ◌+◌, ◌-◌, ◌*◌, ◌^◌, ℤ, pos, leb_ℤ, Bool, true, false, List, [], ◌∷◌, ◌++◌, Option, none, some,
  ◌⊎◌, inl, inr, length, if◌then◌else◌, leb,
}
use headway.ServiceTime.{Duration, second}
use headway.Store.Retry.{Errors, Attempts, retry}
use headway.Ingest.{Observation}

pub record WriterConfig : Type 0 where
  pub batch_size : ℤ
  pub flush_interval : Duration
  pub write_timeout : Duration

abbrev pub or_default : ℤ → ℤ → ℤ
or_default d v = if leb_ℤ v (pos 0) then d else v

-- The configuration of NewWriter.
unfoldable pub with_defaults : WriterConfig → WriterConfig
with_defaults cfg = record {
  write_timeout = or_default (pos (10 * second)) cfg.write_timeout;
  flush_interval = or_default (pos (2 * second)) cfg.flush_interval;
  batch_size = or_default (pos 500) cfg.batch_size;
}

pub record Writer : Type 0 where
  pub cfg : WriterConfig
  pub batch : List Observation
  pub written : ℕ
  pub failed : ℕ
  pub batches : ℕ
  pub conflicts : ℕ

unfoldable pub new_writer : WriterConfig → Writer
unfolding with_defaults
new_writer cfg = record {
  cfg = with_defaults cfg;
  batch = [];
  written = 0;
  failed = 0;
  batches = 0;
  conflicts = 0;
}

-- a - b of two uint64.
unfoldable pub sub_uint64 : ℕ → ℕ → ℕ
sub_uint64 a b = if leb b a then a - b else 2 ^ 64 + a - b

-- What the select of Run receives.
pub data Event : Type 0 where
  received : Observation → Event
  closed : Event
  tick : Event
  deadline : Event

unfoldable pub append : Observation → Writer → Writer
append o w = record w { batch = w.batch ++ (o ∷ []) }

abbrev pub is_full : Writer → Bool
is_full w = leb_ℤ w.cfg.batch_size (pos (length w.batch))

module _ (errors : Errors) where
  -- What the database makes of the statement of a batch, attempt by attempt: the rows it inserts, or an
  -- error.
  abbrev pub Database : Type 0
  Database = List Observation → Attempts errors ℕ

  abbrev pub counted : List Observation → errors.Error ⊎ ℕ → Writer → Writer
  counted batch (inl err) w = record w { failed = w.failed + length batch }
  counted batch (inr inserted) w = record w {
    batches = w.batches + 1;
    written = w.written + inserted;
    conflicts = w.conflicts + sub_uint64 (length batch) inserted;
  }

  unfoldable pub write_batch : Database → List Observation → Writer → Writer
  write_batch db batch w = counted batch (retry errors (db batch)) w

  abbrev pub flush_of : Database → List Observation → Writer → Writer × List (List Observation)
  flush_of db [] w = (w, [])
  flush_of db (o ∷ os) w = (record (write_batch db (o ∷ os) w) { batch = [] }, (o ∷ os) ∷ [])

  -- The closure `flush` of Run, and the batches that it hands to the database.
  unfoldable pub flush : Database → Writer → Writer × List (List Observation)
  flush db w = flush_of db w.batch w

  -- One turn of the loop, the batches it hands to the database, and whether Run returns.
  unfoldable pub turn : Event → Database → Writer → Writer × List (List Observation) × Bool
  unfolding flush append
  turn (received o) db w =
      let added = append o w in
      if is_full added then ((flush db added).0, (flush db added).1, false) else (added, [], false)
  turn closed db w = ((flush db w).0, (flush db w).1, true)
  turn tick db w = ((flush db w).0, (flush db w).1, false)
  turn deadline db w = ((flush db w).0, (flush db w).1, true)

  -- Run, over the events of its select and what the database does at each.
  unfoldable pub run : List (Event × Database) → Writer → Writer × List (List Observation) × Bool
  unfolding turn
  run [] w = (w, [], false)
  run ((ev, db) ∷ events) w =
      let (now, handed, returns) = turn ev db w in
      let (last, more, returned) = run events now in
      if returns then (now, handed, true) else (last, handed ++ more, returned)
