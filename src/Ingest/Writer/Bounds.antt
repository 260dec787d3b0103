-- ===== src/Ingest/Writer/Bounds.antt =====
-- The size of the writer's batch.
use headway.Base.{pos, ◌<ℤ◌, List, [], ◌∷◌, inl, inr, length, arith, Bool-cases, ◌≡◌, refl, ⊎-cases}
use headway.Store.Retry.{Errors, retry}
use headway.Ingest.{Observation}
use headway.Ingest.Writer.{
  Writer, WriterConfig, with_defaults, new_writer, Database, write_batch, flush, flush_of, Event,
  append, is_full, turn, run,
}

-- A writer works whatever the configuration it is made with: its batch size and both its durations are
-- positive.
pub with_defaults_lem :
    (cfg : WriterConfig)
    → (pos 0 <ℤ (with_defaults cfg).batch_size)
      × (pos 0 <ℤ (with_defaults cfg).flush_interval)
      × (pos 0 <ℤ (with_defaults cfg).write_timeout)
unfolding with_defaults
with_defaults_lem cfg = (ground arith, ground arith, ground arith)

-- There is room in the batch.
abbrev pub HasRoom : Writer → Type 0
HasRoom w = (pos 0 <ℤ w.cfg.batch_size) × (pos (length w.batch) <ℤ w.cfg.batch_size)

module _ (errors : Errors) where
  flush_of-HasRoom :
      (db : Database errors) (batch : List Observation) (w : Writer)
      → w.batch ≡ batch
      → pos 0 <ℤ w.cfg.batch_size
      → HasRoom (flush_of errors db batch w).0
  unfolding write_batch
  flush_of-HasRoom db [] w e h = (h, rw e h)
  flush_of-HasRoom db (o ∷ os) w e h = elim (⊎-cases (retry errors (db (o ∷ os)))) [
    | inl (err, r) ↦ rw r (h, h)
    | inr (n, r) ↦ rw r (h, h)
  ]

  turn-HasRoom :
      (ev : Event) (db : Database errors) (w : Writer) → HasRoom w → HasRoom (turn errors ev db w).0
  unfolding turn flush append
  turn-HasRoom (Event.received o) db w h = elim (Bool-cases (is_full (append o w))) [
    | inl c ↦ rw c (flush_of-HasRoom db (append o w).batch (append o w) refl h.0)
    | inr c ↦ rw c (h.0, ground arith)
  ]
  turn-HasRoom Event.closed db w h = flush_of-HasRoom db w.batch w refl h.0
  turn-HasRoom Event.tick db w h = flush_of-HasRoom db w.batch w refl h.0
  turn-HasRoom Event.deadline db w h = flush_of-HasRoom db w.batch w refl h.0

  run-HasRoom :
      (events : List (Event × Database errors)) (w : Writer)
      → HasRoom w
      → HasRoom (run errors events w).0
  unfolding run
  run-HasRoom [] w h = h
  run-HasRoom ((ev, db) ∷ events) w h = elim (Bool-cases (turn errors ev db w).2) [
    | inl c ↦ rw c (turn-HasRoom ev db w h)
    | inr c ↦ rw c (run-HasRoom events (turn errors ev db w).0 (turn-HasRoom ev db w h))
  ]

  -- After any sequence of events the batch holds fewer observations than the batch size, whatever the
  -- configuration.
  pub run-batch_lt :
      (events : List (Event × Database errors)) (cfg : WriterConfig)
      → pos (length (run errors events (new_writer cfg)).0.batch)
        <ℤ (run errors events (new_writer cfg)).0.cfg.batch_size
  unfolding new_writer
  run-batch_lt events cfg =
      (run-HasRoom events (new_writer cfg) ((with_defaults_lem cfg).0, (with_defaults_lem cfg).0)).1
