-- ===== src/Examples/Ingesting.antt =====
-- Tests of the filter, the writer and the pipeline.
use headway.Base.{
  ℕ, zero, suc, pos, ◌-ℤ◌, length, Bool, true, false, List, [], ◌∷◌, ◌++◌, some, ◌⊎◌, inl, inr, ◌+◌,
  ◌≤◌, ◌≡◌, ◌≢◌, ◌↔◌, arith, ◌>>=◌,
}
use headway.Ingest.Filter.{Filter, new_filter, changed, entry_of, admit, len}
use headway.Ingest.Filter.Changes.{Apart, changed_iff}
use headway.Ingest.Filter.Bounds.{Reachable, Reachable-len}
use headway.Ingest.Writer.{WriterConfig, new_writer, Event, Database, run}
use headway.Ingest.Writer.Columns.{
  Row, columns_of, row, observation_of, HasNoEmptyText, columns_of-row,
}
use headway.Ingest.Writer.Balance.{accepted, concat, counted_rows, IsHonest, run_balances}
use headway.Examples.Data.{observation_at, simple_errors}

abbrev filter : Filter
filter = new_filter (pos 15) 1000

changed_iff_example :
    (changed
        (entry_of (observation_at "x" (pos 30)))
        (entry_of (observation_at "x" (pos 60)))
        (pos 15)
      ≡ true)
    ↔ ((pos 0 ≢ pos 0)
        ⊎ (pos 0 ≢ pos 0)
        ⊎ (true ≢ true)
        ⊎ (true ≢ true)
        ⊎ ((true ≡ true) × Apart (pos 15) (pos 30) (pos 60)))
unfolding entry_of ◌-ℤ◌
changed_iff_example =
    changed_iff (entry_of (observation_at "x" (pos 30))) (entry_of (observation_at "x" (pos 60)))
      (pos 15) (omega arith) (omega arith) (omega arith)

abbrev two_admitted : Filter
two_admitted =
    (admit (observation_at "y" (pos 30))
      (admit (observation_at "x" (pos 30)) (new_filter (pos 15) 1)).0).0

Reachable-len_example : len two_admitted ≤ 1
Reachable-len_example =
    Reachable-len (pos 15) 1 two_admitted
      (Reachable.admitting (admit (observation_at "x" (pos 30)) (new_filter (pos 15) 1)).0
        (observation_at "y" (pos 30))
        (Reachable.admitting (new_filter (pos 15) 1) (observation_at "x" (pos 30))
          Reachable.created))
      (omega arith)

-- A database that inserts nothing, since it has each row already, after one failure.
abbrev pub answer : ℕ → Bool ⊎ ℕ
answer zero = inl true
answer (suc n) = inr 0

abbrev pub replayed : Database simple_errors
replayed = λ batch. record { outcome = answer; cancelled = λ n. false; interrupted = λ n. false }

answer_none : (k n : ℕ) → answer k ≡ inr n → n ≡ 0
answer_none zero n e = cc
answer_none (suc k) n e = cc

pub replayed-IsHonest : IsHonest simple_errors replayed
replayed-IsHonest batch k n e = omega (arith, answer_none k n e)

abbrev config : WriterConfig
config = record { batch_size = pos 2; flush_interval = pos 0; write_timeout = pos 0 }

abbrev events : List (Event × Database simple_errors)
events =
    (Event.received (observation_at "x" (pos 30)), replayed)
    ∷ (Event.tick, replayed)
    ∷ (Event.received (observation_at "y" (pos 30)), replayed)
    ∷ (Event.closed, replayed)
    ∷ []

run_balances_example :
    (concat simple_errors (run simple_errors events (new_writer config)).1
        ++ (run simple_errors events (new_writer config)).0.batch
      ≡ accepted simple_errors events)
    × (((run simple_errors events (new_writer config)).2 ≡ false)
        ⊎ ((run simple_errors events (new_writer config)).0.batch ≡ []))
    × (counted_rows simple_errors (run simple_errors events (new_writer config)).0
          + length (run simple_errors events (new_writer config)).0.batch
        ≡ length (accepted simple_errors events))
run_balances_example =
    run_balances simple_errors events config
      (replayed-IsHonest, (replayed-IsHonest, (replayed-IsHonest, (replayed-IsHonest, tt))))

columns_of-row_example :
    ((row (columns_of (observation_at "x" (pos 30) ∷ observation_at "y" (pos 30) ∷ [])) 1 >>= λ r.
    some (observation_of r))
      ≡ some (observation_at "y" (pos 30)))
    × ((r : Row)
        → row (columns_of (observation_at "x" (pos 30) ∷ observation_at "y" (pos 30) ∷ [])) 1
          ≡ some r
        → HasNoEmptyText r)
columns_of-row_example =
    columns_of-row (observation_at "x" (pos 30) ∷ observation_at "y" (pos 30) ∷ []) 1 (
      ((omega arith, omega arith), (omega arith, omega arith)),
      (((omega arith, omega arith), (omega arith, omega arith)), tt),
    )
