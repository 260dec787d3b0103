-- ===== src/Rollup/Tick.antt =====
-- internal/rollup/job.go: Tick, the three steps of one maintenance run.
pub mod Safety
use headway.Base.{ℤ, pos, ◌+ℤ◌, ◌-ℤ◌, Bool, true, false, List, [], ◌∷◌, ◌++◌, Option, none, some}
use headway.ServiceTime.{Date, Time, Duration, Zone}
use headway.Rollup.Partitions.{
  Tables, PartitionError, Answers, ensure_partitions, drop_partitions_before,
}
use headway.Rollup.Window.{Result, owner_date, rollup}

pub record Options : Type 0 where
  pub retention_days : ℤ
  pub lookahead_days : ℤ
  pub settle : Duration

pub data TickError : Type 0 where
  partition : PartitionError → TickError
  rollup_failed : TickError

abbrev pub errors_of : Option PartitionError → List TickError
errors_of none = []
errors_of (some e) = partition e ∷ []

-- The tables, the errors joined, and the date before which the change filter is expired.
pub record TickOutcome : Type 0 where
  pub tables : Tables
  pub errors : List TickError
  pub expired_before : Date

module _ (loc : Zone) (o : Options) (a : Answers) where
  abbrev pub retain : Date → Option Result → Tables → Tables × List TickError
  retain today none db = (db, rollup_failed ∷ [])
  retain today (some r) db =
      let (db', dropped, e) = drop_partitions_before a (today -ℤ o.retention_days) db in
      (db', errors_of e)

  abbrev pub tick_on : Date → Time → Bool → Tables → TickOutcome
  tick_on today now commits db =
      let (ready, created, e) =
        ensure_partitions a (today -ℤ pos 1) (today +ℤ o.lookahead_days) db in
      let (rolled, res) = rollup loc now o.settle commits ready in
      let (kept, errors) = retain today res rolled in
      record { tables = kept; errors = errors_of e ++ errors; expired_before = today -ℤ pos 1 }

  -- The clock is read when the tick starts and again for the rollup's window; `commits` stands for
  -- whether the rollup's transaction does.
  unfoldable pub tick : Time → Time → Bool → Tables → TickOutcome
  tick started now commits db = tick_on (owner_date loc started) now commits db
