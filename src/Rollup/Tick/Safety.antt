-- ===== src/Rollup/Tick/Safety.antt =====
-- One tick: no row is lost before it is rolled up, and the partitions ahead are there.
use headway.Base.{Bool}
use headway.Base.Eq.{int_eq}
use headway.ServiceTime.{Date, Time, Zone}
use headway.Rollup.Partitions.{Tables, Answers}
use headway.Rollup.Window.{owner_date}
use headway.Rollup.Tick.{Options, TickOutcome, tick}

module _ (loc : Zone) (o : Options) (a : Answers) (started now : Time) (commits : Bool)
    (db : Tables) where
  abbrev today : Date
  today = owner_date loc started

  abbrev after : TickOutcome
  after = tick loc o a started now commits db
