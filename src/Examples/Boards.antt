-- ===== src/Examples/Boards.antt =====
-- Test of a stop's board: a train a minute late at the first stop of the timetable's trip.
use headway.Base.{pos, String, Bool, true, false, [], ◌∷◌, some}
use Prim.Native.String.{compare}
use Prim.Native.Nat.{Ordering}
use headway.ServiceTime.{Time}
use headway.Cache.{Cache, new_cache, update}
use headway.Api.Now.{Thresholds}
use headway.Api.Board.{timetable, stop_now}
use headway.Api.Board.Departures.{IsAnswer, stop_now_lem}
use headway.Examples.Data.{east, timetable as trains, observation_at}

abbrev text_le : String → String → Bool
text_le s t = elim (compare s t) [ Ordering.gt ↦ false | _ ↦ true ]

abbrev thresholds : Thresholds
thresholds = record { early_s = pos 60; late_s = pos 300; very_late_s = pos 900 }

abbrev now : Time
now = pos 1_700_000_000_000_000_000

abbrev cache : Cache
cache =
    update "trains" now (record (observation_at "x" (pos 60)) { stop_sequence = some (pos 1) } ∷ [])
      (new_cache (pos 300_000_000_000))

stop_now_lem_example :
    IsAnswer east thresholds "x" "30" ""
      (timetable (trains ∷ []))
      now
      cache
      (stop_now east thresholds text_le "x" "30" "" (trains ∷ []) now cache)
stop_now_lem_example = stop_now_lem east thresholds text_le "x" "30" "" now cache (trains ∷ [])
