-- ===== src/Examples/Refreshing.antt =====
-- Tests of a refresh: a stored timetable of one trip with two calls, and a new bundle put in use.
use headway.Base.{ℤ, pos, String, true, false, [], ◌∷◌, none, some, ◌≡◌}
use headway.Match.Schedule.{trip, stop}
use headway.Match.Matcher.{Matcher, new_matcher}
use headway.GtfsStatic.Memory.{StopTimeRow, Timetable, read_schedule}
use headway.GtfsStatic.Memory.Calls.{trip_row, name_row, calls_of, with_calls, read_schedule_lem}
use headway.GtfsStatic.Publish.{Store, Due, refresh_one}
use headway.GtfsStatic.Publish.Rounds.{Refreshed, refresh_one_lem}
use headway.Examples.Data.{options}
use headway.Examples.Timetables.{versions, versions-IsValid, download}

abbrev call_at : ℤ → String → ℤ → StopTimeRow
call_at seq stop_id s = record {
  trip_id = "a";
  stop_sequence = seq;
  stop_id = stop_id;
  arrival_s = some s;
  departure_s = none;
}

abbrev stored_rows : Timetable
stored_rows = record {
  routes =
      record { route_id = "T1"; short_name = some "T1"; long_name = none; route_type = pos 2 }
      ∷ record { route_id = "T9"; short_name = none; long_name = none; route_type = pos 2 }
      ∷ [];
  stops = record { stop_id = "x"; name = "X" } ∷ record { stop_id = "y"; name = "Y" } ∷ [];
  trips =
      record {
        trip_id = "a";
        route_id = "T1";
        service_id = "weekday";
        direction_id = none;
        headsign = some "City";
      }
      ∷ [];
  stop_times = call_at (pos 1) "x" (pos 28800) ∷ call_at (pos 2) "y" (pos 29400) ∷ [];
  calendar =
      record {
        service_id = "weekday";
        days = true ∷ true ∷ true ∷ true ∷ true ∷ false ∷ false ∷ [];
        start_date = pos 19600;
        end_date = pos 19900;
      }
      ∷ [];
  calendar_dates = [];
}

read_schedule_lem_example :
    ((read_schedule (pos 2) "trains" stored_rows).version_id ≡ pos 2)
    × ((read_schedule (pos 2) "trains" stored_rows).feed_id ≡ "trains")
    × ((j : String)
        → trip (read_schedule (pos 2) "trains" stored_rows) j
          ≡ with_calls (calls_of j stored_rows.stop_times) (trip_row j stored_rows.trips none))
    × ((j : String)
        → stop (read_schedule (pos 2) "trains" stored_rows) j ≡ name_row j stored_rows.stops none)
read_schedule_lem_example = read_schedule_lem (pos 2) "trains" stored_rows

abbrev store : Store
store = record { versions = versions; timetables = λ id. stored_rows }

abbrev due : Due
due = record {
  feed = "trains";
  schedule_url = "https://example.org/trains.zip";
  meets = download;
  timetable = stored_rows;
  reading = record { finds = true; reads = true };
}

abbrev matcher : Matcher
matcher = new_matcher ("trains" ∷ "buses" ∷ []) options

refresh_one_lem_example : Refreshed due store matcher (refresh_one 2 due store matcher)
refresh_one_lem_example = refresh_one_lem 2 due store matcher versions-IsValid
