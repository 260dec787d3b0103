-- ===== src/GtfsStatic/Memory.antt =====
-- internal/gtfsstatic/schedule.go: a stored timetable read back into memory.
pub mod Calls
use headway.Base.{
  ℤ, negsuc, String, str_eq, Bool, true, false, ◌||◌, List, [], ◌∷◌, Option, none, some,
  if◌then◌else◌,
}
use headway.ServiceTime.{Date}
use headway.Match.Schedule.{
  StopTime, Trip, Route, Schedule, no_time, new_schedule, add_route, add_stop, add_trip,
  add_stop_time, add_calendar, add_calendar_date,
}

pub record RouteRow : Type 0 where
  pub route_id : String
  pub short_name : Option String
  pub long_name : Option String
  pub route_type : ℤ

pub record StopRow : Type 0 where
  pub stop_id : String
  pub name : String

pub record TripRow : Type 0 where
  pub trip_id : String
  pub route_id : String
  pub service_id : String
  pub direction_id : Option ℤ
  pub headsign : Option String

pub record StopTimeRow : Type 0 where
  pub trip_id : String
  pub stop_sequence : ℤ
  pub stop_id : String
  pub arrival_s : Option ℤ
  pub departure_s : Option ℤ

pub record CalendarRow : Type 0 where
  pub service_id : String
  pub days : List Bool
  pub start_date : Date
  pub end_date : Date

pub record CalendarDateRow : Type 0 where
  pub service_id : String
  pub service_date : Date
  pub exception_type : ℤ

-- The rows of a version in each table, in the order in which a query returns them.
pub record Timetable : Type 0 where
  pub routes : List RouteRow
  pub stops : List StopRow
  pub trips : List TripRow
  pub stop_times : List StopTimeRow
  pub calendar : List CalendarRow
  pub calendar_dates : List CalendarDateRow

-- coalesce(column, '')
abbrev pub or_empty : Option String → String
or_empty none = ""
or_empty (some s) = s

-- coalesce(arrival_s, -1)
abbrev pub or_no_time : Option ℤ → ℤ
or_no_time none = no_time
or_no_time (some s) = s

-- EXISTS (SELECT 1 FROM trips …)
unfoldable pub has_trips : String → List TripRow → Bool
has_trips route [] = false
has_trips route (t ∷ ts) = str_eq t.route_id route || has_trips route ts

unfoldable pub read_routes : List TripRow → List RouteRow → Schedule → Schedule
unfolding has_trips
read_routes trips [] s = s
read_routes trips (r ∷ rs) s = read_routes trips rs (
    if has_trips r.route_id trips
    then add_route r.route_id
        (record {
          short_name = or_empty r.short_name;
          long_name = or_empty r.long_name;
          route_type = r.route_type;
        })
        s
    else s)

unfoldable pub read_stops : List StopRow → Schedule → Schedule
read_stops [] s = s
read_stops (r ∷ rs) s = read_stops rs (add_stop r.stop_id r.name s)

abbrev pub trip_of : TripRow → Trip
trip_of r = record {
  route_id = r.route_id;
  service_id = r.service_id;
  direction_id = r.direction_id;
  headsign = or_empty r.headsign;
  stops = [];
}

unfoldable pub read_trips : List TripRow → Schedule → Schedule
read_trips [] s = s
read_trips (r ∷ rs) s = read_trips rs (add_trip r.trip_id (trip_of r) s)

abbrev pub call_of : StopTimeRow → StopTime
call_of r = record {
  seq = r.stop_sequence;
  stop_id = r.stop_id;
  arr_s = or_no_time r.arrival_s;
  dep_s = or_no_time r.departure_s;
}

unfoldable pub read_stop_times : List StopTimeRow → Schedule → Schedule
read_stop_times [] s = s
read_stop_times (r ∷ rs) s = read_stop_times rs (add_stop_time r.trip_id (call_of r) s).0

unfoldable pub read_calendar : List CalendarRow → Schedule → Schedule
read_calendar [] s = s
read_calendar (r ∷ rs) s =
    read_calendar rs (add_calendar r.service_id r.days r.start_date r.end_date s)

unfoldable pub read_calendar_dates : List CalendarDateRow → Schedule → Schedule
read_calendar_dates [] s = s
read_calendar_dates (r ∷ rs) s =
    read_calendar_dates rs (add_calendar_date r.service_id r.service_date r.exception_type s)

unfoldable pub read_schedule : ℤ → String → Timetable → Schedule
unfolding read_routes read_stops read_trips read_stop_times read_calendar read_calendar_dates
read_schedule version feed t = read_calendar_dates t.calendar_dates (
    read_calendar t.calendar (
      read_stop_times t.stop_times (
        read_trips t.trips
          (read_stops t.stops (read_routes t.trips t.routes (new_schedule version feed))))))
