-- ===== src/GtfsStatic/Tables.antt =====
-- internal/gtfsstatic/parse.go: the six files that are loaded, and how a record becomes a table's values.
pub mod Checks
use headway.Base.{
  ℕ, ℤ, pos, negsuc, ltb_ℤ, eqb_ℤ, int16, String, str_eq, Bool, true, false, not, ◌&&◌, List, [],
  ◌∷◌, ◌++◌, Option, none, some, if◌then◌else◌,
}
use headway.ServiceTime.{Date}
use headway.GtfsStatic.Row.{
  RowError, missing, not_allowed, Parsed, ok, wrong, ◌>>=◌, Row, str, null, need, int, opt_int,
  float, date, stop_time,
}

-- A column's value, as it goes to COPY.
pub data Value (F : Type 0) : Type 0 where
  text : String → Value F
  opt_text : Option String → Value F
  number : ℤ → Value F
  opt_number : Option ℤ → Value F
  opt_float : Option F → Value F
  flag : Bool → Value F
  day : Date → Value F

pub data File : Type 0 where
  routes : File
  stops : File
  trips : File
  stop_times : File
  calendar : File
  calendar_dates : File

abbrev pub file_name : File → String
file_name routes = "routes.txt"
file_name stops = "stops.txt"
file_name trips = "trips.txt"
file_name stop_times = "stop_times.txt"
file_name calendar = "calendar.txt"
file_name calendar_dates = "calendar_dates.txt"

abbrev pub required : File → Bool
required routes = true
required stops = true
required trips = true
required stop_times = true
required calendar = false
required calendar_dates = false

abbrev pub tables : List File
tables = routes ∷ stops ∷ trips ∷ stop_times ∷ calendar ∷ calendar_dates ∷ []

abbrev pub minus_one : ℤ
minus_one = negsuc 0

abbrev pub weekdays : List String
weekdays = "monday" ∷ "tuesday" ∷ "wednesday" ∷ "thursday" ∷ "friday" ∷ "saturday" ∷ "sunday" ∷ []

-- if n < 0: the column was empty, or negative.
abbrev pub not_negative : String → ℤ → Parsed ℤ
not_negative col n = if ltb_ℤ n (pos 0) then wrong (missing col) else ok n

module _ (F : Type 0) (parse_float : String → Option F) where
  unfoldable pub convert_route : Row → Parsed (List (Value F))
  convert_route r = do
    id ← need r "route_id"
    rt ← int r "route_type" minus_one
    rt ← not_negative "route_type" rt
    ok (
        text id
        ∷ opt_text (null r "agency_id")
        ∷ opt_text (null r "route_short_name")
        ∷ opt_text (null r "route_long_name")
        ∷ number (int16 rt)
        ∷ [])

  unfoldable pub convert_stop : Row → Parsed (List (Value F))
  convert_stop r = do
    id ← need r "stop_id"
    name ← need r "stop_name"
    lat ← float parse_float r "stop_lat"
    lon ← float parse_float r "stop_lon"
    lt ← int r "location_type" (pos 0)
    ok (
        text id
        ∷ opt_text (null r "stop_code")
        ∷ text name
        ∷ opt_float lat
        ∷ opt_float lon
        ∷ opt_text (null r "parent_station")
        ∷ number (int16 lt)
        ∷ [])

  unfoldable pub convert_trip : Row → Parsed (List (Value F))
  convert_trip r = do
    trip_id ← need r "trip_id"
    route_id ← need r "route_id"
    service_id ← need r "service_id"
    dir ← opt_int r "direction_id"
    ok (
        text trip_id
        ∷ text route_id
        ∷ text service_id
        ∷ opt_number dir
        ∷ opt_text (null r "trip_headsign")
        ∷ [])

  unfoldable pub convert_stop_time : ℤ → Row → Parsed (List (Value F))
  convert_stop_time max_s r = do
    trip_id ← need r "trip_id"
    stop_id ← need r "stop_id"
    seq ← int r "stop_sequence" minus_one
    seq ← not_negative "stop_sequence" seq
    arr ← stop_time r "arrival_time" max_s
    dep ← stop_time r "departure_time" max_s
    pu ← int r "pickup_type" (pos 0)
    dof ← int r "drop_off_type" (pos 0)
    ok (
        text trip_id
        ∷ number seq
        ∷ text stop_id
        ∷ opt_number arr
        ∷ opt_number dep
        ∷ number (int16 pu)
        ∷ number (int16 dof)
        ∷ [])

  -- The loop over the days of the week.
  unfoldable pub day_flags : Row → List String → Parsed (List (Value F))
  day_flags r [] = ok []
  day_flags r (d ∷ ds) =
      let rest = day_flags r ds in
      if not (str_eq (str r d) "0") && not (str_eq (str r d) "1")
      then wrong (not_allowed d)
      else rest >>= λ out. ok (flag (str_eq (str r d) "1") ∷ out)

  unfoldable pub convert_calendar : Row → Parsed (List (Value F))
  unfolding day_flags
  convert_calendar r = do
    id ← need r "service_id"
    days ← day_flags r weekdays
    start ← date r "start_date"
    end' ← date r "end_date"
    ok (text id ∷ days ++ (day start ∷ day end' ∷ []))

  abbrev pub exception_of : ℤ → Parsed ℤ
  exception_of et =
      if not (eqb_ℤ et (pos 1)) && not (eqb_ℤ et (pos 2))
      then wrong (not_allowed "exception_type")
      else ok et

  unfoldable pub convert_calendar_date : Row → Parsed (List (Value F))
  convert_calendar_date r = do
    id ← need r "service_id"
    d ← date r "date"
    et ← int r "exception_type" (pos 0)
    et ← exception_of et
    ok (text id ∷ day d ∷ number (int16 et) ∷ [])

  unfoldable pub convert : ℤ → File → Row → Parsed (List (Value F))
  unfolding convert_route convert_stop convert_trip convert_stop_time convert_calendar
      convert_calendar_date
  convert max_s routes r = convert_route r
  convert max_s stops r = convert_stop r
  convert max_s trips r = convert_trip r
  convert max_s stop_times r = convert_stop_time max_s r
  convert max_s calendar r = convert_calendar r
  convert max_s calendar_dates r = convert_calendar_date r
