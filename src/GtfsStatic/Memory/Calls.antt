-- ===== src/GtfsStatic/Memory/Calls.antt =====
-- What the schedule read back holds: the trips with their calls, and the names of the stops.
use headway.Base.{
  ℤ, String, str_eq, eq_iff, true, List, [], ◌∷◌, ◌++◌, append_assoc, append-nil, Option, none,
  some, if◌then◌else◌, ◌≡◌, refl, sym, ap, ◌∙◌, Bool-cases, Option-cases, inl, inr, some_ne_none,
}
use headway.Base.Eq.{string_eq}
use headway.Base.Dict.{Dict, get, get-put}
use headway.Match.Schedule.{
  StopTime, Trip, Route, Service, Schedule, new_schedule, add_route, add_stop, add_trip,
  add_stop_time, add_calendar, add_calendar_date, trip, stop,
}
use headway.Match.Schedule.StopTimes.{IsInterned, add_stop_time_lem}
use headway.GtfsStatic.Memory.{
  RouteRow, StopRow, TripRow, StopTimeRow, CalendarRow, CalendarDateRow, Timetable, has_trips,
  trip_of, call_of, read_routes, read_stops, read_trips, read_stop_times, read_calendar,
  read_calendar_dates, read_schedule,
}

-- The trip of an id, without its calls. The primary key leaves one row; of several the last counts.
pub trip_row : String → List TripRow → Option Trip → Option Trip
trip_row j [] o = o
trip_row j (r ∷ rs) o = trip_row j rs (if str_eq r.trip_id j then some (trip_of r) else o)

pub name_row : String → List StopRow → Option String → Option String
name_row j [] o = o
name_row j (r ∷ rs) o = name_row j rs (if str_eq r.stop_id j then some r.name else o)

-- The rows of a trip, in their order.
pub calls_of : String → List StopTimeRow → List StopTime
calls_of j [] = []
calls_of j (r ∷ rs) =
    let rest = calls_of j rs in if str_eq r.trip_id j then call_of r ∷ rest else rest

abbrev pub with_calls : List StopTime → Option Trip → Option Trip
with_calls cs none = none
with_calls cs (some t) = some (record t { stops = t.stops ++ cs })

-- What no reader but the first two changes.
record Kept (s s' : Schedule) : Type 0 where
  version_kept : s'.version_id ≡ s.version_id
  feed_kept : s'.feed_id ≡ s.feed_id
  stops_kept : s'.stops ≡ s.stops

Kept-trans : (a b c : Schedule) → Kept a b → Kept b c → Kept a c
Kept-trans a b c h k = record {
  version_kept = k.version_kept ∙ h.version_kept;
  feed_kept = k.feed_kept ∙ h.feed_kept;
  stops_kept = k.stops_kept ∙ h.stops_kept;
}

-- Also the trips and the table of stop ids.
record KeptTrips (s s' : Schedule) : Type 0 where
  rest_kept : Kept s s'
  trips_kept : s'.trips ≡ s.trips
  ids_kept : s'.stop_ids ≡ s.stop_ids

KeptTrips-record :
    (routes : Dict String Route) (services : Dict String Service) (s : Schedule)
    → KeptTrips s (record s { routes = routes; services = services })
KeptTrips-record routes services s = record {
  rest_kept = record { version_kept = refl; feed_kept = refl; stops_kept = refl };
  trips_kept = refl;
  ids_kept = refl;
}

KeptTrips-refl : (s : Schedule) → KeptTrips s s
KeptTrips-refl s = KeptTrips-record s.routes s.services s

KeptTrips-trans : (a b c : Schedule) → KeptTrips a b → KeptTrips b c → KeptTrips a c
KeptTrips-trans a b c h k = record {
  rest_kept = Kept-trans a b c h.rest_kept k.rest_kept;
  trips_kept = k.trips_kept ∙ h.trips_kept;
  ids_kept = k.ids_kept ∙ h.ids_kept;
}

read_routes-KeptTrips :
    (trips : List TripRow) (rs : List RouteRow) (s : Schedule)
    → KeptTrips s (read_routes trips rs s)
unfolding read_routes add_route
read_routes-KeptTrips trips [] s = KeptTrips-refl s
read_routes-KeptTrips trips (r ∷ rs) s = elim (Bool-cases (has_trips r.route_id trips)) [
  | inl used ↦
      rw used
        (KeptTrips-trans s _ _ (KeptTrips-record _ s.services s) (read_routes-KeptTrips trips rs _))
  | inr unused ↦ rw unused (read_routes-KeptTrips trips rs s)
]

read_calendar-KeptTrips : (rs : List CalendarRow) (s : Schedule) → KeptTrips s (read_calendar rs s)
unfolding read_calendar add_calendar
read_calendar-KeptTrips [] s = KeptTrips-refl s
read_calendar-KeptTrips (r ∷ rs) s =
    KeptTrips-trans s (add_calendar r.service_id r.days r.start_date r.end_date s) _
      (KeptTrips-record s.routes _ s) (read_calendar-KeptTrips rs _)

read_calendar_dates-KeptTrips :
    (rs : List CalendarDateRow) (s : Schedule) → KeptTrips s (read_calendar_dates rs s)
unfolding read_calendar_dates add_calendar_date
read_calendar_dates-KeptTrips [] s = KeptTrips-refl s
read_calendar_dates-KeptTrips (r ∷ rs) s =
    KeptTrips-trans s (add_calendar_date r.service_id r.service_date r.exception_type s) _
      (KeptTrips-record s.routes _ s) (read_calendar_dates-KeptTrips rs _)

read_stops_lem :
    (rs : List StopRow) (s : Schedule)
    → ((read_stops rs s).version_id ≡ s.version_id)
      × ((read_stops rs s).feed_id ≡ s.feed_id)
      × ((read_stops rs s).trips ≡ s.trips)
      × ((read_stops rs s).stop_ids ≡ s.stop_ids)
      × ((j : String) → get j (read_stops rs s).stops ≡ name_row j rs (get j s.stops))
unfolding read_stops add_stop name_row
read_stops_lem [] s = (refl, refl, refl, refl, λ j. refl)
read_stops_lem (r ∷ rs) s =
    let (v, f, t, i, names) = read_stops_lem rs (add_stop r.stop_id r.name s) in
    (v, f, t, i, λ j. names j ∙ ap (name_row j rs) (get-put r.stop_id j r.name s.stops))

read_trips_lem :
    (rs : List TripRow) (s : Schedule)
    → Kept s (read_trips rs s)
      × ((read_trips rs s).stop_ids ≡ s.stop_ids)
      × ((j : String) → trip (read_trips rs s) j ≡ trip_row j rs (trip s j))
unfolding read_trips add_trip trip trip_row
read_trips_lem [] s = ((KeptTrips-refl s).rest_kept, refl, λ j. refl)
read_trips_lem (r ∷ rs) s =
    let (k, i, found) = read_trips_lem rs (add_trip r.trip_id (trip_of r) s) in
    (
      record { version_kept = k.version_kept; feed_kept = k.feed_kept; stops_kept = k.stops_kept },
      i,
      λ j. found j ∙ ap (trip_row j rs) (get-put r.trip_id j (trip_of r) s.trips),
    )

add_stop_time-Kept : (id : String) (st : StopTime) (s : Schedule) → Kept s (add_stop_time id st s).0
unfolding add_stop_time
add_stop_time-Kept id st s = elim (Option-cases (get id s.trips)) [
  | inl missing ↦ rw (missing, add_stop_time) (KeptTrips-refl s).rest_kept
  | inr (t, there) ↦
      rw (there, add_stop_time)
        (record { version_kept = refl; feed_kept = refl; stops_kept = refl })
]

-- One more call, where it belongs to the trip.
more_calls :
    (cs : List StopTime) (c : StopTime) (j id : String) (o u : Option Trip)
    → (str_eq id j ≡ true → o ≡ u)
    → with_calls cs (
        if str_eq id j
        then elim u [ none ↦ none | some t ↦ some (record t { stops = t.stops ++ c ∷ [] }) ]
        else o)
      ≡ with_calls (if str_eq id j then c ∷ cs else cs) o
more_calls cs c j id o u h = elim (Bool-cases (str_eq id j)) [
  | inr other ↦ rw other refl
  | inl same ↦ rw (same, sym (h same)) (appended o)
]
  where
    appended :
        (o : Option Trip)
        → with_calls cs
            (elim o [ none ↦ none | some t ↦ some (record t { stops = t.stops ++ c ∷ [] }) ])
          ≡ with_calls (c ∷ cs) o
    appended none = refl
    appended (some t) = ap (λ x. some (record t { stops = x })) (append_assoc t.stops (c ∷ []) cs)

no_more : (o : Option Trip) → o ≡ with_calls [] o
no_more none = refl
no_more (some t) = ap (λ x. some (record t { stops = x })) (sym (append-nil t.stops))

read_stop_times_lem :
    (rs : List StopTimeRow) (s : Schedule)
    → IsInterned s
    → Kept s (read_stop_times rs s)
      × ((j : String) → trip (read_stop_times rs s) j ≡ with_calls (calls_of j rs) (trip s j))
unfolding read_stop_times calls_of
read_stop_times_lem [] s h = ((KeptTrips-refl s).rest_kept, λ j. no_more (trip s j))
read_stop_times_lem (r ∷ rs) s h =
    let one = add_stop_time_lem r.trip_id (call_of r) s h in
    let next = (add_stop_time r.trip_id (call_of r) s).0 in
    let (k, found) = read_stop_times_lem rs next one.0 in
    (
      Kept-trans s next _ (add_stop_time-Kept r.trip_id (call_of r) s) k,
      λ j.
          found j
          ∙ ap (with_calls (calls_of j rs)) (one.1 j)
          ∙ more_calls (calls_of j rs) (call_of r) j r.trip_id (trip s j) (trip s r.trip_id)
              (λ e. ap (trip s) (sym ((eq_iff r.trip_id j).0 e))),
    )

new_schedule-IsInterned :
    (version : ℤ) (feed : String) (s : Schedule)
    → s.stop_ids ≡ (new_schedule version feed).stop_ids
    → IsInterned s
unfolding new_schedule get
new_schedule-IsInterned version feed s e = record {
  same = λ id kept h. some_ne_none {a = kept} (sym h ∙ ap (get id) e);
}

-- The schedule that is read back for a feed carries the version, and holds exactly the trips of the
-- stored timetable, each with the calls of its rows, all of them and in the order of the query, and
-- each stop's name.
pub read_schedule_lem :
    (version : ℤ) (feed : String) (t : Timetable)
    → ((read_schedule version feed t).version_id ≡ version)
      × ((read_schedule version feed t).feed_id ≡ feed)
      × ((j : String)
          → trip (read_schedule version feed t) j
            ≡ with_calls (calls_of j t.stop_times) (trip_row j t.trips none))
      × ((j : String) → stop (read_schedule version feed t) j ≡ name_row j t.stops none)
unfolding read_schedule new_schedule trip stop get
read_schedule_lem version feed t =
    let s0 = new_schedule version feed in
    let s1 = read_routes t.trips t.routes s0 in
    let s2 = read_stops t.stops s1 in
    let s3 = read_trips t.trips s2 in
    let s4 = read_stop_times t.stop_times s3 in
    let s5 = read_calendar t.calendar s4 in
    let routed = read_routes-KeptTrips t.trips t.routes s0 in
    let (v2, f2, t2, i2, names) = read_stops_lem t.stops s1 in
    let (k3, i3, trips) = read_trips_lem t.trips s2 in
    let (k4, calls) =
      read_stop_times_lem t.stop_times s3
        (new_schedule-IsInterned version feed s3 (i3 ∙ i2 ∙ routed.ids_kept)) in
    let last =
      KeptTrips-trans s4 s5 _ (read_calendar-KeptTrips t.calendar s4)
        (read_calendar_dates-KeptTrips t.calendar_dates s5) in
    let kept = Kept-trans s2 s4 _ (Kept-trans s2 s3 s4 k3 k4) last.rest_kept in
    (
      kept.version_kept ∙ v2 ∙ routed.rest_kept.version_kept,
      kept.feed_kept ∙ f2 ∙ routed.rest_kept.feed_kept,
      λ j.
          ap (get j) last.trips_kept
          ∙ calls j
          ∙ ap (with_calls (calls_of j t.stop_times))
              (trips j ∙ ap (λ m. trip_row j t.trips (get j m)) (t2 ∙ routed.trips_kept)),
      λ j.
          ap (get j) kept.stops_kept
          ∙ names j
          ∙ ap (λ m. name_row j t.stops (get j m)) routed.rest_kept.stops_kept,
    )
