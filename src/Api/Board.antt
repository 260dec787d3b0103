-- ===== src/Api/Board.antt =====
-- internal/api/handlers_now.go: the departures of a stop, stopNow. The times are instants, which the source
-- spells in RFC 3339. Where several feeds have a route or a stop of one id, Go's choice is open; here it
-- is the first. The clock is read once.
pub mod Departures
pub mod Listed
pub mod Params
use headway.Base.{
  ℕ, zero, suc, ◌*◌, ℤ, pos, ◌+ℤ◌, scale, eqb_ℤ, ltb_ℤ, leb_ℤ, pos_part, String, str_eq, Bool, true,
  false, not, ◌||◌, ◌&&◌, List, [], ◌∷◌, Option, none, some, ◌⊎◌, inl, inr, if◌then◌else◌, length,
  take,
}
use headway.Base.Eq.{Eq, string_eq}
use headway.Base.Dict.{Dict, get, put}
use headway.Civil.{codes}
use headway.ServiceTime.{Time, Date, Zone, second, at_service_offset}
use headway.Match.Schedule.{StopTime, Trip, Route, Schedule, no_time, trip, stop, route}
use headway.Cache.{Cache, Call}
use headway.Cache.Read.{newest, zero_time}
use headway.Cache.Read.{stop as cached_calls}
use headway.GtfsStatic.Row.{atoi}
use headway.Api.Now.{Thresholds, Status, status}

pub data ApiError : Type 0 where
  invalid_parameter : String → ApiError
  not_ready : ApiError
  stop_not_found : String → ApiError

-- intParam, less the name; `none` is an error.
unfoldable pub int_param : String → ℤ → ℤ → ℤ → Option ℤ
int_param v def lo hi = if str_eq v "" then some def else elim (atoi (codes v)) [
  | none ↦ none
  | some n ↦ if ltb_ℤ n lo || ltb_ℤ hi n then none else some n
]

-- t[sch.FeedID] = sch
unfoldable pub timetable_from : List Schedule → Dict String Schedule → Dict String Schedule
timetable_from [] t = t
timetable_from (s ∷ ss) t = timetable_from ss (put s.feed_id s t)

unfoldable pub timetable : List Schedule → Dict String Schedule
unfolding timetable_from
timetable schedules = timetable_from schedules []

abbrev pub first_of {ℓ} : {A : Type ℓ} → (Schedule → Option A) → Dict String Schedule → Option A
first_of find [] = none
first_of find ((feed, s) ∷ t) = elim (find s) [ some a ↦ some a | none ↦ first_of find t ]

unfoldable pub stop_name : String → Dict String Schedule → Option String
stop_name id t = first_of (λ s. stop s id) t

abbrev pub short_name_of : Option Route → String
short_name_of none = ""
short_name_of (some r) = r.short_name

unfoldable pub short_name : String → Dict String Schedule → String
short_name id t = short_name_of (first_of (λ s. route s id) t)

-- predicted
unfoldable pub predicted : Time → Option ℤ → Option Time
predicted scheduled none = none
predicted scheduled (some delay) = some (scheduled +ℤ scale delay second)

abbrev pub either_time : Time → Option Time → Time
either_time scheduled none = scheduled
either_time scheduled (some p) = p

pub record Departure : Type 0 where
  pub route_id : String
  pub short_name : String
  pub trip_id : String
  pub headsign : String
  pub scheduled : Time
  pub predicted : Option Time
  pub delay_s : Option ℤ
  pub status : Status
  pub stop_time_rel : ℤ
  pub when : Time

pub record Board : Type 0 where
  pub stop_id : String
  pub name : String
  pub as_of : Option Time
  pub departures : List Departure
  pub count : ℕ

-- a.when.Compare(b.when), and at one time the trips' ids: whether `d` may stand before `e`. `text_le` is the
-- order of Go's texts.
module _ (text_le : String → String → Bool) where
  abbrev pub stands_before : Departure → Departure → Bool
  stands_before d e = ltb_ℤ d.when e.when || eqb_ℤ d.when e.when && text_le d.trip_id e.trip_id

  -- slices.SortFunc(deps, …)
  unfoldable pub insert_departure : Departure → List Departure → List Departure
  insert_departure d [] = d ∷ []
  insert_departure d (e ∷ es) =
      let rest = insert_departure d es in if stands_before d e then d ∷ e ∷ es else e ∷ rest

  unfoldable pub sort_departures : List Departure → List Departure
  unfolding insert_departure
  sort_departures [] = []
  sort_departures (d ∷ ds) = insert_departure d (sort_departures ds)

module _ (loc : Zone) (thresholds : Thresholds) where
  -- at: the departure, else the arrival.
  unfoldable pub call_time : StopTime → Date → Option Time
  call_time st d =
      let secs = if eqb_ℤ st.dep_s no_time then st.arr_s else st.dep_s in
      if eqb_ℤ secs no_time then none else some (at_service_offset loc d secs)

  unfoldable pub time_in : ℤ → Date → List StopTime → Option Time
  unfolding call_time
  time_in seq d [] = none
  time_in seq d (st ∷ sts) = if eqb_ℤ st.seq seq then call_time st d else time_in seq d sts

  abbrev pub headsign_and_time : Option ℤ → Date → Option Trip → String × Option Time
  headsign_and_time seq d none = ("", none)
  headsign_and_time none d (some t) = (t.headsign, none)
  headsign_and_time (some n) d (some t) = (t.headsign, time_in n d t.stops)

  abbrev pub trip_in : String → Option Schedule → Option Trip
  trip_in id none = none
  trip_in id (some s) = trip s id

  -- timetable.call
  unfoldable pub call :
      String → String → Option ℤ → Date → Dict String Schedule → String × Option Time
  unfolding time_in
  call feed_id trip_id seq d t = headsign_and_time seq d (trip_in trip_id (get feed_id t))

  abbrev pub departure : Call → Dict String Schedule → String → Time → Departure
  departure c t headsign scheduled = record {
    route_id = c.route_id;
    short_name = short_name c.route_id t;
    trip_id = c.trip_id;
    headsign = headsign;
    scheduled = scheduled;
    predicted = predicted scheduled c.delay_s;
    delay_s = c.delay_s;
    status = status thresholds c.delay_s c.trip_rel;
    stop_time_rel = c.stop_time_rel;
    when = either_time scheduled (predicted scheduled c.delay_s);
  }

  -- A call with no scheduled time has no departure.
  abbrev pub placed : Call → Dict String Schedule → String × Option Time → Option Departure
  placed c t (headsign, none) = none
  placed c t (headsign, some scheduled) = some (departure c t headsign scheduled)

  unfoldable pub departure_of : Call → Dict String Schedule → Option Departure
  unfolding call predicted short_name
  departure_of c t = placed c t (call c.feed_id c.trip_id c.stop_seq c.service_date t)

  -- if when.After(horizon) { continue }
  abbrev pub within : Time → Option Departure → List Departure → List Departure
  within horizon none ds = ds
  within horizon (some d) ds = if ltb_ℤ horizon d.when then ds else d ∷ ds

  -- The loop over the calls.
  unfoldable pub departures_within : Time → Dict String Schedule → List Call → List Departure
  unfolding departure_of
  departures_within horizon t [] = []
  departures_within horizon t (c ∷ cs) =
      let rest = departures_within horizon t cs in within horizon (departure_of c t) rest

  abbrev pub time_or_none : Time → Option Time
  time_or_none t = if eqb_ℤ t zero_time then none else some t

  -- The answer, once the stop has a name.
  abbrev pub board :
      (String → String → Bool)
      → String
      → String
      → Time
      → ℕ
      → Dict String Schedule
      → Time
      → List Call × Time × Bool
      → Cache
      → Board
  board text_le stop_id name horizon limit t now (calls, as_of, found) cache =
      let listed = take limit (sort_departures text_le (departures_within horizon t calls)) in
      record {
        stop_id = stop_id;
        name = name;
        as_of = time_or_none (if found then as_of else newest cache);
        departures = listed;
        count = length listed;
      }

  abbrev pub found_stop :
      (String → String → Bool)
      → String
      → ℤ
      → ℤ
      → Dict String Schedule
      → Time
      → Cache
      → Option String
      → ApiError ⊎ Board
  found_stop text_le stop_id window limit t now cache none = inl (stop_not_found stop_id)
  found_stop text_le stop_id window limit t now cache (some name) = inr (
      board text_le stop_id name (now +ℤ scale window (60 * second)) (pos_part limit) t now
        (cached_calls stop_id now cache) cache)

  abbrev pub with_params :
      (String → String → Bool)
      → String
      → Option ℤ
      → Option ℤ
      → Dict String Schedule
      → Time
      → Cache
      → ApiError ⊎ Board
  with_params text_le stop_id none limit t now cache = inl (invalid_parameter "window_min")
  with_params text_le stop_id (some window) none t now cache = inl (invalid_parameter "limit")
  with_params text_le stop_id (some window) (some limit) [] now cache = inl not_ready
  with_params text_le stop_id (some window) (some limit) (e ∷ t) now cache =
      found_stop text_le stop_id window limit (e ∷ t) now cache (stop_name stop_id (e ∷ t))

  -- stopNow, for the texts of the parameters `window_min` and `limit`.
  unfoldable pub stop_now :
      (String → String → Bool)
      → String
      → String
      → String
      → List Schedule
      → Time
      → Cache
      → ApiError ⊎ Board
  unfolding int_param timetable stop_name sort_departures departures_within
  stop_now text_le stop_id window limit schedules now cache =
      with_params text_le stop_id (int_param window (pos 60) (pos 1) (pos 180))
        (int_param limit (pos 20) (pos 1) (pos 100)) (timetable schedules) now cache
