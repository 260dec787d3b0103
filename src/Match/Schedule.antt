-- ===== src/Match/Schedule.antt =====
-- internal/match/schedule.go: one feed's timetable in memory.
pub mod Calendar
pub mod StopTimes
use headway.Base.{
  ℕ, zero, suc, ◌+◌, ◌%◌, ℤ, pos, negsuc, ◌+ℤ◌, mod_ℤ, leb_ℤ, eqb_ℤ, String, str_eq, Bool, true,
  false, ◌&&◌, List, [], ◌∷◌, ◌++◌, Option, none, some, length, if◌then◌else◌, get_or, set, map,
  ◌==◌, ltb,
}
use headway.Base.Eq.{Eq, string_eq, int_eq}
use headway.Base.Dict.{Dict, get, put}
use headway.ServiceTime.{Date}

-- A stop that the timetable leaves blank has this time.
abbrev pub no_time : ℤ
no_time = negsuc 0

pub record StopTime : Type 0 where
  pub seq : ℤ
  pub stop_id : String
  pub arr_s : ℤ
  pub dep_s : ℤ

pub record Trip : Type 0 where
  pub route_id : String
  pub service_id : String
  pub direction_id : Option ℤ
  pub headsign : String
  pub stops : List StopTime

pub record Route : Type 0 where
  pub short_name : String
  pub long_name : String
  pub route_type : ℤ

-- `start` and `stop` are none, the empty text, when only calendar_dates names the service.
-- `days` has seven entries, Sunday first.
pub record Service : Type 0 where
  pub days : List Bool
  pub start : Option Date
  pub stop : Option Date
  pub added : Dict Date Bool
  pub removed : Dict Date Bool

pub record Schedule : Type 0 where
  pub version_id : ℤ
  pub feed_id : String
  pub trips : Dict String Trip
  pub services : Dict String Service
  pub routes : Dict String Route
  pub stops : Dict String String
  pub stop_ids : Dict String String

unfoldable pub new_schedule : ℤ → String → Schedule
new_schedule version feed = record {
  version_id = version;
  feed_id = feed;
  trips = [];
  services = [];
  routes = [];
  stops = [];
  stop_ids = [];
}

unfoldable pub add_route : String → Route → Schedule → Schedule
add_route id r s = record s { routes = put id r s.routes }

unfoldable pub add_stop : String → String → Schedule → Schedule
add_stop id name s = record s { stops = put id name s.stops }

unfoldable pub route : Schedule → String → Option Route
route s id = get id s.routes

unfoldable pub has_stops : Schedule → Bool
has_stops s = ltb 0 (length s.stops)

unfoldable pub stop : Schedule → String → Option String
stop s id = get id s.stops

unfoldable pub trip : Schedule → String → Option Trip
trip s id = get id s.trips

unfoldable pub trips : Schedule → ℕ
trips s = length s.trips

-- A new trip has the stops that its literal gives, which is none.
unfoldable pub add_trip : String → Trip → Schedule → Schedule
add_trip id t s = record s { trips = put id t s.trips }

-- The one copy of a stop id that the schedule keeps, and the table with it.
unfoldable pub intern : String → Dict String String → String × Dict String String
intern id table = elim (get id table) [ some known ↦ (known, table) | none ↦ (id, put id id table) ]

-- `false` for a trip that was never added.
unfoldable pub add_stop_time : String → StopTime → Schedule → Schedule × Bool
unfolding intern
add_stop_time id st s = elim (get id s.trips) [
  | none ↦ (s, false)
  | some t ↦
      let (kept, table) = intern st.stop_id s.stop_ids in
      (
        record s {
          stop_ids = table;
          trips =
              put id (record t { stops = t.stops ++ record st { stop_id = kept } ∷ [] }) s.trips;
        },
        true,
      )
]

abbrev pub new_service : Service
new_service = record {
  days = false ∷ false ∷ false ∷ false ∷ false ∷ false ∷ false ∷ [];
  start = none;
  stop = none;
  added = [];
  removed = [];
}

-- `s.service(id)`: what is stored, or a new one. The pointer it returns is written back by the callers.
unfoldable pub service : String → Schedule → Service
service id s = elim (get id s.services) [ none ↦ new_service | some svc ↦ svc ]

-- `svc.days[(i+1)%7] = on` over the days from Monday on, from the `i`-th.
unfoldable pub sunday_first : ℕ → List Bool → List Bool → List Bool
sunday_first i [] days = days
sunday_first i (on ∷ rest) days = sunday_first (suc i) rest (set days ((i + 1) % 7) on)

unfoldable pub add_calendar : String → List Bool → Date → Date → Schedule → Schedule
unfolding service sunday_first
add_calendar id monday_first start stop s =
    let svc = service id s in
    record s {
      services =
          put id
            (record svc {
              days = sunday_first 0 monday_first svc.days;
              start = some start;
              stop = some stop;
            })
            s.services;
    }

-- 1 adds the date, and anything else removes it.
unfoldable pub except : ℤ → Date → Service → Service
except exception_type d svc =
    if eqb_ℤ exception_type (pos 1)
    then record svc { added = put d true svc.added }
    else record svc { removed = put d true svc.removed }

unfoldable pub add_calendar_date : String → Date → ℤ → Schedule → Schedule
unfolding service except
add_calendar_date id d exception_type s = record s {
  services = put id (except exception_type d (service id s)) s.services;
}

-- The epoch was a Thursday; Sunday is 0.
unfoldable pub weekday : Date → ℕ
weekday d = mod_ℤ (d +ℤ pos 4) 7

-- m[k] of a map to booleans: false where there is no entry.
abbrev pub holds : Date → Dict Date Bool → Bool
holds d m = elim (get d m) [ none ↦ false | some b ↦ b ]

-- key <= svc.end, where the empty text is before every date
abbrev pub until_stop : Option Date → Date → Bool
until_stop none d = false
until_stop (some stop) d = leb_ℤ d stop

unfoldable pub service_runs_on : Service → Date → Bool
unfolding weekday
service_runs_on svc d =
    if holds d svc.removed then false else if holds d svc.added then true else elim svc.start [
      | none ↦ false
      | some start ↦ leb_ℤ start d && until_stop svc.stop d && get_or svc.days (weekday d) false
    ]

unfoldable pub runs_on : Schedule → String → Date → Bool
unfolding service_runs_on
runs_on s id d = elim (get id s.services) [ none ↦ false | some svc ↦ service_runs_on svc d ]

-- The services that run on `d`, and all services: the two numbers that `ActiveShare` divides.
unfoldable pub active : Schedule → Date → Dict String Service → ℕ
active s d [] = 0
active s d ((id, svc) ∷ m) = if runs_on s id d then suc (active s d m) else active s d m
