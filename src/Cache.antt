-- ===== src/Cache.antt =====
-- internal/cache/latest.go: the latest state of the active trips. The lock makes each method one step;
-- the clock is an argument.
pub mod Update
pub mod Read
use headway.Base.{
  ℕ, suc, zero, ◌*◌, ◌-◌, ℤ, pos, negsuc, ◌-ℤ◌, ◌+ℤ◌, scale, eqb_ℤ, ltb_ℤ, String, str_eq, Bool,
  true, false, ◌||◌, ◌&&◌, not, List, [], ◌∷◌, ◌++◌, Option, none, some, if◌then◌else◌, leb,
}
use headway.Base.Eq.{Eq, string_eq}
use headway.Base.Dict.{Dict, get, put, has}
use headway.ServiceTime.{Time, Duration, Date, second}
use headway.Gtfsrt.{trip_scheduled, trip_replacement}
use headway.Ingest.{Observation}

pub record Trip : Type 0 where
  pub feed_id : String
  pub trip_id : String
  pub route_id : String
  pub service_date : Date
  pub direction_id : Option ℤ
  pub vehicle_id : String
  pub trip_rel : ℤ
  pub matched : Bool
  pub next_stop_id : String
  pub next_stop_seq : Option ℤ
  pub delay_s : Option ℤ
  pub last_update : Time

pub record Call : Type 0 where
  pub feed_id : String
  pub trip_id : String
  pub route_id : String
  pub service_date : Date
  pub stop_seq : Option ℤ
  pub delay_s : Option ℤ
  pub stop_time_rel : ℤ
  pub trip_rel : ℤ
  pub matched : Bool

pub record Snapshot : Type 0 where
  pub feed_ts : Time
  pub by_route : Dict String (List Trip)
  pub by_stop : Dict String (List Call)
  pub unchanged : ℕ

pub record Cache : Type 0 where
  pub ttl : Duration
  pub feeds : Dict String Snapshot

unfoldable pub new_cache : Duration → Cache
new_cache ttl = record { ttl = ttl; feeds = [] }

unfoldable pub served_after : Duration
served_after = pos (300 * second)

-- A trip that the feed says runs to the timetable, which does not have it.
unfoldable pub ghost : Observation → Bool
ghost o = not o.matched && (eqb_ℤ o.trip_rel trip_scheduled || eqb_ℤ o.trip_rel trip_replacement)

abbrev pub predicted : Time → Option ℤ → Time
predicted at none = at
predicted at (some delay) = at +ℤ scale delay second

abbrev pub passed : Option Time → Option ℤ → Time → Bool
passed none delay feed_ts = false
passed (some at) delay feed_ts = ltb_ℤ served_after (feed_ts -ℤ predicted at delay)

unfoldable pub served : Observation → Time → Bool
unfolding served_after
served o feed_ts = passed o.scheduled_at o.observed_delay_s feed_ts

-- m[k] = append(m[k], v), where a missing list is nil.
abbrev pub or_nil {ℓ} : {A : Type ℓ} → Option (List A) → List A
or_nil none = []
or_nil (some xs) = xs

unfoldable pub push {ℓ} : {A : Type ℓ} → String → A → Dict String (List A) → Dict String (List A)
push k v m = put k (or_nil (get k m) ++ v ∷ []) m

unfoldable pub call_of : Observation → Call
call_of o = record {
  feed_id = o.feed_id;
  trip_id = o.trip_id;
  route_id = o.route_id;
  service_date = o.service_date;
  stop_seq = o.stop_sequence;
  delay_s = o.observed_delay_s;
  stop_time_rel = o.stop_time_rel;
  trip_rel = o.trip_rel;
  matched = o.matched;
}

unfoldable pub trip_of : Observation → Trip
trip_of o = record {
  feed_id = o.feed_id;
  trip_id = o.trip_id;
  route_id = o.route_id;
  service_date = o.service_date;
  direction_id = o.direction_id;
  vehicle_id = o.vehicle_id;
  trip_rel = o.trip_rel;
  matched = o.matched;
  next_stop_id = o.stop_id;
  next_stop_seq = o.stop_sequence;
  delay_s = o.observed_delay_s;
  last_update = o.feed_ts;
}

-- The key of a trip: the formatted service date, as for Ingest's keys, and the trip.
abbrev pub same_trip : Observation → Observation → Bool
same_trip a b = eqb_ℤ a.service_date b.service_date && str_eq a.trip_id b.trip_id

-- `seen`, as the observations whose trips it holds.
abbrev pub is_seen : Observation → List Observation → Bool
is_seen o [] = false
is_seen o (s ∷ ss) = same_trip s o || is_seen o ss

-- What the loop of Update builds.
pub record Building : Type 0 where
  pub by_route : Dict String (List Trip)
  pub by_stop : Dict String (List Call)
  pub seen : List Observation

unfoldable pub add_trip : Observation → Building → Building
unfolding push trip_of
add_trip o b =
    if is_seen o b.seen
    then b
    else record b { seen = o ∷ b.seen; by_route = push o.route_id (trip_of o) b.by_route }

unfoldable pub add_observation : Time → Observation → Building → Building
unfolding served ghost push call_of add_trip
add_observation feed_ts o b =
    if served o feed_ts || ghost o
    then b
    else add_trip o (record b { by_stop = push o.stop_id (call_of o) b.by_stop })

unfoldable pub build : Time → List Observation → Building → Building
unfolding add_observation
build feed_ts [] b = b
build feed_ts (o ∷ os) b = build feed_ts os (add_observation feed_ts o b)

-- The unchanged polls before this one, and this one if its timestamp is not after the last.
abbrev pub unchanged_after : Option Snapshot → Time → ℕ
unchanged_after none feed_ts = 0
unchanged_after (some prev) feed_ts = if ltb_ℤ prev.feed_ts feed_ts then 0 else suc prev.unchanged

unfoldable pub update : String → Time → List Observation → Cache → Cache
unfolding build
update feed_id feed_ts obs c =
    let b = build feed_ts obs (record { by_route = []; by_stop = []; seen = [] }) in
    record c {
      feeds =
          put feed_id
            (record {
              feed_ts = feed_ts;
              by_route = b.by_route;
              by_stop = b.by_stop;
              unchanged = unchanged_after (get feed_id c.feeds) feed_ts;
            })
            c.feeds;
    }

unfoldable pub stale : String → ℕ → Cache → Bool
stale feed_id polls c = elim (get feed_id c.feeds) [ none ↦ false | some s ↦ leb polls s.unchanged ]
