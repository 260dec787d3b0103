-- ===== src/Examples/Serving.antt =====
-- Tests of the cache and the summaries.
use headway.Base.{ℤ, pos, true, not, List, [], ◌∷◌, Option, none, some, select, ◌≡◌, refl}
use headway.Base.Eq.{string_eq}
use headway.Base.Dict.{get}
use headway.ServiceTime.{Time}
use headway.Ingest.{Observation}
use headway.Cache.{Cache, Snapshot, Trip, or_nil, new_cache, update}
use headway.Cache.Update.{active, firsts, calls_at, trips_on, update_lem}
use headway.Cache.Read.{route}
use headway.Cache.Read.Answers.{IsAnswer, route_lem}
use headway.Api.Now.{Thresholds, median, summarise}
use headway.Api.Now.Counts.{
  is_cancelled, count_trips, in_class, is_early, is_on_time, is_late, is_very_late, active_delays,
  summarise_lem,
}
use headway.Examples.Data.{observation_at}

abbrev now : Time
now = pos 1_700_000_000_000_000_000

abbrev polled : List Observation
polled = observation_at "x" (pos 30) ∷ observation_at "y" (pos 90) ∷ []

abbrev cache : Cache
cache = update "trains" now polled (new_cache (pos 600_000_000_000))

update_lem_example :
    (s : Snapshot) × (get "trains" (update "trains" now polled cache).feeds ≡ some s)
    × (s.feed_ts ≡ now)
    × (or_nil (get "x" s.by_stop) ≡ calls_at "x" (select (active now) polled))
    × (or_nil (get "T1" s.by_route) ≡ trips_on "T1" (firsts (select (active now) polled)))
    × (get "buses" (update "trains" now polled cache).feeds ≡ get "buses" cache.feeds)
update_lem_example = update_lem "trains" now polled cache "x" "T1" "buses" refl

abbrev snapshot : Snapshot
snapshot = record { feed_ts = now; by_route = []; by_stop = []; unchanged = 2 }

abbrev held : Cache
held = record { ttl = pos 600_000_000_000; feeds = ("trains", snapshot) ∷ [] }

route_lem_example : IsAnswer (λ s. s.by_route) cache.ttl now "T1" cache.feeds (route "T1" now cache)
route_lem_example = route_lem "T1" now cache

abbrev thresholds : Thresholds
thresholds = record { early_s = pos 0; late_s = pos 300; very_late_s = pos 900 }

abbrev trip_with : Option ℤ → ℤ → Trip
trip_with delay rel = record {
  feed_id = "trains";
  trip_id = "a";
  route_id = "T1";
  service_date = pos 19675;
  direction_id = none;
  vehicle_id = "";
  trip_rel = rel;
  matched = true;
  next_stop_id = "x";
  next_stop_seq = none;
  delay_s = delay;
  last_update = now;
}

abbrev trips : List Trip
trips =
    trip_with (some (pos 30)) (pos 0)
    ∷ trip_with none (pos 0)
    ∷ trip_with (some (pos 400)) (pos 3)
    ∷ []

summarise_lem_example :
    ((summarise thresholds trips).cancelled ≡ count_trips is_cancelled trips)
    × ((summarise thresholds trips).active_trips
        ≡ count_trips (λ trip. not (is_cancelled trip)) trips)
    × ((summarise thresholds trips).early ≡ count_trips (in_class (is_early thresholds)) trips)
    × ((summarise thresholds trips).on_time ≡ count_trips (in_class (is_on_time thresholds)) trips)
    × ((summarise thresholds trips).late ≡ count_trips (in_class (is_late thresholds)) trips)
    × ((summarise thresholds trips).very_late
        ≡ count_trips (in_class (is_very_late thresholds)) trips)
    × ((summarise thresholds trips).median_delay_s ≡ median (active_delays trips))
summarise_lem_example = summarise_lem thresholds trips (refl, refl)
