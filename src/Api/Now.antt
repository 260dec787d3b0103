-- ===== src/Api/Now.antt =====
-- internal/api/handlers_now.go: the status of a call and the summary of a route.
pub mod Median
pub mod Counts
use headway.Base.{
  ℕ, suc, zero, ◌-◌, ◌/◌, ℤ, pos, eqb_ℤ, ltb_ℤ, leb_ℤ, Bool, true, false, List, [], ◌∷◌, ◌++◌,
  Option, none, some, length, get_elem?, if◌then◌else◌,
}
use headway.Gtfsrt.{trip_canceled}
use headway.Cache.{Trip}

-- config.Thresholds
pub record Thresholds : Type 0 where
  pub early_s : ℤ
  pub late_s : ℤ
  pub very_late_s : ℤ

-- The texts of the field `status`.
pub data Status : Type 0 where
  cancelled : Status
  unknown : Status
  early : Status
  on_time : Status
  late : Status
  very_late : Status

abbrev pub of_delay : Thresholds → Option ℤ → Status
of_delay t none = unknown
of_delay t (some delay) =
    if ltb_ℤ delay t.early_s
    then early
    else if leb_ℤ delay t.late_s
    then on_time
    else if leb_ℤ delay t.very_late_s
    then late
    else very_late

unfoldable pub status : Thresholds → Option ℤ → ℤ → Status
status t delay trip_rel = if eqb_ℤ trip_rel trip_canceled then cancelled else of_delay t delay

-- nowSummary
pub record Summary : Type 0 where
  pub active_trips : ℕ
  pub early : ℕ
  pub on_time : ℕ
  pub late : ℕ
  pub very_late : ℕ
  pub cancelled : ℕ
  pub median_delay_s : Option ℤ

-- slices.Sort
unfoldable pub insert_delay : ℤ → List ℤ → List ℤ
insert_delay d [] = d ∷ []
insert_delay d (e ∷ es) = let rest = insert_delay d es in if leb_ℤ d e then d ∷ e ∷ es else e ∷ rest

unfoldable pub sort_delays : List ℤ → List ℤ
unfolding insert_delay
sort_delays [] = []
sort_delays (d ∷ ds) = insert_delay d (sort_delays ds)

abbrev pub append_delay : Option ℤ → List ℤ → List ℤ
append_delay none ds = ds
append_delay (some d) ds = ds ++ d ∷ []

-- An active trip, in its class.
abbrev pub tally : Status → Summary → Summary
tally Status.cancelled s = record s { cancelled = suc s.cancelled }
tally Status.unknown s = record s { active_trips = suc s.active_trips }
tally Status.early s = record s { active_trips = suc s.active_trips; early = suc s.early }
tally Status.on_time s = record s { active_trips = suc s.active_trips; on_time = suc s.on_time }
tally Status.late s = record s { active_trips = suc s.active_trips; late = suc s.late }
tally Status.very_late s = record s {
  active_trips = suc s.active_trips;
  very_late = suc s.very_late;
}

abbrev pub with_delay : Status → Option ℤ → List ℤ → List ℤ
with_delay Status.cancelled d ds = ds
with_delay Status.unknown d ds = append_delay d ds
with_delay Status.early d ds = append_delay d ds
with_delay Status.on_time d ds = append_delay d ds
with_delay Status.late d ds = append_delay d ds
with_delay Status.very_late d ds = append_delay d ds

-- The loop over the trips, with the summary and the delays so far.
unfoldable pub summarise_from : Thresholds → List Trip → Summary → List ℤ → Summary × List ℤ
unfolding status
summarise_from t [] s ds = (s, ds)
summarise_from t (trip ∷ trips) s ds =
    let st = status t trip.delay_s trip.trip_rel in
    summarise_from t trips (tally st s) (with_delay st trip.delay_s ds)

-- The lower middle.
unfoldable pub median : List ℤ → Option ℤ
unfolding sort_delays
median [] = none
median (d ∷ ds) = get_elem? (sort_delays (d ∷ ds)) ((length (sort_delays (d ∷ ds)) - 1) / 2)

abbrev pub empty_summary : Summary
empty_summary = record {
  active_trips = 0;
  early = 0;
  on_time = 0;
  late = 0;
  very_late = 0;
  cancelled = 0;
  median_delay_s = none;
}

unfoldable pub summarise : Thresholds → List Trip → Summary
unfolding summarise_from median
summarise t trips =
    let (s, ds) = summarise_from t trips empty_summary [] in record s { median_delay_s = median ds }
