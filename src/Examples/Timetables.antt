-- ===== src/Examples/Timetables.antt =====
-- Tests of the timetable files: stop times as text, a bundle of one trip, and one that replaces another.
use headway.Base.{
  ℕ, zero, suc, int64, ◌≤◌, pos, String, str_eq, true, List, [], ◌∷◌, Option, none, some,
  if◌then◌else◌, ◌⊎◌, inl, inr, ◌≡◌, ◌↔◌, refl, arith,
}
use headway.Base.Eq.{string_eq}
use headway.Base.Dict.{Dict, get, put}
use headway.ServiceTime.{Time}
use headway.GtfsStatic.Row.{str, need, int, stop_time, atoi, opt_int, null, float}
use headway.GtfsStatic.Tables.{
  Value, File, stop_times, convert, convert_stop_time, convert_route, convert_stop, convert_trip,
}
use headway.GtfsStatic.Bundle.{
  BundleError, Values, read_rows, index_from, load_tables, count_of, load_bundle,
}
use headway.GtfsStatic.Bundle.Records.{IsRows, FirstBad, read_rows_lem}
use headway.GtfsStatic.Bundle.Accepted.{Accepted, load_bundle_lem}
use headway.GtfsStatic.Versions.{Version, Versions, Circumstances, load}
use headway.GtfsStatic.Versions.Active.{actives}
use headway.GtfsStatic.Versions.Loads.{IsValid, Promised, load_lem}
use headway.ServiceTime.Clock.{value_from}

abbrev whole : String → Option ℕ
whole s = if str_eq s "-34" then some 34 else none

abbrev stop_time_header : Dict String ℕ
stop_time_header =
    ("trip_id", 0)
    ∷ ("stop_id", 1)
    ∷ ("stop_sequence", 2)
    ∷ ("arrival_time", 3)
    ∷ ("departure_time", 4)
    ∷ []

abbrev after_midnight : List String
after_midnight = "a" ∷ "x" ∷ "12" ∷ "24:10:30" ∷ "" ∷ []

-- The second record has a time that is none.
abbrev records : List (Option (List String))
records = some after_midnight ∷ some ("a" ∷ "y" ∷ "13" ∷ "soon" ∷ "" ∷ []) ∷ []

read_rows_lem_example :
    ((rows : List (List (Value ℕ)))
      → (read_rows ℕ whole (pos 172_800) (pos 7) stop_times stop_time_header 1 records ≡ inr rows)
        ↔ IsRows ℕ whole (pos 172_800) (pos 7) stop_times stop_time_header records rows)
    × ((e : BundleError)
        → (read_rows ℕ whole (pos 172_800) (pos 7) stop_times stop_time_header 1 records ≡ inl e)
          ↔ FirstBad ℕ whole (pos 172_800) (pos 7) stop_times stop_time_header 1 records e)
read_rows_lem_example =
    read_rows_lem ℕ whole (pos 172_800) (pos 7) stop_times stop_time_header 1 records

-- A file of the bundle is one byte, which stands for its records.
abbrev csv : List ℕ → List (Option (List String))
csv [] = []
csv (zero ∷ s) = some ("route_id" ∷ "route_type" ∷ []) ∷ some ("T1" ∷ "2" ∷ []) ∷ []
csv (suc zero ∷ s) = some ("stop_id" ∷ "stop_name" ∷ []) ∷ some ("x" ∷ "X" ∷ []) ∷ []
csv (suc (suc zero) ∷ s) =
    some ("trip_id" ∷ "route_id" ∷ "service_id" ∷ []) ∷ some ("a" ∷ "T1" ∷ "weekday" ∷ []) ∷ []
csv (suc (suc (suc zero)) ∷ s) =
    some ("trip_id" ∷ "stop_id" ∷ "stop_sequence" ∷ []) ∷ some ("a" ∷ "x" ∷ "1" ∷ []) ∷ []
csv (suc (suc (suc (suc b))) ∷ s) = some ("service_id" ∷ "date" ∷ "exception_type" ∷ []) ∷ []

abbrev files : Dict String (List ℕ)
files =
    ("routes.txt", 0 ∷ [])
    ∷ ("stops.txt", 1 ∷ [])
    ∷ ("trips.txt", 2 ∷ [])
    ∷ ("stop_times.txt", 3 ∷ [])
    ∷ ("calendar_dates.txt", 4 ∷ [])
    ∷ []

abbrev loaded_of :
    BundleError ⊎ List (File × Values ℕ whole (pos 172_800) (pos 7))
    → List (File × Values ℕ whole (pos 172_800) (pos 7))
loaded_of (inl e) = []
loaded_of (inr loaded) = loaded

abbrev loaded : List (File × Values ℕ whole (pos 172_800) (pos 7))
loaded = loaded_of (load_bundle ℕ whole (pos 172_800) (pos 7) csv (λ t. true) files)

load_bundle_lem_example : Accepted ℕ whole (pos 172_800) (pos 7) csv (λ t. true) files loaded
unfolding load_bundle load_tables count_of read_rows index_from convert convert_route convert_stop
    convert_trip convert_stop_time need null int opt_int float stop_time str atoi get put value_from
    int64
load_bundle_lem_example =
    load_bundle_lem ℕ whole (pos 172_800) (pos 7) csv (λ t. true) files loaded refl

abbrev pub old : Version
old = record {
  id = 1;
  feed_id = "trains";
  sha = "aa";
  is_active = true;
  trip_count = 1;
  stop_time_count = 1;
}

abbrev pub versions : Versions
versions = record { rows = old ∷ []; next_id = 2 }

old_alone : (feed : String) → actives feed versions.rows ≤ 1
unfolding actives
old_alone feed = ground arith

pub versions-IsValid : IsValid versions
versions-IsValid = record { ordered = (tt, tt); below = (omega arith, tt); one = old_alone }

abbrev pub download : Circumstances
download = record {
  waits = true;
  downloads = true;
  sha = "bb";
  content = inr (3, 40);
  looks_up = true;
  inserts = true;
  activates = true;
  prunes = true;
}

load_lem_example : Promised "trains" "bb" versions (load download 2 "trains" versions)
load_lem_example = load_lem download 2 "trains" versions versions-IsValid

abbrev now : Time
now = pos 1_700_000_000_000_000_000
