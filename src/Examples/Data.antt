-- ===== src/Examples/Data.antt =====
-- The data of the tests: a zone ten hours east of UTC, a body of three entities, a timetable of one trip
-- and its observations.
use headway.Base.{
  ℕ, ℤ, pos, ◌+ℤ◌, ◌-ℤ◌, leb_ℤ, if◌then◌else◌, negsuc, String, Bool, true, false, List, [], ◌∷◌,
  Option, none, some, arith,
}
use headway.ServiceTime.{Zone}
use headway.Gtfsrt.{RawUpdate}
use headway.Gtfsrt.Decode.{Protobuf}
use headway.Match.Schedule.{StopTime, Trip, Schedule, Service}
use headway.Match.Counts.{Options}
use headway.Ingest.{Observation}
use headway.Store.Retry.{Errors}
use headway.Feed.Limiter.{Floats}

abbrev pub east : Zone
east = record { offset = λ t. 36000; offset_le = λ t. omega arith }

pub record Item : Type 0 where
  pub id : String
  pub stop_ids : List String

-- A body is a list of trips with the stops that they name, each with an arrival on time.
abbrev pub plain : Protobuf
plain = record {
  Message = List Item;
  Entity = Item;
  TripUpdate = Item;
  Descriptor = Item;
  StopTimeUpdate = String;
  Event = ℕ;
  unmarshal = λ bytes. some [];
  timestamp = λ msg. 1000;
  entity = λ msg. msg;
  entity_id = λ e. e.id;
  trip_update = λ e. some e;
  trip = λ tu. some tu;
  trip_id = λ tu. tu.id;
  route_id = λ tu. "T1";
  start_date = λ tu. "";
  start_time = λ tu. "";
  direction_id = λ d. none;
  vehicle_id = λ tu. "";
  trip_rel = λ tu. pos 0;
  stop_time_updates = λ tu. tu.stop_ids;
  stop_sequence = λ stu. none;
  stop_id = λ stu. stu;
  stop_time_rel = λ stu. pos 0;
  arrival = λ stu. some 0;
  departure = λ stu. none;
  delay = λ event. some (pos event);
  time = λ event. none;
  uncertainty = λ event. none;
}

abbrev pub body : List Item
body =
    record { id = "a"; stop_ids = "x" ∷ "" ∷ [] }
    ∷ record { id = ""; stop_ids = "x" ∷ [] }
    ∷ record { id = "b"; stop_ids = [] }
    ∷ []

abbrev pub first_call : StopTime
first_call = record { seq = pos 1; stop_id = "x"; arr_s = pos 28800; dep_s = pos 28860 }

abbrev pub last_call : StopTime
last_call = record { seq = pos 2; stop_id = "y"; arr_s = pos 29400; dep_s = negsuc 0 }

abbrev pub trip_a : Trip
trip_a = record {
  route_id = "T1";
  service_id = "weekday";
  direction_id = none;
  headsign = "City";
  stops = first_call ∷ last_call ∷ [];
}

abbrev pub weekday : Service
weekday = record {
  days = false ∷ true ∷ true ∷ true ∷ true ∷ true ∷ false ∷ [];
  start = some (pos 0);
  stop = some (pos 30000);
  added = [];
  removed = [];
}

abbrev pub timetable : Schedule
timetable = record {
  version_id = pos 7;
  feed_id = "trains";
  trips = ("a", trip_a) ∷ [];
  services = ("weekday", weekday) ∷ [];
  routes = [];
  stops = ("x", "X") ∷ ("y", "Y") ∷ [];
  stop_ids = [];
}

abbrev pub options : Options
options = record {
  day_overlap = pos 14_400_000_000_000;
  date_tolerance = pos 7_200_000_000_000;
  reconcile_s = pos 60;
}

abbrev pub update_at : Option ℕ → String → ℤ → RawUpdate
update_at sequence stop delay = record {
  feed_id = "trains";
  header_ts = pos 1_700_000_000_000_000_000;
  fetched_at = pos 1_700_000_001_000_000_000;
  entity_id = "e";
  trip_id = "a";
  route_id = "T1";
  start_date = "";
  start_time = "";
  direction_id = none;
  vehicle_id = "";
  trip_rel = pos 0;
  trip_level = false;
  stop_sequence = sequence;
  stop_id = stop;
  stop_time_rel = pos 0;
  arrival_delay = some delay;
  arrival_time = none;
  departure_delay = none;
  departure_time = none;
  uncertainty = none;
}

abbrev pub updates : List RawUpdate
updates =
    update_at none "x" (pos 30) ∷ update_at none "y" (pos 90) ∷ update_at none "x" (pos 60) ∷ []

abbrev pub observation_at : String → ℤ → Observation
observation_at stop delay = record {
  service_date = pos 19675;
  feed_id = "trains";
  trip_id = "a";
  stop_id = stop;
  feed_ts = pos 1_700_000_000_000_000_000;
  stop_sequence = none;
  route_id = "T1";
  direction_id = none;
  arrival_delay_s = some delay;
  departure_delay_s = none;
  observed_delay_s = some delay;
  trip_rel = pos 0;
  stop_time_rel = pos 0;
  matched = true;
  vehicle_id = "";
  scheduled_at = some (pos 1_700_000_100_000_000_000);
}

-- Errors are retryable or not, and none is the database's own.
abbrev pub simple_errors : Errors
simple_errors = record {
  Error = Bool;
  is_canceled = λ e. false;
  is_deadline_exceeded = λ e. false;
  pg_code = λ e. none;
  safe_to_retry = λ e. e;
  join_context = λ e. false;
}

-- The numbers of a bucket, in thousandths of a token.
abbrev pub milli : Floats
milli = record {
  Float = ℤ;
  zero = pos 0;
  one = pos 1000;
  add = λ x y. x +ℤ y;
  sub = λ x y. x -ℤ y;
  mul = λ x y. x;
  div = λ x y. x;
  neg = λ x. pos 0 -ℤ x;
  min = λ x y. if leb_ℤ x y then x else y;
  max = λ x y. if leb_ℤ x y then y else x;
  ge = λ x y. leb_ℤ y x;
  seconds = λ d. d;
  duration = λ x. x;
}
