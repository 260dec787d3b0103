-- ===== src/Ingest/Writer/Columns.antt =====
-- internal/ingest/writer.go: columnsOf, a batch transposed into the sixteen arrays of the statement.
use headway.Base.{
  ℕ, zero, suc, ℤ, int16, String, Bool, List, [], ◌∷◌, Option, none, some, map, str_eq,
  if◌then◌else◌, ◌≡◌, refl, get_elem?, All, IsInt16, int16_id, arith, eq_iff, ◌>>=◌, ◌≢◌, sym,
  subst, some_ne_none, some_injective,
}
use headway.ServiceTime.{Time, Date}
use headway.Ingest.{Observation}

pub record Columns : Type 0 where
  pub service_date : List Date
  pub feed_id : List String
  pub trip_id : List String
  pub stop_id : List String
  pub feed_ts : List Time
  pub stop_sequence : List (Option ℤ)
  pub route_id : List (Option String)
  pub direction_id : List (Option ℤ)
  pub arrival_delay : List (Option ℤ)
  pub departure_delay : List (Option ℤ)
  pub observed_delay : List (Option ℤ)
  pub trip_rel : List ℤ
  pub stop_time_rel : List ℤ
  pub matched : List Bool
  pub vehicle_id : List (Option String)
  pub scheduled_at : List (Option Time)

unfoldable pub nil_if_empty : String → Option String
nil_if_empty s = if str_eq s "" then none else some s

-- The loop fills arrays of the batch's length, so it maps.
unfoldable pub columns_of : List Observation → Columns
unfolding nil_if_empty
columns_of batch = record {
  service_date = map (λ o. o.service_date) batch;
  feed_id = map (λ o. o.feed_id) batch;
  trip_id = map (λ o. o.trip_id) batch;
  stop_id = map (λ o. o.stop_id) batch;
  feed_ts = map (λ o. o.feed_ts) batch;
  stop_sequence = map (λ o. o.stop_sequence) batch;
  route_id = map (λ o. nil_if_empty o.route_id) batch;
  direction_id = map (λ o. o.direction_id) batch;
  arrival_delay = map (λ o. o.arrival_delay_s) batch;
  departure_delay = map (λ o. o.departure_delay_s) batch;
  observed_delay = map (λ o. o.observed_delay_s) batch;
  trip_rel = map (λ o. int16 o.trip_rel) batch;
  stop_time_rel = map (λ o. int16 o.stop_time_rel) batch;
  matched = map (λ o. o.matched) batch;
  vehicle_id = map (λ o. nil_if_empty o.vehicle_id) batch;
  scheduled_at = map (λ o. o.scheduled_at) batch;
}

-- A row of the statement's unnest.
pub record Row : Type 0 where
  pub service_date : Date
  pub feed_id : String
  pub trip_id : String
  pub stop_id : String
  pub feed_ts : Time
  pub stop_sequence : Option ℤ
  pub route_id : Option String
  pub direction_id : Option ℤ
  pub arrival_delay : Option ℤ
  pub departure_delay : Option ℤ
  pub observed_delay : Option ℤ
  pub trip_rel : ℤ
  pub stop_time_rel : ℤ
  pub matched : Bool
  pub vehicle_id : Option String
  pub scheduled_at : Option Time

-- Go's i-th row, where no column is too short.
unfoldable pub row : Columns → ℕ → Option Row
row c i = do
  service_date ← get_elem? c.service_date i
  feed_id ← get_elem? c.feed_id i
  trip_id ← get_elem? c.trip_id i
  stop_id ← get_elem? c.stop_id i
  feed_ts ← get_elem? c.feed_ts i
  stop_sequence ← get_elem? c.stop_sequence i
  route_id ← get_elem? c.route_id i
  direction_id ← get_elem? c.direction_id i
  arrival_delay ← get_elem? c.arrival_delay i
  departure_delay ← get_elem? c.departure_delay i
  observed_delay ← get_elem? c.observed_delay i
  trip_rel ← get_elem? c.trip_rel i
  stop_time_rel ← get_elem? c.stop_time_rel i
  matched ← get_elem? c.matched i
  vehicle_id ← get_elem? c.vehicle_id i
  scheduled_at ← get_elem? c.scheduled_at i
  some (record {
    service_date = service_date;
    feed_id = feed_id;
    trip_id = trip_id;
    stop_id = stop_id;
    feed_ts = feed_ts;
    stop_sequence = stop_sequence;
    route_id = route_id;
    direction_id = direction_id;
    arrival_delay = arrival_delay;
    departure_delay = departure_delay;
    observed_delay = observed_delay;
    trip_rel = trip_rel;
    stop_time_rel = stop_time_rel;
    matched = matched;
    vehicle_id = vehicle_id;
    scheduled_at = scheduled_at;
  })

abbrev pub or_empty : Option String → String
or_empty none = ""
or_empty (some s) = s

-- What a row keeps of an observation.
abbrev pub observation_of : Row → Observation
observation_of r = record {
  service_date = r.service_date;
  feed_id = r.feed_id;
  trip_id = r.trip_id;
  stop_id = r.stop_id;
  feed_ts = r.feed_ts;
  stop_sequence = r.stop_sequence;
  route_id = or_empty r.route_id;
  direction_id = r.direction_id;
  arrival_delay_s = r.arrival_delay;
  departure_delay_s = r.departure_delay;
  observed_delay_s = r.observed_delay;
  trip_rel = r.trip_rel;
  stop_time_rel = r.stop_time_rel;
  matched = r.matched;
  vehicle_id = or_empty r.vehicle_id;
  scheduled_at = r.scheduled_at;
}

or_empty_lem : (s : String) → or_empty (nil_if_empty s) ≡ s
unfolding nil_if_empty
or_empty_lem s = ground (arith, eq_iff s "")

-- The relationships fit smallint.
abbrev pub IsNarrow : Observation → Type 0
IsNarrow o = IsInt16 o.trip_rel × IsInt16 o.stop_time_rel

row_back :
    (batch : List Observation) (i : ℕ)
    → All IsNarrow batch
    → (row (columns_of batch) i >>= λ r. some (observation_of r)) ≡ get_elem? batch i
unfolding columns_of row
row_back [] i h = refl
row_back (o ∷ os) zero h = rw (
  or_empty_lem o.route_id,
  or_empty_lem o.vehicle_id,
  int16_id o.trip_rel h.0.0,
  int16_id o.stop_time_rel h.0.1,
)
row_back (o ∷ os) (suc i) h = row_back os i h.1

never_empty : (s : String) → nil_if_empty s ≢ some ""
unfolding nil_if_empty
never_empty s h = ground (arith, eq_iff s "")

-- No text of a row is empty: it is NULL instead.
abbrev pub HasNoEmptyText : Row → Type 0
HasNoEmptyText r = (r.route_id ≢ some "") × (r.vehicle_id ≢ some "")

row-HasNoEmptyText :
    (batch : List Observation) (i : ℕ) (r : Row)
    → row (columns_of batch) i ≡ some r
    → HasNoEmptyText r
unfolding columns_of row
row-HasNoEmptyText [] i r h = some_ne_none {a = r} (sym h)
row-HasNoEmptyText (o ∷ os) zero r h =
    subst HasNoEmptyText (some_injective h) (never_empty o.route_id, never_empty o.vehicle_id)
row-HasNoEmptyText (o ∷ os) (suc i) r h = row-HasNoEmptyText os i r h

-- The statement loses nothing of a batch whose relationships fit its smallint columns: row i, with NULL
-- read as the empty text, is observation i, and past the batch there is no row. No row has an empty text
-- for the route or the vehicle, so where an observation has one the row has NULL.
pub columns_of-row :
    (batch : List Observation) (i : ℕ)
    → All IsNarrow batch
    → ((row (columns_of batch) i >>= λ r. some (observation_of r)) ≡ get_elem? batch i)
      × ((r : Row) → row (columns_of batch) i ≡ some r → HasNoEmptyText r)
columns_of-row batch i h = (row_back batch i h, row-HasNoEmptyText batch i)
