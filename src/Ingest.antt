-- ===== src/Ingest.antt =====
-- internal/ingest/observation.go: the unit of stored data, and its identity.
pub mod Filter
pub mod Pipeline
pub mod Writer
use headway.Base.{
  ℤ, eqb_ℤ, eqb_ℤ_iff, String, str_eq, eq_iff, Bool, true, ◌&&◌, Option, ◌≡◌, ◌↔◌, arith,
}
use headway.Base.Eq.{Eq}
use headway.ServiceTime.{Time, Date}

-- `none` is a nil pointer: not known, which is not zero.
pub record Observation : Type 0 where
  pub service_date : Date
  pub feed_id : String
  pub trip_id : String
  pub stop_id : String
  pub feed_ts : Time
  pub stop_sequence : Option ℤ
  pub route_id : String
  pub direction_id : Option ℤ
  pub arrival_delay_s : Option ℤ
  pub departure_delay_s : Option ℤ
  pub observed_delay_s : Option ℤ
  pub trip_rel : ℤ
  pub stop_time_rel : ℤ
  pub matched : Bool
  pub vehicle_id : String
  pub scheduled_at : Option Time

-- What is observed, whenever it was observed. The formatted service date is kept as the date: the
-- format is one to one, and orders as the dates do in the years 0 to 9999.
pub record Key : Type 0 where
  pub service_date : Date
  pub feed_id : String
  pub trip_id : String
  pub stop_id : String

unfoldable pub key : Observation → Key
key o = record {
  service_date = o.service_date;
  feed_id = o.feed_id;
  trip_id = o.trip_id;
  stop_id = o.stop_id;
}

unfoldable pub key_beq : Key → Key → Bool
key_beq a b =
    eqb_ℤ a.service_date b.service_date
    && str_eq a.feed_id b.feed_id
    && str_eq a.trip_id b.trip_id
    && str_eq a.stop_id b.stop_id

pub key_beq_iff : (a b : Key) → (key_beq a b ≡ true) ↔ (a ≡ b)
unfolding key_beq
key_beq_iff a b = ground (
  arith,
  eqb_ℤ_iff a.service_date b.service_date,
  eq_iff a.feed_id b.feed_id,
  eq_iff a.trip_id b.trip_id,
  eq_iff a.stop_id b.stop_id,
)

instance abbrev pub key_eq : Eq Key
key_eq = record { beq = key_beq; beq_iff = key_beq_iff }
