-- ===== src/Gtfsrt/Decode.antt =====
-- internal/gtfsrt/decode.go: a feed body flattened to updates. The protobuf library and the
-- generated GTFS-realtime message types are a parameter.
use headway.Base.{
  ℕ, ℤ, pos, scale, eqb_ℤ, int64, String, Bool, true, false, ◌&&◌, ◌||◌, not, List, [], ◌∷◌, ◌++◌,
  Option, none, some, length, if◌then◌else◌, str_eq, ◌==◌,
}
use headway.ServiceTime.{Time, second}
use headway.Gtfsrt.{
  RawUpdate, DropReason, Dropped, DecodedFeed, bump, stop_skipped, stop_no_data, stop_unscheduled,
  trip_canceled, trip_deleted, trip_added, trip_replacement, trip_duplicated,
}

-- What the decoder calls of the protobuf library: `unmarshal` with `AllowPartial`, and the getters,
-- which give the zero value on a missing field or parent. `none` is nil.
pub record Protobuf : Type 1 where
  pub Message : Type 0
  pub Entity : Type 0
  pub TripUpdate : Type 0
  pub Descriptor : Type 0
  pub StopTimeUpdate : Type 0
  pub Event : Type 0
  pub unmarshal : List ℕ → Option Message
  pub timestamp : Message → ℕ
  pub entity : Message → List Entity
  pub entity_id : Entity → String
  pub trip_update : Entity → Option TripUpdate
  pub trip : TripUpdate → Option Descriptor
  pub trip_id : TripUpdate → String
  pub route_id : TripUpdate → String
  pub start_date : TripUpdate → String
  pub start_time : TripUpdate → String
  pub direction_id : Descriptor → Option ℕ
  pub vehicle_id : TripUpdate → String
  pub trip_rel : TripUpdate → ℤ
  pub stop_time_updates : TripUpdate → List StopTimeUpdate
  pub stop_sequence : StopTimeUpdate → Option ℕ
  pub stop_id : StopTimeUpdate → String
  pub stop_time_rel : StopTimeUpdate → ℤ
  pub arrival : StopTimeUpdate → Option Event
  pub departure : StopTimeUpdate → Option Event
  pub delay : Event → Option ℤ
  pub time : Event → Option ℤ
  pub uncertainty : Event → Option ℤ

unfoldable pub carries_meaning_without_a_time : RawUpdate → Bool
carries_meaning_without_a_time u =
    if eqb_ℤ u.stop_time_rel stop_skipped
      || eqb_ℤ u.stop_time_rel stop_no_data
      || eqb_ℤ u.stop_time_rel stop_unscheduled
    then true
    else if eqb_ℤ u.trip_rel trip_canceled
        || eqb_ℤ u.trip_rel trip_deleted
        || eqb_ℤ u.trip_rel trip_added
        || eqb_ℤ u.trip_rel trip_replacement
        || eqb_ℤ u.trip_rel trip_duplicated
    then true
    else false

abbrev pub is_none {ℓ} : {A : Type ℓ} → Option A → Bool
is_none none = true
is_none (some a) = false

-- What the loop has done so far.
pub record Progress : Type 0 where
  pub updates : List RawUpdate
  pub dropped : Dropped

unfoldable pub emit : RawUpdate → Progress → Progress
emit u p = record p { updates = p.updates ++ u ∷ [] }

unfoldable pub drop_update : DropReason → Progress → Progress
unfolding bump
drop_update r p = record p { dropped = bump r p.dropped }

abbrev or_else {ℓ} : {A : Type ℓ} → Option A → Option A → Option A
or_else none b = b
or_else (some a) b = some a

abbrev pub start : Progress
start = record {
  updates = [];
  dropped = record { not_trip_update = 0; no_trip_id = 0; no_stop_anchor = 0; no_time = 0 };
}

-- A zero timestamp is absent, and the header time is then the fetch time.
unfoldable pub header_of : ℕ → Time → Time
header_of ts fetched = if ts == 0 then fetched else scale (int64 ts) second

module _ (pb : Protobuf) where
  open pb use {Message, Entity, TripUpdate, Descriptor, StopTimeUpdate, Event}

  unfoldable pub opt_uint32 : Option Descriptor → (Descriptor → Option ℕ) → Option ℕ
  opt_uint32 none get = none
  opt_uint32 (some t) get = get t

  -- The update as the trip descriptor alone describes it.
  unfoldable pub base : String → Time → Time → Entity → TripUpdate → RawUpdate
  unfolding opt_uint32
  base feed header fetched e tu = record {
    feed_id = feed;
    header_ts = header;
    fetched_at = fetched;
    entity_id = pb.entity_id e;
    trip_id = pb.trip_id tu;
    route_id = pb.route_id tu;
    start_date = pb.start_date tu;
    start_time = pb.start_time tu;
    direction_id = opt_uint32 (pb.trip tu) pb.direction_id;
    vehicle_id = pb.vehicle_id tu;
    trip_rel = pb.trip_rel tu;
    trip_level = false;
    stop_sequence = none;
    stop_id = "";
    stop_time_rel = pos 0;
    arrival_delay = none;
    arrival_time = none;
    departure_delay = none;
    departure_time = none;
    uncertainty = none;
  }

  unfoldable pub with_arrival : Option Event → RawUpdate → RawUpdate
  with_arrival none u = u
  with_arrival (some a) u = record u {
    arrival_delay = pb.delay a;
    arrival_time = pb.time a;
    uncertainty = pb.uncertainty a;
  }

  unfoldable pub with_departure : Option Event → RawUpdate → RawUpdate
  with_departure none u = u
  with_departure (some d) u = record u {
    departure_delay = pb.delay d;
    departure_time = pb.time d;
    uncertainty = or_else u.uncertainty (pb.uncertainty d);
  }

  -- `base` filled in from one stop-time update.
  unfoldable pub fill : RawUpdate → StopTimeUpdate → RawUpdate
  unfolding with_arrival with_departure
  fill b stu = with_departure (pb.departure stu) (
      with_arrival (pb.arrival stu) (record b {
        stop_sequence = pb.stop_sequence stu;
        stop_id = pb.stop_id stu;
        stop_time_rel = pb.stop_time_rel stu;
      }))

  unfoldable pub decode_stop : RawUpdate → StopTimeUpdate → Progress → Progress
  unfolding fill emit drop_update carries_meaning_without_a_time
  decode_stop b stu p =
      let u = fill b stu in
      if is_none u.stop_sequence && str_eq u.stop_id ""
      then drop_update DropReason.no_stop_anchor p
      else if is_none (pb.arrival stu)
          && is_none (pb.departure stu)
          && not (carries_meaning_without_a_time u)
      then drop_update DropReason.no_time p
      else emit u p

  unfoldable pub decode_stops : RawUpdate → List StopTimeUpdate → Progress → Progress
  decode_stops b [] p = p
  decode_stops b (stu ∷ stus) p = decode_stops b stus (decode_stop b stu p)

  -- The body of the trip, once it is known to have an id.
  unfoldable pub decode_trip : RawUpdate → List StopTimeUpdate → Progress → Progress
  unfolding emit
  decode_trip b [] p = emit (record b { trip_level = true }) p
  decode_trip b (stu ∷ stus) p = decode_stops b (stu ∷ stus) p

  unfoldable pub decode_entity : String → Time → Time → Entity → Progress → Progress
  unfolding drop_update base
  decode_entity feed header fetched e p = elim (pb.trip_update e) [
    | none ↦ drop_update DropReason.not_trip_update p
    | some tu ↦
        let b = base feed header fetched e tu in
        if str_eq b.trip_id ""
        then drop_update DropReason.no_trip_id p
        else decode_trip b (pb.stop_time_updates tu) p
  ]

  unfoldable pub decode_entities : String → Time → Time → List Entity → Progress → Progress
  decode_entities feed header fetched [] p = p
  decode_entities feed header fetched (e ∷ es) p =
      decode_entities feed header fetched es (decode_entity feed header fetched e p)

  unfoldable pub decode_message : String → Message → Time → DecodedFeed
  unfolding header_of
  decode_message feed msg fetched =
      let header = header_of (pb.timestamp msg) fetched in
      let p = decode_entities feed header fetched (pb.entity msg) start in
      record {
        feed_id = feed;
        header_ts = header;
        fetched_at = fetched;
        header_ts_missing = pb.timestamp msg == 0;
        updates = p.updates;
        entities = length (pb.entity msg);
        dropped = p.dropped;
      }

  -- `none` is the error of a body that is no message.
  unfoldable pub decode : String → List ℕ → Time → Option DecodedFeed
  decode feed body fetched = elim (pb.unmarshal body) [
    | none ↦ none
    | some msg ↦ some (decode_message feed msg fetched)
  ]
