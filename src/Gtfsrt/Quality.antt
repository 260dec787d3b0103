-- ===== src/Gtfsrt/Quality.antt =====
-- Which updates come out of a body, and what they are sure to carry.
use headway.Base.{
  String, List, [], ◌∷◌, ◌++◌, map, none, some, select, arith, ◌≡◌, ◌≢◌, refl, All, All-append,
  str_eq, if◌then◌else◌, Bool, ◌&&◌, ◌||◌, not, true, false, Option-cases, Bool-cases, inl, inr,
  append_assoc, append-nil, Option, sym, eq_iff, ◌⊎◌, ◌∙◌, ap,
}
use headway.ServiceTime.{Time}
use headway.Gtfsrt.{RawUpdate}
use headway.Gtfsrt.Decode.{
  Protobuf, Progress, is_none, carries_meaning_without_a_time, fill, decode_stop, decode_stops,
  decode_trip, base, decode_entity, decode_entities, decode_message, start, header_of,
}

append_if {ℓ κ} :
    {A : Type ℓ} {B : Type κ} (c : Bool) (f : A → B) (bs : List B) (a : A) (as' : List A)
    → (if c then bs ++ f a ∷ [] else bs) ++ map f as' ≡ bs ++ map f (if c then a ∷ as' else as')
append_if true f bs a as' = append_assoc bs (f a ∷ []) (map f as')
append_if false f bs a as' = refl

module _ (pb : Protobuf) where
  open pb use {Message, Entity, TripUpdate, StopTimeUpdate}

  -- The stop-time updates worth an observation: they name a stop, and they have a time or a
  -- relationship that means something without one.
  pub is_worthwhile : RawUpdate → StopTimeUpdate → Bool
  is_worthwhile b stu =
      not (is_none (pb.stop_sequence stu) && str_eq (pb.stop_id stu) "")
      && (not (is_none (pb.arrival stu))
          || not (is_none (pb.departure stu))
          || carries_meaning_without_a_time (fill pb b stu))

  updates-decode_stop :
      (b : RawUpdate) (stu : StopTimeUpdate) (p : Progress)
      → (decode_stop pb b stu p).updates
        ≡ (if is_worthwhile b stu then p.updates ++ fill pb b stu ∷ [] else p.updates)
  unfolding decode_stop is_worthwhile
  updates-decode_stop b stu p = ground arith

  updates-decode_stops :
      (b : RawUpdate) (stus : List StopTimeUpdate) (p : Progress)
      → (decode_stops pb b stus p).updates
        ≡ p.updates ++ map (fill pb b) (select (is_worthwhile b) stus)
  unfolding decode_stops
  updates-decode_stops b [] p = sym (append-nil p.updates)
  updates-decode_stops b (stu ∷ stus) p =
      updates-decode_stops b stus (decode_stop pb b stu p)
      ∙ ap (λ us. us ++ map (fill pb b) (select (is_worthwhile b) stus))
          (updates-decode_stop b stu p)
      ∙ append_if (is_worthwhile b stu) (fill pb b) p.updates stu (select (is_worthwhile b) stus)

  -- A trip with no stop-time update is one update of the whole trip.
  pub updates_of_trip : RawUpdate → List StopTimeUpdate → List RawUpdate
  updates_of_trip b [] = record b { trip_level = true } ∷ []
  updates_of_trip b (stu ∷ stus) = map (fill pb b) (select (is_worthwhile b) (stu ∷ stus))

  updates-decode_trip :
      (b : RawUpdate) (stus : List StopTimeUpdate) (p : Progress)
      → (decode_trip pb b stus p).updates ≡ p.updates ++ updates_of_trip b stus
  unfolding decode_trip updates_of_trip
  updates-decode_trip b [] p = refl
  updates-decode_trip b (stu ∷ stus) p = updates-decode_stops b (stu ∷ stus) p

  module _ (feed : String) (header fetched : Time) where
    pub updates_of_entity : Option TripUpdate → Entity → List RawUpdate
    updates_of_entity none e = []
    updates_of_entity (some tu) e =
        if str_eq (pb.trip_id tu) ""
        then []
        else updates_of_trip (base pb feed header fetched e tu) (pb.stop_time_updates tu)

    pub updates_of : List Entity → List RawUpdate
    updates_of [] = []
    updates_of (e ∷ es) = updates_of_entity (pb.trip_update e) e ++ updates_of es

    updates-decode_entity :
        (e : Entity) (p : Progress)
        → (decode_entity pb feed header fetched e p).updates
          ≡ p.updates ++ updates_of_entity (pb.trip_update e) e
    unfolding decode_entity updates_of_entity
    updates-decode_entity e p = elim (Option-cases (pb.trip_update e)) [
      | inl missing ↦ rw (missing, decode_entity, updates_of_entity) (sym (append-nil p.updates))
      | inr (tu, there) ↦
          rw (there, decode_entity, updates_of_entity)
            (ground (
              arith,
              append-nil p.updates,
              updates-decode_trip (base pb feed header fetched e tu) (pb.stop_time_updates tu) p,
            ))
    ]

    updates-decode_entities :
        (es : List Entity) (p : Progress)
        → (decode_entities pb feed header fetched es p).updates ≡ p.updates ++ updates_of es
    unfolding decode_entities updates_of
    updates-decode_entities [] p = sym (append-nil p.updates)
    updates-decode_entities (e ∷ es) p =
        updates-decode_entities es (decode_entity pb feed header fetched e p)
        ∙ ap (λ us. us ++ updates_of es) (updates-decode_entity e p)
        ∙ append_assoc p.updates (updates_of_entity (pb.trip_update e) e) (updates_of es)

  -- The updates of a body are, in the order of the feed, those of each trip update with a trip id:
  -- one for the whole trip where it has no stop-time update, and otherwise one for each stop-time
  -- update that names a stop and has a time or a relationship that means something without one.
  pub decode_message_updates :
      (feed : String) (msg : Message) (fetched : Time)
      → (decode_message pb feed msg fetched).updates
        ≡ updates_of feed (header_of (pb.timestamp msg) fetched) fetched (pb.entity msg)
  unfolding decode_message
  decode_message_updates feed msg fetched =
      updates-decode_entities feed (header_of (pb.timestamp msg) fetched) fetched (pb.entity msg)
        start

  -- What the matcher may rely on: the feed's id and timestamp, a trip id, and a stop unless the update
  -- is of the whole trip.
  pub record IsUsable (feed : String) (header : Time) (u : RawUpdate) : Type 0 where
    pub feed_id : u.feed_id ≡ feed
    pub header_ts : u.header_ts ≡ header
    pub has_trip : u.trip_id ≢ ""
    pub has_stop : (u.trip_level ≡ true) ⊎ (u.stop_sequence ≢ none) ⊎ (u.stop_id ≢ "")

  module _ (feed : String) (header : Time) (b : RawUpdate) where
    abbrev Based : Type 0
    Based = (b.feed_id ≡ feed) × (b.header_ts ≡ header) × (b.trip_id ≢ "")

    fill-IsUsable :
        (stu : StopTimeUpdate)
        → Based
        → is_worthwhile b stu ≡ true
        → IsUsable feed header (fill pb b stu)
    unfolding fill is_worthwhile
    fill-IsUsable stu (hf, hh, ht) w = record {
      feed_id = ground arith;
      header_ts = ground arith;
      has_trip = ground arith;
      has_stop = ground (arith, eq_iff (pb.stop_id stu) "");
    }

    selected-IsUsable :
        (stus : List StopTimeUpdate)
        → Based
        → All (IsUsable feed header) (map (fill pb b) (select (is_worthwhile b) stus))
    selected-IsUsable [] h = tt
    selected-IsUsable (stu ∷ stus) h = elim (Bool-cases (is_worthwhile b stu)) [
      | inl w ↦ rw w (fill-IsUsable stu h w, selected-IsUsable stus h)
      | inr w ↦ rw w (selected-IsUsable stus h)
    ]

    updates_of_trip-IsUsable :
        (stus : List StopTimeUpdate) → Based → All (IsUsable feed header) (updates_of_trip b stus)
    unfolding updates_of_trip
    updates_of_trip-IsUsable [] (hf, hh, ht) =
        (record { feed_id = hf; header_ts = hh; has_trip = ht; has_stop = inl refl }, tt)
    updates_of_trip-IsUsable (stu ∷ stus) h = selected-IsUsable (stu ∷ stus) h

  module _ (feed : String) (header fetched : Time) where
    updates_of_entity-IsUsable :
        (o : Option TripUpdate) (e : Entity)
        → All (IsUsable feed header) (updates_of_entity feed header fetched o e)
    unfolding updates_of_entity base
    updates_of_entity-IsUsable none e = tt
    updates_of_entity-IsUsable (some tu) e = elim (Bool-cases (str_eq (pb.trip_id tu) "")) [
      | inl empty ↦ rw empty tt
      | inr named ↦ rw named (
          updates_of_trip-IsUsable feed header (base pb feed header fetched e tu)
            (pb.stop_time_updates tu)
            (refl, refl, λ same. ground (arith, eq_iff (pb.trip_id tu) "")))
    ]

    updates_of-IsUsable :
        (es : List Entity) → All (IsUsable feed header) (updates_of feed header fetched es)
    unfolding updates_of
    updates_of-IsUsable [] = tt
    updates_of-IsUsable (e ∷ es) =
        All-append (IsUsable feed header)
          (updates_of_entity feed header fetched (pb.trip_update e) e)
          (updates_of feed header fetched es) (updates_of_entity-IsUsable (pb.trip_update e) e)
          (updates_of-IsUsable es)

  -- Every update of a body carries the feed's id and header time, the fetch time where the header has none,
  -- and a trip id, and names a stop by sequence or id unless it is of the whole trip.
  pub decode_message-IsUsable :
      (feed : String) (msg : Message) (fetched : Time)
      → All
          (IsUsable feed (header_of (pb.timestamp msg) fetched))
          (decode_message pb feed msg fetched).updates
  decode_message-IsUsable feed msg fetched =
      rw (decode_message_updates feed msg fetched)
        (updates_of-IsUsable feed (header_of (pb.timestamp msg) fetched) fetched (pb.entity msg))
