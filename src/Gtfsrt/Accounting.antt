-- ===== src/Gtfsrt/Accounting.antt =====
-- Every stop-time update of a body is emitted or counted under a reason.
use headway.Base.{
  ℕ, suc, ◌+◌, String, List, [], ◌∷◌, none, some, length, length-append, arith, ◌≡◌, str_eq,
  if◌then◌else◌, true, Option-cases, inl, inr, Option,
}
use headway.ServiceTime.{Time}
use headway.Gtfsrt.{RawUpdate, total, total_dropped}
use headway.Gtfsrt.Decode.{
  Protobuf, Progress, fill, decode_stop, decode_stops, decode_trip, base, decode_entity,
  decode_entities, decode_message, start, header_of,
}

abbrev seen : Progress → ℕ
seen p = length p.updates + total p.dropped

module _ (pb : Protobuf) where
  open pb use {Message, Entity, TripUpdate, StopTimeUpdate}

  -- What one entity is to count for: one for each stop-time update, and one where there is none.
  abbrev at_least_one : ℕ → ℕ
  at_least_one ℕ.zero = 1
  at_least_one (suc n) = suc n

  abbrev pub parts_of_trip : TripUpdate → ℕ
  parts_of_trip tu =
      if str_eq (pb.trip_id tu) "" then 1 else at_least_one (length (pb.stop_time_updates tu))

  abbrev pub parts : Option TripUpdate → ℕ
  parts none = 1
  parts (some tu) = parts_of_trip tu

  abbrev pub parts_of : List Entity → ℕ
  parts_of [] = 0
  parts_of (e ∷ es) = parts (pb.trip_update e) + parts_of es

  seen-decode_stop :
      (b : RawUpdate) (stu : StopTimeUpdate) (p : Progress)
      → seen (decode_stop pb b stu p) ≡ suc (seen p)
  unfolding decode_stop total
  seen-decode_stop b stu p = ground (arith, length-append p.updates (fill pb b stu ∷ []))

  seen-decode_stops :
      (b : RawUpdate) (stus : List StopTimeUpdate) (p : Progress)
      → seen (decode_stops pb b stus p) ≡ length stus + seen p
  unfolding decode_stops
  seen-decode_stops b [] p = omega arith
  seen-decode_stops b (stu ∷ stus) p =
      omega (arith, seen-decode_stops b stus (decode_stop pb b stu p), seen-decode_stop b stu p)

  seen-decode_trip :
      (b : RawUpdate) (stus : List StopTimeUpdate) (p : Progress)
      → seen (decode_trip pb b stus p) ≡ at_least_one (length stus) + seen p
  unfolding decode_trip total
  seen-decode_trip b [] p =
      ground (arith, length-append p.updates (record b { trip_level = true } ∷ []))
  seen-decode_trip b (stu ∷ stus) p = seen-decode_stops b (stu ∷ stus) p

  module _ (feed : String) (header fetched : Time) where
    seen-decode_entity :
        (e : Entity) (p : Progress)
        → seen (decode_entity pb feed header fetched e p) ≡ parts (pb.trip_update e) + seen p
    unfolding decode_entity total
    seen-decode_entity e p = elim (Option-cases (pb.trip_update e)) [
      | inl missing ↦ rw (missing, decode_entity) (omega arith)
      | inr (tu, there) ↦
          rw (there, decode_entity)
            (ground (
              arith,
              seen-decode_trip (base pb feed header fetched e tu) (pb.stop_time_updates tu) p,
            ))
    ]

    seen-decode_entities :
        (es : List Entity) (p : Progress)
        → seen (decode_entities pb feed header fetched es p) ≡ parts_of es + seen p
    unfolding decode_entities
    seen-decode_entities [] p = omega arith
    seen-decode_entities (e ∷ es) p = omega (
      arith,
      seen-decode_entities es (decode_entity pb feed header fetched e p),
      seen-decode_entity e p,
    )

  -- Decoding loses nothing: the updates emitted and those dropped, over all reasons, are together
  -- one for each stop-time update of a trip with an id, and one for each other entity.
  pub decode_message_accounts :
      (feed : String) (msg : Message) (fetched : Time)
      → let d = decode_message pb feed msg fetched in
        length d.updates + total_dropped d ≡ parts_of (pb.entity msg)
  unfolding decode_message total_dropped
  decode_message_accounts feed msg fetched = omega (
    arith,
    seen-decode_entities feed (header_of (pb.timestamp msg) fetched) fetched (pb.entity msg) start,
  )
