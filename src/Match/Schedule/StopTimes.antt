-- ===== src/Match/Schedule/StopTimes.antt =====
-- Building trips: the table of stop ids saves memory and never changes an id.
use headway.Base.{
  String, str_eq, eq_iff, true, false, [], ◌∷◌, ◌++◌, none, some, if◌then◌else◌, arith, ◌≡◌, refl,
  Option-cases, inl, inr,
}
use headway.Base.Eq.{string_eq}
use headway.Base.Dict.{Dict, get, get-put}
use headway.Match.Schedule.{Schedule, StopTime, trip, intern, add_stop_time}

-- The copy that is kept of a stop id is the id itself.
pub record IsInterned (s : Schedule) : Type 0 where
  pub same : (id kept : String) → get id s.stop_ids ≡ some kept → kept ≡ id

intern_lem :
    (id : String) (table : Dict String String)
    → ((k kept : String) → get k table ≡ some kept → kept ≡ k)
    → ((intern id table).0 ≡ id)
      × ((k kept : String) → get k (intern id table).1 ≡ some kept → kept ≡ k)
unfolding intern
intern_lem id table h = elim (Option-cases (get id table)) [
  | inl new ↦
      rw (new, intern)
        (refl, λ k kept found. ground (arith, get-put id k id table, eq_iff id k, h k kept))
  | inr (known, old) ↦ rw (old, intern) (h id known old, h)
]

-- A call of `AddStopTime` for a trip of the schedule puts the stop at the trip's end just as it was
-- given, changes no other trip, and keeps every copy of a stop id equal to the id. For any other trip
-- it reports false and changes nothing.
pub add_stop_time_lem :
    (id : String) (st : StopTime) (s : Schedule)
    → IsInterned s
    → IsInterned (add_stop_time id st s).0
      × ((j : String)
          → trip (add_stop_time id st s).0 j ≡ (
              if str_eq id j
              then elim (trip s id) [
                | none ↦ none
                | some t ↦ some (record t { stops = t.stops ++ st ∷ [] })
              ]
              else trip s j))
      × ((add_stop_time id st s).1 ≡ elim (trip s id) [ none ↦ false | some t ↦ true ])
      × ((add_stop_time id st s).1 ≡ false → (add_stop_time id st s).0 ≡ s)
unfolding add_stop_time trip
add_stop_time_lem id st s h = elim (Option-cases (get id s.trips)) [
  | inl missing ↦
      rw (missing, add_stop_time, trip) (h, λ j. ground (arith, eq_iff id j), refl, λ e. refl)
  | inr (t, there) ↦
      let (kept, same) = intern_lem st.stop_id s.stop_ids h.same in
      rw (there, add_stop_time, trip)
        (
          record { same = same },
          λ j. ground (
            arith,
            get-put id j
                (record t {
                  stops = t.stops ++ record st { stop_id = (intern st.stop_id s.stop_ids).0 } ∷ [];
                })
                s.trips,
            kept,
          ),
          refl,
          λ e. ground arith,
        )
]
