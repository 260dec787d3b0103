-- ===== src/Api/Board/Listed.antt =====
-- Which of the cache's calls have a departure within the window.
use headway.Base.{
  ℤ, ◌+ℤ◌, ◌≤ℤ◌, ◌<ℤ◌, scale, ltb_ℤ, ltb_ℤ→ge, eqb_ℤ, eqb_ℤ_iff, String, List, [], ◌∷◌, Option,
  none, some, ◌⊎◌, ◌≢◌, inl, inr, select, ◌≡◌, refl, sym, ap, ◌∙◌, arith, Bool-cases, Option-cases,
  some_injective, some_ne_none,
}
use headway.Base.Eq.{string_eq}
use headway.Base.Dict.{Dict, get}
use headway.ServiceTime.{Time, Date, Zone, second, at_service_offset}
use headway.Match.Schedule.{StopTime, Trip, Schedule, no_time, trip}
use headway.Cache.{Call}
use headway.Api.Now.{Thresholds, status}
use headway.Api.Board.{
  short_name, call_time, time_in, call, predicted, departure, placed, Departure, within,
  departures_within,
}

-- The first call of a trip with a number.
abbrev pub head : List StopTime → Option StopTime
head [] = none
head (st ∷ sts) = some st

pub numbered : ℤ → List StopTime → Option StopTime
numbered n sts = head (select (λ st. eqb_ℤ st.seq n) sts)

-- A call's seconds after the start of its service day: those of its departure, or for none of its arrival.
abbrev pub Seconds : StopTime → ℤ → Type 0
Seconds st secs =
    (secs ≢ no_time)
    × (((st.dep_s ≢ no_time) × (secs ≡ st.dep_s)) ⊎ ((st.dep_s ≡ no_time) × (secs ≡ st.arr_s)))

module _ (loc : Zone) (thresholds : Thresholds) where
  -- The timetable of the feed has the trip, and a time for the first of its calls with the number.
  pub record IsScheduled (t : Dict String Schedule) (c : Call) (headsign : String)
      (scheduled : Time) : Type 0 where
    pub schedule : Schedule
    pub run : Trip
    pub number : ℤ
    pub st : StopTime
    pub secs : ℤ
    pub loaded : get c.feed_id t ≡ some schedule
    pub of_trip : trip schedule c.trip_id ≡ some run
    pub given : c.stop_seq ≡ some number
    pub first : numbered number run.stops ≡ some st
    pub timed : Seconds st secs
    pub scheduled_eq : scheduled ≡ at_service_offset loc c.service_date secs
    pub headsign_eq : headsign ≡ run.headsign

  call_time_complete :
      (st : StopTime) (d : Date) (secs : ℤ)
      → Seconds st secs
      → call_time loc thresholds st d ≡ some (at_service_offset loc d secs)
  unfolding call_time
  call_time_complete st d secs (ne, inl (there, e)) =
      ground (arith, eqb_ℤ_iff st.dep_s no_time, there, e)
  call_time_complete st d secs (ne, inr (missing, e)) =
      ground (arith, eqb_ℤ_iff st.dep_s no_time, eqb_ℤ_iff st.arr_s no_time, missing, e, ne)

  call_time_sound :
      (st : StopTime) (d : Date) (s : Time)
      → call_time loc thresholds st d ≡ some s
      → (secs : ℤ) × Seconds st secs × (s ≡ at_service_offset loc d secs)
  unfolding call_time
  call_time_sound st d s h = elim (Bool-cases (eqb_ℤ st.dep_s no_time)) [
    | inl e ↦ elim (Bool-cases (eqb_ℤ st.arr_s no_time)) [
      | inl e' ↦ absurd (some_ne_none {a = s} (sym (rw (e, e', call_time) at h)))
      | inr e' ↦ (
        st.arr_s,
        (
          (λ z. ground (arith, eqb_ℤ_iff st.arr_s no_time, e', z)),
          inr ((eqb_ℤ_iff st.dep_s no_time).0 e, refl),
        ),
        sym (some_injective (rw (e, e', call_time) at h)),
      )
    ]
    | inr e ↦
        let given : st.dep_s ≢ no_time = ground (arith, eqb_ℤ_iff st.dep_s no_time, e) in
        (
          st.dep_s,
          (given, inl (given, refl)),
          some_injective (sym h ∙ call_time_complete st d st.dep_s (given, inl (given, refl))),
        )
  ]

  abbrev time_of : Date → Option StopTime → Option Time
  time_of d none = none
  time_of d (some st) = call_time loc thresholds st d

  time_in_lem :
      (seq : ℤ) (d : Date) (sts : List StopTime)
      → time_in loc thresholds seq d sts ≡ time_of d (numbered seq sts)
  unfolding time_in numbered
  time_in_lem seq d [] = refl
  time_in_lem seq d (st ∷ sts) = ground (arith, time_in_lem seq d sts)

  call_sound :
      (t : Dict String Schedule) (c : Call) (headsign : String) (s : Time)
      → call loc thresholds c.feed_id c.trip_id c.stop_seq c.service_date t ≡ (headsign, some s)
      → IsScheduled t c headsign s
  unfolding call
  call_sound t c headsign s h = elim (Option-cases (get c.feed_id t)) [
    | inl e ↦ absurd (some_ne_none {a = s} (sym (ap (λ x. x.1) (rw (e, call) at h))))
    | inr (sch, loaded) ↦ elim (Option-cases (trip sch c.trip_id)) [
      | inl e ↦ absurd (some_ne_none {a = s} (sym (ap (λ x. x.1) (rw (loaded, e, call) at h))))
      | inr (run, of_trip) ↦ elim (Option-cases c.stop_seq) [
        | inl e ↦
            absurd (some_ne_none {a = s} (sym (ap (λ x. x.1) (rw (loaded, of_trip, e, call) at h))))
        | inr (n, given) ↦ elim (Option-cases (numbered n run.stops)) [
          | inl e ↦ absurd (
              some_ne_none {a = s}
                (sym (ap (λ x. x.1) (rw (loaded, of_trip, given, time_in_lem, e, call) at h))))
          | inr (st, first) ↦
              let found = rw (loaded, of_trip, given, time_in_lem, first, call) at h in
              let (secs, timed, e) = call_time_sound st c.service_date s (ap (λ x. x.1) found) in
              record {
                schedule = sch;
                run = run;
                number = n;
                st = st;
                secs = secs;
                loaded = loaded;
                of_trip = of_trip;
                given = given;
                first = first;
                timed = timed;
                scheduled_eq = e;
                headsign_eq = sym (ap (λ x. x.0) found);
              }
        ]
      ]
    ]
  ]

  call_complete :
      (t : Dict String Schedule) (c : Call) (headsign : String) (s : Time)
      → IsScheduled t c headsign s
      → call loc thresholds c.feed_id c.trip_id c.stop_seq c.service_date t ≡ (headsign, some s)
  unfolding call
  call_complete t c headsign s h =
      rw
        (
          h.loaded,
          h.of_trip,
          h.given,
          time_in_lem,
          h.first,
          call_time_complete h.st c.service_date h.secs h.timed,
          h.headsign_eq,
          h.scheduled_eq,
        )
        refl

  -- The departure `d` that a call makes: at its predicted time, if its delay is known.
  pub record IsDeparture (t : Dict String Schedule) (c : Call) (d : Departure) : Type 0 where
    pub at' : IsScheduled t c d.headsign d.scheduled
    pub predicted_eq :
        ((c.delay_s ≡ none) × (d.predicted ≡ none) × (d.when ≡ d.scheduled))
        ⊎ ((delay : ℤ) × (c.delay_s ≡ some delay)
            × (d.predicted ≡ some (d.scheduled +ℤ scale delay second))
            × (d.when ≡ d.scheduled +ℤ scale delay second))
    pub route_eq : d.route_id ≡ c.route_id
    pub name_eq : d.short_name ≡ short_name c.route_id t
    pub trip_eq : d.trip_id ≡ c.trip_id
    pub delay_eq : d.delay_s ≡ c.delay_s
    pub status_eq : d.status ≡ status thresholds c.delay_s c.trip_rel
    pub rel_eq : d.stop_time_rel ≡ c.stop_time_rel

  departure-IsDeparture :
      (t : Dict String Schedule) (c : Call) (headsign : String) (s : Time)
      → IsScheduled t c headsign s
      → IsDeparture t c (departure loc thresholds c t headsign s)
  unfolding predicted
  departure-IsDeparture t c headsign s h = record {
    at' = h;
    predicted_eq = elim (Option-cases c.delay_s) [
      | inl e ↦ rw e (inl (refl, refl, refl))
      | inr (delay, e) ↦ rw e (inr (delay, refl, refl, refl))
    ];
    route_eq = refl;
    name_eq = refl;
    trip_eq = refl;
    delay_eq = refl;
    status_eq = refl;
    rel_eq = refl;
  }

  -- All the departures that a call makes are at the time of the one that the loop makes.
  same_time :
      (t : Dict String Schedule) (c : Call) (headsign : String) (s : Time) (d : Departure)
      → IsScheduled t c headsign s
      → IsDeparture t c d
      → d.when ≡ (departure loc thresholds c t headsign s).when
  unfolding predicted
  same_time t c headsign s d h is =
      let both =
        sym (call_complete t c d.headsign d.scheduled is.at') ∙ call_complete t c headsign s h in
      let at = some_injective (ap (λ x. x.1) both) in
      elim is.predicted_eq [
        | inl (e, p, w) ↦ rw (w, e) at
        | inr (delay, e, p, w) ↦ rw (w, e, at) refl
      ]

  -- The calls whose departures are within the window, in their order, with these.
  pub data Listed (horizon : Time) (t : Dict String Schedule)
      : List Call → List Departure → Type 0 where
    done : Listed horizon t [] []
    listed :
        (c : Call) (cs : List Call) (d : Departure) (ds : List Departure)
        → IsDeparture t c d
        → d.when ≤ℤ horizon
        → Listed horizon t cs ds
        → Listed horizon t (c ∷ cs) (d ∷ ds)
    left_out :
        (c : Call) (cs : List Call) (ds : List Departure)
        → ((d : Departure) → IsDeparture t c d → horizon <ℤ d.when)
        → Listed horizon t cs ds
        → Listed horizon t (c ∷ cs) ds

  placed-Listed :
      (horizon : Time) (t : Dict String Schedule) (c : Call) (cs : List Call) (ds : List Departure)
      (h : String × Option Time)
      → call loc thresholds c.feed_id c.trip_id c.stop_seq c.service_date t ≡ h
      → Listed horizon t cs ds
      → Listed horizon t (c ∷ cs) (within loc thresholds horizon (placed loc thresholds c t h) ds)
  placed-Listed horizon t c cs ds (headsign, none) e more =
      left_out c cs ds
        (λ d is. absurd (
          some_ne_none {a = d.scheduled}
            (ap (λ x. x.1) (sym (call_complete t c d.headsign d.scheduled is.at') ∙ e))))
        more
  placed-Listed horizon t c cs ds (headsign, some s) e more =
      let at = call_sound t c headsign s e in
      let d = departure loc thresholds c t headsign s in
      elim (Bool-cases (ltb_ℤ horizon d.when)) [
        | inl late ↦ rw late (
            left_out c cs ds (λ d' is. ground (arith, same_time t c headsign s d' at is, late))
              more)
        | inr soon ↦ rw soon (
            listed c cs d ds (departure-IsDeparture t c headsign s at)
              (ltb_ℤ→ge horizon d.when soon) more)
      ]

  pub departures_within-Listed :
      (horizon : Time) (t : Dict String Schedule) (cs : List Call)
      → Listed horizon t cs (departures_within loc thresholds horizon t cs)
  unfolding departures_within
  departures_within-Listed horizon t [] = done
  departures_within-Listed horizon t (c ∷ cs) =
      placed-Listed horizon t c cs (departures_within loc thresholds horizon t cs) _ refl
        (departures_within-Listed horizon t cs)
