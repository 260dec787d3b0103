-- ===== src/Match/Matcher/Outcome.antt =====
-- What `Match` returns: the last word on each key, of what each update has to say.
use headway.Base.{
  ℕ, str_eq, eqb_ℤ, List, [], ◌∷◌, ◌++◌, Option, none, some, if◌then◌else◌, Bool, true, false,
  length, arith, ◌≡◌, refl, sym, ◌∙◌, Option-cases, inl, inr, get_elem?, append_assoc, append-nil,
  map,
}
use headway.ServiceTime.{Date, Zone}
use headway.Gtfsrt.{RawUpdate, trip_canceled}
use headway.Ingest.{Observation, Key, key, key_eq}
use headway.Base.Dict.{get}
use headway.Match.Schedule.{Schedule, Trip, StopTime, no_time}
use headway.Match.Counts.{Counts, Options, zero_counts}
use headway.Match.Dates.{candidates, pick_date, newest}
use headway.Match.Resolve.{resolve_stop, base}
use headway.Match.Matcher.{
  Run, init_run, add, match_unknown, cancel_stops, match_stop, match_known, match_dated,
  match_update, match_updates, match_poll, find_trip, count_unknown_stop, cancelled_stop,
  full_observation, trip_observation,
}
use headway.Match.Matcher.LastWord.{
  IsIndexed, add-IsIndexed, last_word, last_word-append, held, held-add, elem_at,
}

-- The output holds the last word on each key of what was said so far.
pub record Holds (os : List Observation) (r : Run) : Type 0 where
  pub indexed : IsIndexed r
  pub words : (k : Key) → held k r ≡ last_word k os

Holds-count :
    {c : Counts} {os : List Observation} {r : Run} → Holds os r → Holds os (record r { c = c })
Holds-count h = record {
  indexed = record { there = h.indexed.there; back = h.indexed.back };
  words = h.words;
}

Holds-add :
    (o : Observation) {os : List Observation} {r : Run}
    → Holds os r
    → Holds (os ++ o ∷ []) (add o r)
Holds-add o {os} {r} h = record {
  indexed = add-IsIndexed o r h.indexed;
  words = λ k. ground (arith, held-add k o r h.indexed, last_word-append k os o, h.words k);
}

Holds-nothing : {os : List Observation} {r : Run} → Holds os r → Holds (os ++ []) r
Holds-nothing {os} {r} h = rw append-nil h

Holds-if :
    (b : Bool) (os xs ys : List Observation) {r r' : Run}
    → Holds (os ++ xs) r
    → Holds (os ++ ys) r'
    → Holds (os ++ (if b then xs else ys)) (if b then r else r')
Holds-if true os xs ys h k = h
Holds-if false os xs ys h k = k

missing_held : (k : Key) (o : Observation) (r : Run) → get k r.at ≡ none → held k r ≡ some o → ⊥
unfolding elem_at
missing_held k o r missing e = ground arith

module _ {os : List Observation} {r : Run} (h : Holds os r) where
  Holds_placed :
      (i : ℕ) (o : Observation) → get_elem? r.out i ≡ some o → last_word (key o) os ≡ some o
  unfolding elem_at
  Holds_placed i o e = sym (h.words (key o)) ∙ rw (h.indexed.back i o e) e

  Holds_found :
      (k : Key) (o : Observation) → last_word k os ≡ some o → (i : ℕ) × (get_elem? r.out i ≡ some o)
  unfolding elem_at
  Holds_found k o e = elim (Option-cases (get k r.at)) [
    | inl missing ↦ absurd (missing_held k o r missing (h.words k ∙ e))
    | inr (i, there) ↦ (i, rw there at (h.words k ∙ e))
  ]

  Holds_once :
      (i j : ℕ) (o p : Observation)
      → get_elem? r.out i ≡ some o
      → get_elem? r.out j ≡ some p
      → key o ≡ key p
      → i ≡ j
  Holds_once i j o p e f same = ground (arith, h.indexed.back i o e, h.indexed.back j p f)

-- An update of no known trip.
pub said_unknown : List Date → RawUpdate → List Observation
said_unknown cands u =
    if u.trip_level then [] else if str_eq u.stop_id "" then [] else base u (newest cands) ∷ []

Holds-match_unknown :
    (sched : Option Schedule) (cands : List Date) (u : RawUpdate) {os : List Observation} {r : Run}
    → Holds os r
    → Holds (os ++ said_unknown cands u) (match_unknown sched cands u r)
unfolding said_unknown match_unknown
Holds-match_unknown sched cands u h = Holds-if u.trip_level _ _ _ (Holds-nothing (Holds-count h)) (
    Holds-if (str_eq u.stop_id "") _ _ _ (Holds-nothing (Holds-count h))
      (Holds-add _ (Holds-count h)))

module _ (loc : Zone) where
  Holds-cancel_stops :
      (t : Trip) (d : Date) (u : RawUpdate) (sts : List StopTime) {os : List Observation} {r : Run}
      → Holds os r
      → Holds (os ++ map (cancelled_stop loc t d u) sts) (cancel_stops loc t d u sts r)
  unfolding cancel_stops
  Holds-cancel_stops t d u [] h = Holds-nothing h
  Holds-cancel_stops t d u (st ∷ sts) {os} h =
      rw (← append_assoc os (cancelled_stop loc t d u st ∷ []) (map (cancelled_stop loc t d u) sts))
        (Holds-cancel_stops t d u sts (Holds-count (Holds-add (cancelled_stop loc t d u st) h)))

  module _ (opts : Options) where
    -- An update of one stop of a known trip, from the stop that it resolves to.
    pub said_of_stop : Schedule → Trip → List Date → RawUpdate → Option StopTime → List Observation
    said_of_stop s t cands u none =
        if str_eq u.stop_id "" then [] else trip_observation loc opts s t cands u ∷ []
    said_of_stop s t cands u (some st) = (full_observation loc opts s t cands u st).0 ∷ []

    -- An update of a known trip.
    pub said_known : Schedule → Trip → List Date → RawUpdate → List Observation
    said_known s t cands u =
        if u.trip_level
        then (if eqb_ℤ u.trip_rel trip_canceled
            then map (cancelled_stop loc t (pick_date loc opts s t cands u.header_ts no_time) u)
                t.stops
            else [])
        else said_of_stop s t cands u (resolve_stop t u).0

    pub said_dated : List Date → Option (Schedule × Trip) → RawUpdate → List Observation
    said_dated cands none u = said_unknown cands u
    said_dated cands (some (s, t)) u = said_known s t cands u

    pub said_if_dated : Option Schedule → Option (List Date) → RawUpdate → List Observation
    said_if_dated sched none u = []
    said_if_dated sched (some cands) u = said_dated cands (find_trip sched u.trip_id) u

    -- The observations that the updates have to say, in order, duplicates included.
    pub said : Option Schedule → List RawUpdate → List Observation
    said sched [] = []
    said sched (u ∷ us) = said_if_dated sched (candidates loc opts u) u ++ said sched us

    Holds-match_stop :
        (s : Schedule) (t : Trip) (cands : List Date) (u : RawUpdate) (o : Option StopTime)
        (ambiguous : Bool) {os : List Observation} {r : Run}
        → Holds os r
        → Holds
            (os ++ said_of_stop s t cands u o)
            (match_stop loc opts s t cands u (o, ambiguous) r)
    unfolding match_stop said_of_stop
    Holds-match_stop s t cands u none ambiguous h =
        Holds-if (str_eq u.stop_id "") _ _ _ (Holds-nothing (Holds-count h))
          (Holds-add _ (Holds-count h))
    Holds-match_stop s t cands u (some st) ambiguous h = Holds-add _ (Holds-count h)

    Holds-match_known :
        (s : Schedule) (t : Trip) (cands : List Date) (u : RawUpdate) {os : List Observation}
        {r : Run}
        → Holds os r
        → Holds (os ++ said_known s t cands u) (match_known loc opts s t cands u r)
    unfolding match_known said_known
    Holds-match_known s t cands u h =
        let (st, ambiguous) = resolve_stop t u in
        Holds-if u.trip_level _ _ _
          (Holds-if (eqb_ℤ u.trip_rel trip_canceled) _ _ _ (Holds-cancel_stops t _ u t.stops h)
            (Holds-nothing (Holds-count h)))
          (Holds-match_stop s t cands u st ambiguous h)

    Holds-match_dated :
        (sched : Option Schedule) (cs : Option (List Date)) (u : RawUpdate) {os : List Observation}
        {r : Run}
        → Holds os r
        → Holds (os ++ said_if_dated sched cs u) (match_dated loc opts sched cs u r)
    unfolding match_dated said_if_dated said_dated
    Holds-match_dated sched none u h = Holds-nothing (Holds-count h)
    Holds-match_dated sched (some cands) u h = elim (Option-cases (find_trip sched u.trip_id)) [
      | inl missing ↦ rw (missing, match_dated) (Holds-match_unknown sched cands u h)
      | inr ((s, t), there) ↦ rw (there, match_dated) (Holds-match_known s t cands u h)
    ]

    Holds-match_updates :
        (sched : Option Schedule) (us : List RawUpdate) {os : List Observation} {r : Run}
        → Holds os r
        → Holds (os ++ said sched us) (match_updates loc opts sched us r)
    unfolding match_updates match_update said count_unknown_stop
    Holds-match_updates sched [] h = Holds-nothing h
    Holds-match_updates sched (u ∷ us) {os} h =
        rw (← append_assoc os (said_if_dated sched (candidates loc opts u) u) (said sched us)) (
          Holds-match_updates sched us
            (Holds-match_dated sched (candidates loc opts u) u (Holds-count h)))

  Holds-start : (c : Counts) → Holds [] (record init_run { c = c })
  unfolding last_word elem_at get
  Holds-start c = record {
    indexed = record { there = λ k i e. absurd (cc); back = λ i o e. absurd (cc) };
    words = λ k. refl;
  }

  -- The observation at a place of the output is the last word on its key, and each key with a word has
  -- one place.
  pub match_poll-last_word :
      (opts : Options) (sched : Option Schedule) (us : List RawUpdate)
      → let out = (match_poll loc opts sched us).0 in
        ((i : ℕ) (o : Observation)
          → get_elem? out i ≡ some o
          → last_word (key o) (said opts sched us) ≡ some o)
        × ((k : Key) (o : Observation)
            → last_word k (said opts sched us) ≡ some o
            → (i : ℕ) × (get_elem? out i ≡ some o))
        × ((i j : ℕ) (o p : Observation)
            → get_elem? out i ≡ some o
            → get_elem? out j ≡ some p
            → key o ≡ key p
            → i ≡ j)
  unfolding match_poll elem_at
  match_poll-last_word opts sched us =
      let h =
        Holds-match_updates opts sched us
          (Holds-start (record zero_counts { updates = length us })) in
      (Holds_placed h, Holds_found h, Holds_once h)
