-- ===== src/Api/Board/Departures.antt =====
-- What a board lists of the departures of the cache's calls.
use headway.Base.{
  ℕ, zero, suc, ◌+◌, ◌*◌, ℤ, pos, pos_part, ◌+ℤ◌, ◌≤ℤ◌, scale, ltb_ℤ, ltb_ℤ→ge, String, Bool, List,
  [], ◌∷◌, ◌++◌, Option, none, some, ◌⊎◌, inl, inr, if◌then◌else◌, length, take, drop,
  take-append-drop, All, ◌≡◌, refl, sym, ap, ◌∙◌, subst, arith, Bool-cases,
}
use headway.Base.Dict.{Dict}
use headway.ServiceTime.{Time, Zone, second}
use headway.Match.Schedule.{Schedule}
use headway.Cache.{Cache, Call}
use headway.Cache.Read.{stop as cached_calls}
use headway.Api.Now.{Thresholds}
use headway.Api.Board.{
  ApiError, invalid_parameter, not_ready, stop_not_found, timetable, stop_name, Departure, Board,
  stands_before, insert_departure, sort_departures, departure_of, within, departures_within, board,
  found_stop, with_params, stop_now,
}
use headway.Api.Board.Listed.{Listed, departures_within-Listed}
use headway.Api.Board.Params.{Given, Reads, int_param-Reads}

abbrev pub count_of : (Departure → Bool) → List Departure → ℕ
count_of p [] = 0
count_of p (d ∷ ds) = (if p d then 1 else 0) + count_of p ds

abbrev pub Ascending : List Departure → Type 0
Ascending [] = Unit
Ascending (d ∷ ds) = All (λ e. d.when ≤ℤ e.when) ds × Ascending ds

module _ (text_le : String → String → Bool) where
  count_of-insert :
      (p : Departure → Bool) (d : Departure) (ds : List Departure)
      → count_of p (insert_departure text_le d ds) ≡ count_of p (d ∷ ds)
  unfolding insert_departure
  count_of-insert p d [] = refl
  count_of-insert p d (e ∷ es) = ground (arith, count_of-insert p d es)

  count_of-sort :
      (p : Departure → Bool) (ds : List Departure)
      → count_of p (sort_departures text_le ds) ≡ count_of p ds
  unfolding sort_departures
  count_of-sort p [] = refl
  count_of-sort p (d ∷ ds) =
      omega (arith, count_of-insert p d (sort_departures text_le ds), count_of-sort p ds)

  All-insert :
      (P : Departure → Type 0) (d : Departure) (ds : List Departure)
      → P d
      → All P ds
      → All P (insert_departure text_le d ds)
  unfolding insert_departure
  All-insert P d [] h hs = (h, tt)
  All-insert P d (e ∷ es) h hs = elim (Bool-cases (stands_before text_le d e)) [
    | inl before ↦ rw before (h, hs)
    | inr after ↦ rw after (hs.0, All-insert P d es h hs.1)
  ]

  All-sort :
      (P : Departure → Type 0) (ds : List Departure) → All P ds → All P (sort_departures text_le ds)
  unfolding sort_departures
  All-sort P [] h = tt
  All-sort P (d ∷ ds) h = All-insert P d (sort_departures text_le ds) h.0 (All-sort P ds h.1)

  above-All :
      (a b : Time) (ds : List Departure)
      → a ≤ℤ b
      → All (λ e. b ≤ℤ e.when) ds
      → All (λ e. a ≤ℤ e.when) ds
  above-All a b [] h hs = tt
  above-All a b (d ∷ ds) h hs = (omega (arith, h, hs.0), above-All a b ds h hs.1)

  insert-Ascending :
      (d : Departure) (ds : List Departure)
      → Ascending ds
      → Ascending (insert_departure text_le d ds)
  unfolding insert_departure
  insert-Ascending d [] h = (tt, tt)
  insert-Ascending d (e ∷ es) h = elim (Bool-cases (stands_before text_le d e)) [
    | inl before ↦
        let le : d.when ≤ℤ e.when = ground (arith, before) in
        rw before ((le, above-All d.when e.when es le h.0), h)
    | inr after ↦
        let le : e.when ≤ℤ d.when = ground (arith, after) in
        rw after (All-insert (λ x. e.when ≤ℤ x.when) d es le h.0, insert-Ascending d es h.1)
  ]

  sort-Ascending : (ds : List Departure) → Ascending (sort_departures text_le ds)
  unfolding sort_departures
  sort-Ascending [] = tt
  sort-Ascending (d ∷ ds) = insert-Ascending d (sort_departures text_le ds) (sort-Ascending ds)

All-take : (P : Departure → Type 0) (n : ℕ) (ds : List Departure) → All P ds → All P (take n ds)
All-take P zero ds h = tt
All-take P (suc n) [] h = tt
All-take P (suc n) (d ∷ ds) h = (h.0, All-take P n ds h.1)

take-full : (n : ℕ) (ds : List Departure) → (drop n ds ≡ []) ⊎ (length (take n ds) ≡ n)
take-full zero ds = inr refl
take-full (suc n) [] = inl refl
take-full (suc n) (d ∷ ds) = elim (take-full n ds) [
  | inl done ↦ inl done
  | inr full ↦ inr (omega (arith, full))
]

module _ (loc : Zone) (thresholds : Thresholds) where
  within-All :
      (horizon : Time) (o : Option Departure) (ds : List Departure)
      → All (λ d. d.when ≤ℤ horizon) ds
      → All (λ d. d.when ≤ℤ horizon) (within loc thresholds horizon o ds)
  within-All horizon none ds h = h
  within-All horizon (some d) ds h = elim (Bool-cases (ltb_ℤ horizon d.when)) [
    | inl late ↦ rw late h
    | inr soon ↦ rw soon (ltb_ℤ→ge horizon d.when soon, h)
  ]

  departures_within-All :
      (horizon : Time) (t : Dict String Schedule) (cs : List Call)
      → All (λ d. d.when ≤ℤ horizon) (departures_within loc thresholds horizon t cs)
  unfolding departures_within
  departures_within-All horizon t [] = tt
  departures_within-All horizon t (c ∷ cs) =
      within-All horizon (departure_of loc thresholds c t) _ (departures_within-All horizon t cs)

  -- The board lists the first of the departures within the window, in the order of their times, and
  -- `rest` is not listed.
  pub record Lists (horizon : Time) (limit : ℕ) (t : Dict String Schedule) (calls : List Call)
      (b : Board) : Type 0 where
    pub all : List Departure
    pub all_listed : Listed loc thresholds horizon t calls all
    pub rest : List Departure
    pub ascending : Ascending (b.departures ++ rest)
    pub all_there : (p : Departure → Bool) → count_of p (b.departures ++ rest) ≡ count_of p all
    pub full : (rest ≡ []) ⊎ (length b.departures ≡ limit)
    pub soon : All (λ d. d.when ≤ℤ horizon) b.departures
    pub count_eq : b.count ≡ length b.departures

  pub record IsBoard (stop_id window limit : String) (t : Dict String Schedule) (now : Time)
      (cache : Cache) (b : Board) : Type 0 where
    pub minutes : ℤ
    pub most : ℤ
    pub minutes_given : Given window (pos 60) (pos 1) (pos 180) minutes
    pub most_given : Given limit (pos 20) (pos 1) (pos 100) most
    pub named : stop_name stop_id t ≡ some b.name
    pub lists :
        Lists
          (now +ℤ scale minutes (60 * second))
          (pos_part most)
          t
          (cached_calls stop_id now cache).0
          b

  board-Lists :
      (text_le : String → String → Bool) (stop_id name : String) (horizon : Time) (limit : ℕ)
      (t : Dict String Schedule) (now : Time) (cs : List Call × Time × Bool) (cache : Cache)
      → Lists horizon limit t cs.0
          (board loc thresholds text_le stop_id name horizon limit t now cs cache)
  board-Lists text_le stop_id name horizon limit t now cs cache =
      let all = departures_within loc thresholds horizon t cs.0 in
      let sorted = sort_departures text_le all in
      let joined = take-append-drop limit sorted in
      record {
        all = all;
        all_listed = departures_within-Listed loc thresholds horizon t cs.0;
        rest = drop limit sorted;
        ascending = subst Ascending (sym joined) (sort-Ascending text_le all);
        all_there = λ p. ap (count_of p) joined ∙ count_of-sort text_le p all;
        full = take-full limit sorted;
        soon =
            All-take (λ d. d.when ≤ℤ horizon) limit sorted
              (All-sort text_le (λ d. d.when ≤ℤ horizon) all
                (departures_within-All horizon t cs.0));
        count_eq = refl;
      }

  -- Why there is no board.
  pub data Refused (stop_id window limit : String) (t : Dict String Schedule)
      : ApiError → Type 0 where
    bad_window :
        ((n : ℤ) → ¬ Given window (pos 60) (pos 1) (pos 180) n)
        → Refused stop_id window limit t (invalid_parameter "window_min")
    bad_limit :
        ((n : ℤ) → ¬ Given limit (pos 20) (pos 1) (pos 100) n)
        → Refused stop_id window limit t (invalid_parameter "limit")
    nothing_loaded : t ≡ [] → Refused stop_id window limit t not_ready
    no_stop : stop_name stop_id t ≡ none → Refused stop_id window limit t (stop_not_found stop_id)

  abbrev pub IsAnswer :
      String → String → String → Dict String Schedule → Time → Cache → ApiError ⊎ Board → Type 0
  IsAnswer stop_id window limit t now cache (inl e) = Refused stop_id window limit t e
  IsAnswer stop_id window limit t now cache (inr b) = IsBoard stop_id window limit t now cache b

  module _ (text_le : String → String → Bool) (stop_id window limit : String) (now : Time)
      (cache : Cache) where
    found_stop-IsAnswer :
        (t : Dict String Schedule) (minutes most : ℤ) (o : Option String)
        → Given window (pos 60) (pos 1) (pos 180) minutes
        → Given limit (pos 20) (pos 1) (pos 100) most
        → stop_name stop_id t ≡ o
        → IsAnswer stop_id window limit t now cache
            (found_stop loc thresholds text_le stop_id minutes most t now cache o)
    found_stop-IsAnswer t minutes most none hw hl hn = no_stop hn
    found_stop-IsAnswer t minutes most (some name) hw hl hn = record {
      minutes = minutes;
      most = most;
      minutes_given = hw;
      most_given = hl;
      named = hn;
      lists =
          board-Lists text_le stop_id name (now +ℤ scale minutes (60 * second)) (pos_part most) t
            now (cached_calls stop_id now cache) cache;
    }

    with_params-IsAnswer :
        (t : Dict String Schedule) (w l : Option ℤ)
        → Reads window (pos 60) (pos 1) (pos 180) w
        → Reads limit (pos 20) (pos 1) (pos 100) l
        → IsAnswer stop_id window limit t now cache
            (with_params loc thresholds text_le stop_id w l t now cache)
    with_params-IsAnswer t none l hw hl = bad_window hw
    with_params-IsAnswer t (some minutes) none hw hl = bad_limit hl
    with_params-IsAnswer [] (some minutes) (some most) hw hl = nothing_loaded refl
    with_params-IsAnswer (e ∷ t) (some minutes) (some most) hw hl =
        found_stop-IsAnswer (e ∷ t) minutes most (stop_name stop_id (e ∷ t)) hw hl refl

    -- The departures of a stop are refused for a text of a parameter that is no number from 1 to 180, or
    -- to 100, without a timetable, or for a stop that no timetable has. No text stands for 60 minutes, or
    -- 20 departures. Else a call of the cache has a departure if the timetable of its feed has a time for
    -- the first of its trip's calls with its number: at its predicted time where it has a delay, with the
    -- names and the status of its trip. Those departures that are not after the window are all, each
    -- once, in the list of the board or in the rest that it leaves out; they are in the order of their
    -- times, the rest last, and something is left out only if the limit is met.
    pub stop_now_lem :
        (schedules : List Schedule)
        → IsAnswer stop_id window limit
            (timetable schedules)
            now
            cache
            (stop_now loc thresholds text_le stop_id window limit schedules now cache)
    unfolding stop_now
    stop_now_lem schedules =
        with_params-IsAnswer (timetable schedules) _ _
          (int_param-Reads window (pos 60) (pos 1) (pos 180))
          (int_param-Reads limit (pos 20) (pos 1) (pos 100))
