-- ===== src/Api/Now/Counts.antt =====
-- The counts of the summary.
use headway.Base.{
  ℕ, suc, ◌+◌, ℤ, eqb_ℤ, ltb_ℤ, leb_ℤ, Bool, true, false, ◌&&◌, not, List, [], ◌∷◌, ◌++◌, Option,
  none, some, if◌then◌else◌, ◌≡◌, refl, arith, Bool-cases, append-nil, append_assoc, ap, inl, inr,
  ◌∙◌,
}
use headway.Gtfsrt.{trip_canceled}
use headway.Cache.{Trip}
use headway.Api.Now.{
  Thresholds, of_delay, status, Summary, tally, append_delay, with_delay, summarise_from, summarise,
  median, empty_summary,
}

abbrev pub is_cancelled : Trip → Bool
is_cancelled trip = eqb_ℤ trip.trip_rel trip_canceled

abbrev pub or_none : Option ℤ → List ℤ → List ℤ
or_none none ds = ds
or_none (some d) ds = d ∷ ds

-- The delays of the trips that are not cancelled and have one.
abbrev pub active_delays : List Trip → List ℤ
active_delays [] = []
active_delays (trip ∷ trips) =
    let rest = active_delays trips in if is_cancelled trip then rest else or_none trip.delay_s rest

abbrev pub count_trips : (Trip → Bool) → List Trip → ℕ
count_trips p [] = 0
count_trips p (trip ∷ trips) = let rest = count_trips p trips in if p trip then suc rest else rest

abbrev pub has_delay : (ℤ → Bool) → Option ℤ → Bool
has_delay p none = false
has_delay p (some d) = p d

abbrev pub in_class : (ℤ → Bool) → Trip → Bool
in_class p trip = not (is_cancelled trip) && has_delay p trip.delay_s

-- The delays of the four classes.
abbrev pub is_early : Thresholds → ℤ → Bool
is_early t d = ltb_ℤ d t.early_s

abbrev pub is_on_time : Thresholds → ℤ → Bool
is_on_time t d = leb_ℤ t.early_s d && leb_ℤ d t.late_s

abbrev pub is_late : Thresholds → ℤ → Bool
is_late t d = ltb_ℤ t.late_s d && leb_ℤ d t.very_late_s

abbrev pub is_very_late : Thresholds → ℤ → Bool
is_very_late t d = ltb_ℤ t.very_late_s d

-- config.validate requires the thresholds to ascend.
abbrev pub IsAscending : Thresholds → Type 0
IsAscending t = (ltb_ℤ t.early_s t.late_s ≡ true) × (ltb_ℤ t.late_s t.very_late_s ≡ true)

abbrev pub Counted : Thresholds → List Trip → Summary → Summary → Type 0
Counted t trips s r =
    (r.cancelled ≡ s.cancelled + count_trips is_cancelled trips)
    × (r.active_trips ≡ s.active_trips + count_trips (λ trip. not (is_cancelled trip)) trips)
    × (r.early ≡ s.early + count_trips (in_class (is_early t)) trips)
    × (r.on_time ≡ s.on_time + count_trips (in_class (is_on_time t)) trips)
    × (r.late ≡ s.late + count_trips (in_class (is_late t)) trips)
    × (r.very_late ≡ s.very_late + count_trips (in_class (is_very_late t)) trips)

abbrev bit : Bool → ℕ
bit true = 1
bit false = 0

-- One more trip in the counts.
abbrev Tallied : Thresholds → Option ℤ → Bool → Summary → Summary → Type 0
Tallied t delay c s r =
    (r.cancelled ≡ s.cancelled + bit c)
    × (r.active_trips ≡ s.active_trips + bit (not c))
    × (r.early ≡ s.early + bit (not c && has_delay (is_early t) delay))
    × (r.on_time ≡ s.on_time + bit (not c && has_delay (is_on_time t) delay))
    × (r.late ≡ s.late + bit (not c && has_delay (is_late t) delay))
    × (r.very_late ≡ s.very_late + bit (not c && has_delay (is_very_late t) delay))

of_delay-Tallied :
    (t : Thresholds) (delay : Option ℤ) (s : Summary)
    → IsAscending t
    → Tallied t delay false s (tally (of_delay t delay) s)
of_delay-Tallied t none s asc =
    (omega arith, omega arith, omega arith, omega arith, omega arith, omega arith)
of_delay-Tallied t (some d) s asc = elim (Bool-cases (ltb_ℤ d t.early_s)) [
  | inl e ↦ rw e (ground (arith, asc.0, asc.1))
  | inr e ↦ elim (Bool-cases (leb_ℤ d t.late_s)) [
    | inl f ↦ rw (e, f) (ground (arith, asc.0, asc.1))
    | inr f ↦ elim (Bool-cases (leb_ℤ d t.very_late_s)) [
      | inl g ↦ rw (e, f, g) (ground (arith, asc.0, asc.1))
      | inr g ↦ rw (e, f, g) (ground (arith, asc.0, asc.1))
    ]
  ]
]

tally-Tallied :
    (t : Thresholds) (delay : Option ℤ) (rel : ℤ) (s : Summary)
    → IsAscending t
    → Tallied t delay (eqb_ℤ rel trip_canceled) s (tally (status t delay rel) s)
unfolding status
tally-Tallied t delay rel s asc = elim (Bool-cases (eqb_ℤ rel trip_canceled)) [
  | inl e ↦ rw e (omega arith, omega arith, omega arith, omega arith, omega arith, omega arith)
  | inr e ↦ rw e (of_delay-Tallied t delay s asc)
]

if-bit : (b : Bool) (n : ℕ) → (if b then suc n else n) ≡ bit b + n
if-bit b n = ground arith

counts-from :
    (t : Thresholds) (trips : List Trip) (s : Summary) (ds : List ℤ)
    → IsAscending t
    → Counted t trips s (summarise_from t trips s ds).0
unfolding summarise_from
counts-from t [] s ds asc =
    (omega arith, omega arith, omega arith, omega arith, omega arith, omega arith)
counts-from t (trip ∷ trips) s ds asc =
    let st = status t trip.delay_s trip.trip_rel in
    let here = tally-Tallied t trip.delay_s trip.trip_rel s asc in
    let rest = counts-from t trips (tally st s) (with_delay st trip.delay_s ds) asc in
    let more : (Trip → Bool) → Type 0 =
      λ p. count_trips p (trip ∷ trips) ≡ bit (p trip) + count_trips p trips in
    let lem : (p : Trip → Bool) → more p = λ p. if-bit (p trip) (count_trips p trips) in
    (
      omega (arith, rest.0, here.0, lem is_cancelled),
      omega (arith, rest.1, here.1, lem (λ x. not (is_cancelled x))),
      omega (arith, rest.2, here.2, lem (in_class (is_early t))),
      omega (arith, rest.3, here.3, lem (in_class (is_on_time t))),
      omega (arith, rest.4, here.4, lem (in_class (is_late t))),
      omega (arith, rest.5, here.5, lem (in_class (is_very_late t))),
    )

with_delay-of_delay :
    (t : Thresholds) (delay : Option ℤ) (ds : List ℤ)
    → with_delay (of_delay t delay) delay ds ≡ append_delay delay ds
with_delay-of_delay t none ds = refl
with_delay-of_delay t (some d) ds = ground arith

append_delay-append :
    (delay : Option ℤ) (ds rest : List ℤ) → append_delay delay ds ++ rest ≡ ds ++ or_none delay rest
append_delay-append none ds rest = refl
append_delay-append (some d) ds rest = append_assoc ds (d ∷ []) rest

with_delay-append :
    (t : Thresholds) (delay : Option ℤ) (rel : ℤ) (ds rest : List ℤ)
    → with_delay (status t delay rel) delay ds ++ rest
      ≡ ds ++ (if eqb_ℤ rel trip_canceled then rest else or_none delay rest)
unfolding status
with_delay-append t delay rel ds rest = elim (Bool-cases (eqb_ℤ rel trip_canceled)) [
  | inl e ↦ rw e
  | inr e ↦ rw (e, with_delay-of_delay t delay ds) (append_delay-append delay ds rest)
]

delays-from :
    (t : Thresholds) (trips : List Trip) (s : Summary) (ds : List ℤ)
    → (summarise_from t trips s ds).1 ≡ ds ++ active_delays trips
unfolding summarise_from
delays-from t [] s ds = rw (append-nil ds)
delays-from t (trip ∷ trips) s ds =
    let st = status t trip.delay_s trip.trip_rel in
    delays-from t trips (tally st s) (with_delay st trip.delay_s ds)
    ∙ with_delay-append t trip.delay_s trip.trip_rel ds (active_delays trips)

-- If the thresholds ascend, a summary counts the cancelled trips as cancelled and all others as active;
-- of those, as early the ones below the early threshold, as on time the ones from there up to the late
-- threshold, as late the ones above it up to the very late one, and as very late the ones above that.
-- The median is that of the delays of the active trips.
pub summarise_lem :
    (t : Thresholds) (trips : List Trip)
    → IsAscending t
    → ((summarise t trips).cancelled ≡ count_trips is_cancelled trips)
      × ((summarise t trips).active_trips ≡ count_trips (λ trip. not (is_cancelled trip)) trips)
      × ((summarise t trips).early ≡ count_trips (in_class (is_early t)) trips)
      × ((summarise t trips).on_time ≡ count_trips (in_class (is_on_time t)) trips)
      × ((summarise t trips).late ≡ count_trips (in_class (is_late t)) trips)
      × ((summarise t trips).very_late ≡ count_trips (in_class (is_very_late t)) trips)
      × ((summarise t trips).median_delay_s ≡ median (active_delays trips))
unfolding summarise
summarise_lem t trips asc =
    let (a, b, c, d, e, f) = counts-from t trips empty_summary [] asc in
    (
      omega (arith, a),
      omega (arith, b),
      omega (arith, c),
      omega (arith, d),
      omega (arith, e),
      omega (arith, f),
      ap median (delays-from t trips empty_summary []),
    )
