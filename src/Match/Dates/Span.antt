-- ===== src/Match/Dates/Span.antt =====
-- The span of a trip bounds the times that its timetable gives.
use headway.Base.{ℤ, ◌≤ℤ◌, eqb_ℤ_iff, List, [], ◌∷◌, arith, ◌≡◌, ◌≢◌, ◌⊎◌, inr, refl, All}
use headway.Match.Schedule.{Trip, StopTime, no_time}
use headway.Match.Dates.{widen, span_from, span}

-- A time of day, or blank.
abbrev pub IsTime : ℤ → Type 0
IsTime v = no_time ≤ℤ v

-- A time lies in a span, if there is a time.
abbrev pub Within : ℤ → ℤ × ℤ → Type 0
Within v acc = (v ≡ no_time) ⊎ ((acc.0 ≤ℤ v) × (v ≤ℤ acc.1) × (acc.0 ≢ no_time))

widen-IsTime :
    (v : ℤ) (acc : ℤ × ℤ)
    → IsTime v
    → IsTime acc.0 × IsTime acc.1
    → IsTime (widen v acc).0 × IsTime (widen v acc).1
widen-IsTime v (first, last) h k = ground arith

widen-Within :
    (v : ℤ) (acc : ℤ × ℤ) → IsTime v → IsTime acc.0 × IsTime acc.1 → Within v (widen v acc)
widen-Within v (first, last) h k = ground (arith, eqb_ℤ_iff v no_time, eqb_ℤ_iff first no_time)

widen_keeps : (w v : ℤ) (acc : ℤ × ℤ) → IsTime v → Within w acc → Within w (widen v acc)
widen_keeps w v (first, last) h k = ground (arith, eqb_ℤ_iff v no_time, eqb_ℤ_iff first no_time)

abbrev pub Timed : StopTime → Type 0
Timed st = IsTime st.arr_s × IsTime st.dep_s

span_from_keeps :
    (w : ℤ) (sts : List StopTime) (acc : ℤ × ℤ)
    → All Timed sts
    → Within w acc
    → Within w (span_from sts acc)
unfolding span_from
span_from_keeps w [] acc h k = k
span_from_keeps w (st ∷ sts) acc (h, hs) k =
    span_from_keeps w sts (widen st.dep_s (widen st.arr_s acc)) hs
      (widen_keeps w st.dep_s (widen st.arr_s acc) h.1 (widen_keeps w st.arr_s acc h.0 k))

-- Both times of every call lie in the span.
abbrev pub Covers : ℤ × ℤ → StopTime → Type 0
Covers acc st = Within st.arr_s acc × Within st.dep_s acc

All-map {ℓ κ κ'} :
    {A : Type ℓ} (P : A → Type κ) (Q : A → Type κ') (xs : List A)
    → ((x : A) → P x → Q x)
    → All P xs
    → All Q xs
All-map P Q [] f h = tt
All-map P Q (x ∷ xs) f h = (f x h.0, All-map P Q xs f h.1)

span_from-Covers :
    (sts : List StopTime) (acc : ℤ × ℤ)
    → All Timed sts
    → IsTime acc.0 × IsTime acc.1
    → All (Covers (span_from sts acc)) sts
unfolding span_from
span_from-Covers [] acc h k = tt
span_from-Covers (st ∷ sts) acc (h, hs) k =
    let one = widen st.arr_s acc in
    let two = widen st.dep_s one in
    let timed = widen-IsTime st.arr_s acc h.0 k in
    (
      (
        span_from_keeps st.arr_s sts two hs
            (widen_keeps st.arr_s st.dep_s one h.1 (widen-Within st.arr_s acc h.0 k)),
        span_from_keeps st.dep_s sts two hs (widen-Within st.dep_s one h.1 timed),
      ),
      span_from-Covers sts two hs (widen-IsTime st.dep_s one h.1 timed),
    )

-- The time stands in one of the calls.
abbrev pub Attained : ℤ → List StopTime → Type 0
Attained v [] = ⊥
Attained v (st ∷ sts) = (v ≡ st.arr_s) ⊎ (v ≡ st.dep_s) ⊎ Attained v sts

-- Each end of a widened span is the time or that end of the old one.
widen_ends :
    (v : ℤ) (acc : ℤ × ℤ)
    → (((widen v acc).0 ≡ v) ⊎ ((widen v acc).0 ≡ acc.0))
      × (((widen v acc).1 ≡ v) ⊎ ((widen v acc).1 ≡ acc.1))
widen_ends v (first, last) = ground arith

span_from-Attained :
    (sts : List StopTime) (acc : ℤ × ℤ)
    → (Attained (span_from sts acc).0 sts ⊎ ((span_from sts acc).0 ≡ acc.0))
      × (Attained (span_from sts acc).1 sts ⊎ ((span_from sts acc).1 ≡ acc.1))
unfolding span_from
span_from-Attained [] acc = (inr refl, inr refl)
span_from-Attained (st ∷ sts) acc = ground (
  arith,
  span_from-Attained sts (widen st.dep_s (widen st.arr_s acc)),
  widen_ends st.arr_s acc,
  widen_ends st.dep_s (widen st.arr_s acc),
)

-- Of a trip whose times are seconds of a day or blank, the span covers both times of every call that
-- are not blank, and each of its ends is one of those times, or blank where the trip has none.
pub span_lem :
    (t : Trip)
    → All Timed t.stops
    → All (Covers (span t)) t.stops
      × (Attained (span t).0 t.stops ⊎ ((span t).0 ≡ no_time))
      × (Attained (span t).1 t.stops ⊎ ((span t).1 ≡ no_time))
unfolding span
span_lem t h =
    let ends = span_from-Attained t.stops (no_time, no_time) in
    (span_from-Covers t.stops (no_time, no_time) h (omega arith), ends.0, ends.1)
