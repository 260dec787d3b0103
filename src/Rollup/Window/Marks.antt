-- ===== src/Rollup/Window/Marks.antt =====
-- The watermark: how far a rollup moves it, and where its window begins.
use headway.Base.{
  ◌-ℤ◌, ◌≤ℤ◌, ◌<ℤ◌, div_ℤ_bounds, ltb_ℤ, eqb_ℤ, eqb_ℤ_iff, ltb_ℤ→lt, true, false, List, [], ◌∷◌,
  Option, none, some, inl, inr, ◌≡◌, ◌≢◌, refl, sym, ◌∙◌, subst, arith, Bool-cases, Option-cases,
  some_injective, some_ne_none, true_ne_false,
}
use headway.ServiceTime.{Time, Duration, Zone, hour}
use headway.Rollup.Partitions.{Row, Tables, bucket_ts}
use headway.Rollup.Window.{
  hour_of, sentinel, observations, earlier, first_seen, window_start, window_end, Result,
  roll_window, roll_from, rollup,
}
use headway.Rollup.Window.Words.{In}

pub hour_of-le : (t : Time) → hour_of t ≤ℤ t
unfolding hour_of
hour_of-le t = (div_ℤ_bounds t hour (omega arith)).0

-- Nothing was observed before the first hour.
earlier-le :
    (r : Row) (o : Option Time) (t : Time)
    → earlier r o ≡ some t
    → (t ≤ℤ bucket_ts r) × ((u : Time) → o ≡ some u → t ≤ℤ u)
earlier-le r none t h = (ground (arith, h), λ u e. some_ne_none {a = u} (sym e))
earlier-le r (some u) t h = (ground (arith, h), λ w e. ground (arith, h, e))

earlier-ne-none : (r : Row) (o : Option Time) → earlier r o ≢ none
earlier-ne-none r none h = some_ne_none {a = bucket_ts r} h
earlier-ne-none r (some u) h = cc

first_seen-none : (rows : List Row) → first_seen rows ≡ none → (q : Row) → In q rows → ⊥
unfolding first_seen
first_seen-none [] h q i = i
first_seen-none (r ∷ rows) h q i = earlier-ne-none r (first_seen rows) h

first_seen-le :
    (rows : List Row) (t : Time)
    → first_seen rows ≡ some t
    → (q : Row) → In q rows
    → t ≤ℤ bucket_ts q
unfolding first_seen
first_seen-le [] t h q i = absurd i
first_seen-le (r ∷ rows) t h q i = elim i [
  | inl e ↦ rw e (earlier-le r (first_seen rows) t h).0
  | inr deeper ↦ elim (Option-cases (first_seen rows)) [
    | inl nothing ↦ absurd (first_seen-none rows nothing q deeper)
    | inr (u, e) ↦
        omega (arith, (earlier-le r (first_seen rows) t h).1 u e, first_seen-le rows u e q deeper)
  ]
]

-- The window begins at the watermark, or before everything that was observed.
pub Begins : Tables → Time → Type 0
Begins db from =
    (db.watermark ≢ sentinel → from ≡ db.watermark)
    × (db.watermark ≡ sentinel → (q : Row) → In q (observations db) → from ≤ℤ bucket_ts q)

window_start-Begins : (db : Tables) (from : Time) → window_start db ≡ some from → Begins db from
unfolding window_start Begins
window_start-Begins db from h = elim (Bool-cases (eqb_ℤ db.watermark sentinel)) [
  | inr moved ↦ (
    λ n. sym (some_injective (rw moved at h)),
    λ e. true_ne_false (sym ((eqb_ℤ_iff db.watermark sentinel).1 e) ∙ moved),
  )
  | inl never ↦ elim (Option-cases (first_seen (observations db))) [
    | inl nothing ↦ some_ne_none {a = from} (sym (rw (never, nothing) at h))
    | inr (t, e) ↦
        let it : hour_of t ≡ from = some_injective (rw (never, e) at h) in
        (
          λ n. absurd (n ((eqb_ℤ_iff db.watermark sentinel).0 never)),
          λ s q i. omega (
            arith,
            subst (λ x. x ≤ℤ t) it (hour_of-le t),
            first_seen-le (observations db) t e q i,
          ),
        )
  ]
]

window_start-none : (db : Tables) → window_start db ≡ none → Begins db db.watermark
unfolding window_start Begins
window_start-none db h = elim (Bool-cases (eqb_ℤ db.watermark sentinel)) [
  | inr moved ↦ some_ne_none {a = db.watermark} (rw moved at h)
  | inl never ↦ elim (Option-cases (first_seen (observations db))) [
    | inr (t, e) ↦ some_ne_none {a = hour_of t} (rw (never, e) at h)
    | inl nothing ↦ (λ n. refl, λ s q i. absurd (first_seen-none (observations db) nothing q i))
  ]
]

-- The rollup did nothing, or moved the watermark to the end of a window that is not empty and lies
-- before `limit`.
pub data Moved (db after : Tables) (r : Result) (limit : Time) : Type 0 where
  idle : r.from ≡ r.to → r.final ≡ [] → after ≡ db → Moved db after r limit
  advanced :
      r.from <ℤ r.to
      → r.to ≤ℤ limit
      → after ≡ record db { watermark = r.to }
      → Moved db after r limit

module _ (loc : Zone) (now : Time) (settle : Duration) (db : Tables) where
  roll_window-Moved :
      (from : Time)
      → Moved db
          (roll_window loc from (window_end now settle) db).0
          (roll_window loc from (window_end now settle) db).1
          (now -ℤ settle)
        × ((roll_window loc from (window_end now settle) db).1.from ≡ from)
  unfolding window_end
  roll_window-Moved from = elim (Bool-cases (ltb_ℤ from (hour_of (now -ℤ settle)))) [
    | inl due ↦ rw due (
      advanced (ltb_ℤ→lt from (hour_of (now -ℤ settle)) due) (hour_of-le (now -ℤ settle)) refl,
      refl,
    )
    | inr not_due ↦ rw not_due (idle refl refl refl, refl)
  ]

  roll_from-Moved :
      (start : Option Time)
      → window_start db ≡ start
      → Moved db
          (roll_from loc start (window_end now settle) db).0
          (roll_from loc start (window_end now settle) db).1
          (now -ℤ settle)
        × Begins db (roll_from loc start (window_end now settle) db).1.from
  roll_from-Moved none h = (idle refl refl refl, window_start-none db h)
  roll_from-Moved (some from) h =
      let (moved, at') = roll_window-Moved from in
      (moved, subst (Begins db) (sym at') (window_start-Begins db from h))

  -- A rollup whose transaction fails changes nothing. One that commits moves at most the watermark, and
  -- only forward from the window's start to its end, an instant at least `settle` ago. The window starts
  -- at the old watermark, so that successive windows leave no gap and do not overlap; on the first run it
  -- starts no later than any bucket observed.
  pub rollup_lem :
      (rollup loc now settle false db ≡ (db, none))
      × ((r : Result)
          → (rollup loc now settle true db).1 ≡ some r
          → Moved db (rollup loc now settle true db).0 r (now -ℤ settle) × Begins db r.from)
  unfolding rollup
  rollup_lem = (
    refl,
    λ r h.
        subst
          (λ x.
            Moved db (roll_from loc (window_start db) (window_end now settle) db).0 x
              (now -ℤ settle)
            × Begins db x.from)
          (some_injective h) (roll_from-Moved (window_start db) refl),
  )
