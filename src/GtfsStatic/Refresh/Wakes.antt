-- ===== src/GtfsStatic/Refresh/Wakes.antt =====
-- The wait between two loads.
use headway.Base.{
  pos, ◌+ℤ◌, ◌≤ℤ◌, ◌<ℤ◌, ltb_ℤ, Bool, true, ◌&&◌, ◌⊎◌, inl, inr, ◌≡◌, refl, arith, int_laws,
  Bool-cases, ltb_ℤ→lt, ltb_ℤ→ge,
}
use headway.ServiceTime.{Time, Zone}
use headway.GtfsStatic.Refresh.{Refresh, retry_after, next_at, next, wake}

module _ (loc : Zone) (r : Refresh) (now : Time) where
  next_lem :
      (next loc r now ≤ℤ next_at loc r now)
      × (next loc r now ≤ℤ now +ℤ r.interval)
      × ((next loc r now ≡ next_at loc r now) ⊎ (next loc r now ≡ now +ℤ r.interval))
  unfolding next
  next_lem = elim (Bool-cases (ltb_ℤ (now +ℤ r.interval) (next_at loc r now))) [
    | inl soon ↦ rw soon (
      omega (arith, ltb_ℤ→lt (now +ℤ r.interval) (next_at loc r now) soon),
      omega arith,
      inr refl,
    )
    | inr later ↦
        rw later (omega arith, ltb_ℤ→ge (now +ℤ r.interval) (next_at loc r now) later, inl refl)
  ]

  ahead :
      (n : Time)
      → (n ≡ next_at loc r now) ⊎ (n ≡ now +ℤ r.interval)
      → pos 0 <ℤ r.interval
      → now <ℤ next_at loc r now
      → now <ℤ n
  ahead n (inl e) positive later = rw e later
  ahead n (inr e) positive later = rw e (omega (int_laws, positive))

  -- The loader wakes at the earliest of the next refresh time on the clock, the interval from now and,
  -- after a failure, fifteen minutes from now: at none later, and at one of them. So it waits for a
  -- positive time, if the interval is positive and the refresh time lies ahead.
  pub wake_lem :
      (failed : Bool)
      → (wake loc r failed now ≤ℤ next_at loc r now)
        × (wake loc r failed now ≤ℤ now +ℤ r.interval)
        × (failed ≡ true → wake loc r failed now ≤ℤ now +ℤ retry_after)
        × ((wake loc r failed now ≡ next_at loc r now)
            ⊎ ((wake loc r failed now ≡ now +ℤ r.interval)
                ⊎ ((failed ≡ true) × (wake loc r failed now ≡ now +ℤ retry_after))))
        × (pos 0 <ℤ r.interval → now <ℤ next_at loc r now → now <ℤ wake loc r failed now)
  unfolding wake
  wake_lem failed =
      let n = next loc r now in
      let soon = now +ℤ retry_after in
      let base = next_lem in
      elim (Bool-cases (failed && ltb_ℤ soon n)) [
        | inr not_sooner ↦ rw not_sooner (
          base.0,
          base.1,
          λ f. ltb_ℤ→ge soon n (rw f at not_sooner),
          elim (base.2) [ inl a ↦ inl a | inr b ↦ inr (inl b) ],
          ahead n base.2,
        )
        | inl sooner ↦
            let f : failed ≡ true = ground (arith, sooner) in
            let lt' : soon <ℤ n = ltb_ℤ→lt soon n (rw f at sooner) in
            rw sooner (
              omega (arith, base.0, lt'),
              omega (arith, base.1, lt'),
              λ _. omega arith,
              inr (inr (f, refl)),
              λ _ _. omega int_laws,
            )
      ]
