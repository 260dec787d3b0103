-- ===== src/Feed/Limiter/Budget.antt =====
-- The daily budget.
use headway.Base.{
  ℕ, suc, ◌+◌, ◌-◌, ◌≤◌, ◌<◌, ℤ, ◌≤ℤ◌, ◌<ℤ◌, ltb_ℤ, eqb_ℤ, Bool, true, false, ◌&&◌, List, [], ◌∷◌,
  ◌⊎◌, inl, inr, if◌then◌else◌, leb, ◌≡◌, refl, arith, Bool-cases, ltb_ℤ→lt, ltb_ℤ→ge, eq_of_parts,
  subst, ◌∙◌, ap, sym, pos_part, neg_part,
}
use headway.ServiceTime.{Time, Duration}
use headway.Feed.Limiter.{
  Floats, BudgetExhausted, utc_day, Limiter, new_limiter, rollover, refill, reserve_today, reserve,
  exhaust,
}

-- What is left of a day's budget, in a limiter whose window is that of a day.
abbrev left_of : Time → Time → ℕ → ℕ → ℕ
left_of d day budget used =
    if eqb_ℤ day d then budget - used else (if ltb_ℤ day d then budget else 0)

abbrev one_on : Time → Time → Bool → ℕ
one_on d day true = if eqb_ℤ day d then 1 else 0
one_on d day false = 0

abbrev Rolled : Time → Time → ℕ → ℕ → Type 0
Rolled day today used used' = ((day ≡ today) × (used' ≡ used)) ⊎ ((day <ℤ today) × (used' ≡ 0))

abbrev Took : ℕ → ℕ → ℕ → Bool → Type 0
Took budget used used' g =
    ((g ≡ false) × (used' ≡ used) × (budget ≤ used))
    ⊎ ((g ≡ true) × (used' ≡ suc used) × (used < budget))

left_lem :
    (d day today : Time) (budget used used' used'' : ℕ) (g : Bool)
    → Rolled day today used used'
    → Took budget used' used'' g
    → one_on d today g + left_of d today budget used'' ≤ left_of d day budget used
left_lem d day today budget used used' used'' true (inl (e, u)) (inl (g, v, w)) = ground arith
left_lem d day today budget used used' used'' false (inl (e, u)) (inl (g, v, w)) =
    ground (arith, ap pos_part e, ap neg_part e)
left_lem d day today budget used used' used'' true (inl (e, u)) (inr (g, v, w)) =
    ground (arith, ap pos_part e, ap neg_part e)
left_lem d day today budget used used' used'' false (inl (e, u)) (inr (g, v, w)) = ground arith
left_lem d day today budget used used' used'' true (inr (e, u)) took = ground arith
left_lem d day today budget used used' used'' false (inr (e, u)) took = ground arith

left_of-le : (d day : Time) (budget used : ℕ) → left_of d day budget used ≤ budget
left_of-le d day budget used = ground arith

suc_ne : (a b : ℕ) → a ≡ b → ¬ (a < b)
suc_ne a b e h = omega arith

ltb_ℤ→not_ge : (a b : ℤ) → ltb_ℤ a b ≡ true → ¬ (b ≤ℤ a)
ltb_ℤ→not_ge a b h k = ground arith

grant_one :
    (d day : Time) (g : Bool) (n : ℕ) → (if g && eqb_ℤ day d then suc n else n) ≡ one_on d day g + n
grant_one d day true n = ground arith
grant_one d day false n = omega arith

module _ (f : Floats) where
  abbrev pub granted : BudgetExhausted ⊎ Duration → Bool
  granted (inl e) = false
  granted (inr wait) = true

  -- How many of the requests that are made at some times, in this order, are granted on a UTC day.
  abbrev pub grants_on : Time → List Time → Limiter f → ℕ
  grants_on d [] l = 0
  grants_on d (now ∷ times) l =
      let rest = grants_on d times (reserve f now l).0 in
      if granted (reserve f now l).1 && eqb_ℤ (utc_day now) d then suc rest else rest

  -- The UTC days do not go back.
  abbrev pub IsForward : Time → List Time → Type 0
  IsForward since [] = Unit
  IsForward since (now ∷ times) = (since ≤ℤ utc_day now) × IsForward (utc_day now) times

  refill_facts :
      (now : Time) (l : Limiter f)
      → ((refill f now l).day ≡ l.day)
        × ((refill f now l).budget ≡ l.budget)
        × ((refill f now l).used ≡ l.used)
  unfolding refill
  refill_facts now l = (ground arith, ground arith, ground arith)

  abbrev Outcome : Limiter f → Limiter f × (BudgetExhausted ⊎ Duration) → Type 0
  Outcome l r =
      (r.0.day ≡ l.day) × (r.0.budget ≡ l.budget) × Took l.budget l.used r.0.used (granted r.1)

  leb→le : (a b : ℕ) → leb a b ≡ true → a ≤ b
  leb→le a b h = ground arith

  leb→gt : (a b : ℕ) → leb a b ≡ false → b < a
  leb→gt a b h = ground arith

  reserve_today_facts : (now : Time) (l : Limiter f) → Outcome l (reserve_today f now l)
  reserve_today_facts now l = elim (Bool-cases (leb l.budget l.used)) [
    | inl e ↦ rw e (refl, refl, inl (refl, refl, leb→le l.budget l.used e))
    | inr e ↦
        let (d, b, u) = refill_facts now (record l { used = suc l.used }) in
        rw e (d, b, inr (refl, u, leb→gt l.budget l.used e))
  ]

  rollover_facts :
      (now : Time) (l : Limiter f)
      → l.day ≤ℤ utc_day now
      → ((rollover f now l).day ≡ utc_day now)
        × ((rollover f now l).budget ≡ l.budget)
        × Rolled l.day (utc_day now) l.used (rollover f now l).used
  unfolding rollover
  rollover_facts now l h = elim (Bool-cases (ltb_ℤ l.day (utc_day now))) [
    | inl e ↦ rw e (refl, refl, inr (ltb_ℤ→lt l.day (utc_day now) e, refl))
    | inr e ↦
        let same =
          eq_of_parts l.day (utc_day now) (omega (arith, h, ltb_ℤ→ge l.day (utc_day now) e)) in
        rw e (same, refl, inl (same, refl))
  ]

  -- A grant comes out of what is left of its day, and nothing is added to what is left of a day.
  reserve_left :
      (now d : Time) (l : Limiter f)
      → l.day ≤ℤ utc_day now
      → one_on d (utc_day now) (granted (reserve f now l).1)
          + left_of d (reserve f now l).0.day (reserve f now l).0.budget (reserve f now l).0.used
        ≤ left_of d l.day l.budget l.used
  unfolding reserve
  reserve_left now d l h =
      let today = rollover f now l in
      let r = reserve_today f now today in
      let (day, budget, roll) = rollover_facts now l h in
      let (day', budget', outcome) = reserve_today_facts now today in
      rw (day' ∙ day, budget' ∙ budget)
        (left_lem d l.day (utc_day now) l.budget l.used today.used r.0.used (granted r.1) roll
          (subst (λ b. Took b today.used r.0.used (granted r.1)) budget outcome))

  reserve-day :
      (now : Time) (l : Limiter f) → l.day ≤ℤ utc_day now → (reserve f now l).0.day ≡ utc_day now
  unfolding reserve
  reserve-day now l h = (reserve_today_facts now (rollover f now l)).0 ∙ (rollover_facts now l h).0

  grants_on-le :
      (d : Time) (times : List Time) (l : Limiter f)
      → IsForward l.day times
      → grants_on d times l ≤ left_of d l.day l.budget l.used
  grants_on-le d [] l h = omega arith
  grants_on-le d (now ∷ times) l h =
      let rest =
        grants_on-le d times (reserve f now l).0
          (subst (λ t. IsForward t times) (sym (reserve-day now l h.0)) h.1) in
      omega (
        arith,
        rest,
        reserve_left now d l h.0,
        grant_one d (utc_day now) (granted (reserve f now l).1)
            (grants_on d times (reserve f now l).0),
      )

  -- On no UTC day are more requests granted than the daily budget, whenever and however often they are
  -- made, if the UTC days do not go back from the one on which the limiter was made.
  pub grants_le_budget :
      (rps : f.Float) (daily_budget : ℕ) (start d : Time) (times : List Time)
      → IsForward (utc_day start) times
      → grants_on d times (new_limiter f rps daily_budget start) ≤ daily_budget
  unfolding new_limiter
  grants_le_budget rps daily_budget start d times h = omega (
    arith,
    grants_on-le d times (new_limiter f rps daily_budget start) h,
    left_of-le d (utc_day start) daily_budget 0,
  )

  rollover_same : (t : Time) (l : Limiter f) → utc_day t ≤ℤ l.day → rollover f t l ≡ l
  unfolding rollover
  rollover_same t l h = elim (Bool-cases (ltb_ℤ l.day (utc_day t))) [
    | inl e ↦ absurd (ltb_ℤ→not_ge l.day (utc_day t) e h)
    | inr e ↦ rw e
  ]

  exhaust_facts :
      (now : Time) (l : Limiter f)
      → (utc_day now ≤ℤ (exhaust f now l).day) × ((exhaust f now l).used ≡ (exhaust f now l).budget)
  unfolding exhaust rollover
  exhaust_facts now l = elim (Bool-cases (ltb_ℤ l.day (utc_day now))) [
    | inl e ↦ rw e (omega arith, refl)
    | inr e ↦ rw e (ltb_ℤ→ge l.day (utc_day now) e, refl)
  ]

  spent-granted :
      (t : Time) (l : Limiter f) → l.used ≡ l.budget → granted (reserve_today f t l).1 ≡ false
  spent-granted t l h = elim (Bool-cases (leb l.budget l.used)) [
    | inl e ↦ rw e
    | inr e ↦ absurd (suc_ne l.used l.budget h (leb→gt l.budget l.used e))
  ]

  -- Once the budget is marked as spent, no request is granted until the UTC day is over: a reservation
  -- at any time of the same UTC day fails.
  pub reserve-exhaust :
      (now later : Time) (l : Limiter f)
      → utc_day later ≡ utc_day now
      → granted (reserve f later (exhaust f now l)).1 ≡ false
  unfolding reserve
  reserve-exhaust now later l h =
      let spent = exhaust f now l in
      let (today, used) = exhaust_facts now l in
      rw (rollover_same later spent (rw h today)) (spent-granted later spent used)

  -- Nothing is granted on the day of a limiter whose budget is spent.
  pub granted-spent :
      (later : Time) (l : Limiter f)
      → l.used ≡ l.budget
      → utc_day later ≤ℤ l.day
      → granted (reserve f later l).1 ≡ false
  unfolding reserve
  granted-spent later l used h = rw (rollover_same later l h) (spent-granted later l used)

  -- A limiter that is not ahead of the clock is brought to the clock's day.
  pub exhaust-day :
      (now : Time) (l : Limiter f)
      → l.day ≤ℤ utc_day now
      → ((exhaust f now l).day ≡ utc_day now) × ((exhaust f now l).used ≡ (exhaust f now l).budget)
  unfolding exhaust
  exhaust-day now l h = ((rollover_facts now l h).0, (exhaust_facts now l).1)
