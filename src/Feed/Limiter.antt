-- ===== src/Feed/Limiter.antt =====
-- internal/feed/limiter.go: the throttle that all pollers share. The lock makes each method one step;
-- the clock is an argument. What a float64 is, is a parameter.
pub mod Budget
use headway.Base.{
  ℕ, suc, ◌+◌, ◌-◌, ℤ, pos, ◌-ℤ◌, ◌+ℤ◌, scale, div_ℤ, ltb_ℤ, Bool, true, false, List, [], ◌∷◌,
  Option, none, some, ◌⊎◌, inl, inr, if◌then◌else◌, leb,
}
use headway.ServiceTime.{Time, Duration, day}

-- The arithmetic of float64 that the bucket needs. `seconds` is Duration.Seconds, and `duration x` is
-- time.Duration(x * float64(time.Second)).
pub record Floats : Type 1 where
  pub Float : Type 0
  pub zero : Float
  pub one : Float
  pub add : Float → Float → Float
  pub sub : Float → Float → Float
  pub mul : Float → Float → Float
  pub div : Float → Float → Float
  pub neg : Float → Float
  pub min : Float → Float → Float
  pub max : Float → Float → Float
  pub ge : Float → Float → Bool
  pub seconds : Duration → Float
  pub duration : Float → Duration

-- t.UTC().Truncate(24 * time.Hour)
unfoldable pub utc_day : Time → Time
utc_day t = scale (div_ℤ t day) day

-- ErrBudgetExhausted, with what its text tells: requests used, of how many, and the time to the reset.
pub record BudgetExhausted : Type 0 where
  pub used : ℕ
  pub budget : ℕ
  pub resets_in : Duration

module _ (f : Floats) where
  pub record Limiter : Type 0 where
    pub rate : f.Float
    pub burst : f.Float
    pub tokens : f.Float
    pub last : Time
    pub budget : ℕ
    pub used : ℕ
    pub day : Time

  unfoldable pub new_limiter : f.Float → ℕ → Time → Limiter
  new_limiter rps daily_budget now = record {
    rate = rps;
    burst = f.max rps f.one;
    tokens = f.max rps f.one;
    last = now;
    budget = daily_budget;
    used = 0;
    day = utc_day now;
  }

  unfoldable pub rollover : Time → Limiter → Limiter
  rollover now l = if ltb_ℤ l.day (utc_day now) then record l { day = utc_day now; used = 0 } else l

  unfoldable pub resets_in : Time → Limiter → Duration
  resets_in now l = l.day +ℤ pos day -ℤ now

  unfoldable pub refill : Time → Limiter → Limiter
  refill now l =
      if ltb_ℤ (pos 0) (now -ℤ l.last)
      then record l {
        tokens = f.min (f.add l.tokens (f.mul (f.seconds (now -ℤ l.last)) l.rate)) l.burst;
        last = now;
      }
      else l

  -- A token is spent, and the wait is for the deficit.
  abbrev pub spend : Limiter → Limiter × Duration
  spend l =
      let tokens = f.sub l.tokens f.one in
      (
        record l { tokens = tokens },
        if f.ge tokens f.zero then pos 0 else f.duration (f.div (f.neg tokens) l.rate),
      )

  abbrev pub reserve_today : Time → Limiter → Limiter × (BudgetExhausted ⊎ Duration)
  reserve_today now l =
      if leb l.budget l.used
      then (l, inl (record { used = l.used; budget = l.budget; resets_in = resets_in now l }))
      else let (spent, wait) = spend (refill now (record l { used = suc l.used })) in
        (spent, inr wait)

  unfoldable pub reserve : Time → Limiter → Limiter × (BudgetExhausted ⊎ Duration)
  unfolding rollover resets_in refill
  reserve now l = reserve_today now (rollover now l)

  unfoldable pub exhaust : Time → Limiter → Limiter
  unfolding rollover
  exhaust now l = let today = rollover now l in record today { used = today.budget }

  unfoldable pub used_today : Time → Limiter → Limiter × ℕ
  unfolding rollover
  used_today now l = let today = rollover now l in (today, today.used)
