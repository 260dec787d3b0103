-- ===== src/Examples/Polling.antt =====
-- Tests of the limiter and of the poller.
use headway.Base.{pos, false, [], ◌∷◌, some, ◌≤◌, arith, scale, div_ℤ}
use headway.ServiceTime.{Time}
use headway.Feed.Limiter.{Limiter, utc_day, new_limiter}
use headway.Feed.Limiter.Budget.{grants_on, grants_le_budget}
use headway.Feed.Poller.{FetchError, Poller, Shared, Poll}
use headway.Feed.Poller.Delay.{IsFraction}
use headway.Examples.Data.{milli}

abbrev now : Time
now = pos 1_700_000_000_000_000_000

abbrev later : Time
later = pos 1_700_000_001_000_000_000

grants_le_budget_example :
    grants_on milli (utc_day now) (now ∷ now ∷ later ∷ []) (new_limiter milli (pos 1000) 2 now) ≤ 2
unfolding utc_day scale div_ℤ
grants_le_budget_example =
    grants_le_budget milli (pos 1000) 2 now (utc_day now) (now ∷ now ∷ later ∷ [])
      (omega arith, (omega arith, (omega arith, tt)))

abbrev limiter : Limiter milli
limiter = new_limiter milli (pos 1000) 2 now

abbrev poller : Poller
poller = record {
  interval = pos 15_000_000_000;
  jitter = pos 1_000_000_000;
  failures = 2;
  last_auth_log = pos 0;
}

whole : IsFraction (λ spread. spread)
whole spread h = (omega arith, omega arith)

abbrev shared : Shared milli (λ spread. spread)
shared = record { poller = poller; limiter = limiter }

-- The answer comes a second after the request.
abbrev quota : Poll milli (λ spread. spread)
quota = record {
  clock = record { asked = now; classified = later; paused = later };
  others = record { meanwhile = λ l. l; at_last = λ l. l };
  cancelled = false;
  fetched = some FetchError.quota_exhausted;
  shutting_down = false;
  panics = false;
}
