-- ===== src/Feed/Poller/Failures.antt =====
-- The count of failures, and what a spent budget does.
use headway.Base.{
  ℕ, suc, Bool, true, false, ◌&&◌, not, Option, none, some, inl, inr, if◌then◌else◌, ◌≡◌, refl,
  arith, ⊎-cases, Bool-cases,
}
use headway.ServiceTime.{Time, Duration}
use headway.Feed.Limiter.{Floats, Limiter, reserve}
use headway.Feed.Limiter.Budget.{granted}
use headway.Feed.Poller.{
  FetchError, Poller, classify, handle, poll_once, Shared, Clock, Others, Poll, log_auth, fail,
}

-- How a poll that the limiter lets through ends.
abbrev pub count_after : Option FetchError → Bool → Bool → ℕ → ℕ
count_after none shutting_down panics n = if panics then 1 else 0
count_after (some err) true panics n = n
count_after (some FetchError.not_modified) false panics n = 0
count_after (some FetchError.quota_exhausted) false panics n = n
count_after (some FetchError.deadline_exceeded) false panics n = suc n
count_after (some FetchError.rate_limited) false panics n = suc n
count_after (some FetchError.unauthorized) false panics n = suc n
count_after (some FetchError.empty_body) false panics n = suc n
count_after (some FetchError.other) false panics n = suc n

module _ (f : Floats) (random : Duration → Duration) where
  log_auth-failures : (now : Time) (p : Poller) → (log_auth now p).failures ≡ p.failures
  log_auth-failures now p = ground arith

  classify-failures :
      (t : Clock f random) (g : Others f random) (done : Bool) (err : FetchError)
      (s : Shared f random) (panics : Bool)
      → (classify f random t g done err s).0.poller.failures
        ≡ count_after (some err) done panics s.poller.failures
  unfolding classify
  classify-failures t g true err s panics = refl
  classify-failures t g false FetchError.deadline_exceeded s panics = refl
  classify-failures t g false FetchError.not_modified s panics = refl
  classify-failures t g false FetchError.quota_exhausted s panics = refl
  classify-failures t g false FetchError.rate_limited s panics = refl
  classify-failures t g false FetchError.unauthorized s panics =
      log_auth-failures t.classified (fail s.poller)
  classify-failures t g false FetchError.empty_body s panics = refl
  classify-failures t g false FetchError.other s panics = refl

  handle-failures :
      (p : Poll f random) (fetched : Option FetchError) (s : Shared f random)
      → (handle f random p fetched s).0.poller.failures
        ≡ count_after fetched p.shutting_down p.panics s.poller.failures
  handle-failures p none s = ground arith
  handle-failures p (some err) s = classify-failures p.clock p.others p.shutting_down err s p.panics

  -- A poll that the limiter refuses, or that the shutdown cancels in its wait, leaves the count of
  -- failures. Any other poll sets it to zero when the fetch returns a response or has nothing new, but to
  -- one if the handler panics; leaves it when the shutdown cancels the fetch or the quota is spent; and
  -- adds one for every other error.
  pub poll_once-failures :
      (p : Poll f random) (s : Shared f random)
      → (poll_once f random p s).0.poller.failures ≡ (
          if granted f (reserve f p.clock.asked s.limiter).1 && not p.cancelled
          then count_after p.fetched p.shutting_down p.panics s.poller.failures
          else s.poller.failures)
  unfolding poll_once
  poll_once-failures p s = elim (⊎-cases (reserve f p.clock.asked s.limiter).1) [
    | inl (spent, e) ↦ rw e
    | inr (wait, e) ↦ elim (Bool-cases p.cancelled) [
      | inl c ↦ rw (e, c)
      | inr c ↦
          rw (e, c)
            (handle-failures p p.fetched
              (record s { limiter = p.others.meanwhile (reserve f p.clock.asked s.limiter).0 }))
    ]
  ]

  -- The others leave a spent budget spent, and its day the limiter's.
  abbrev pub KeepsSpent : (Limiter f → Limiter f) → Type 0
  KeepsSpent g =
      (l : Limiter f) → l.used ≡ l.budget → ((g l).day ≡ l.day) × ((g l).used ≡ (g l).budget)
