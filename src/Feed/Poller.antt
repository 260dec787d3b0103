-- ===== src/Feed/Poller.antt =====
-- internal/feed/poller.go and the outcomes of internal/feed/client.go: one poll of a feed, and the wait
-- before the next. The logging and the metrics are left out.
pub mod Delay
pub mod Failures
use headway.Base.{
  ℕ, zero, suc, ◌*◌, ◌^◌, ℤ, pos, ◌-ℤ◌, ◌+ℤ◌, scale, mod_ℤ, of_bits, ltb_ℤ, leb_ℤ, String, Bool,
  true, false, List, [], ◌∷◌, Option, none, some, ◌⊎◌, inl, inr, if◌then◌else◌, leb, ◌==◌,
}
use headway.ServiceTime.{Time, Duration, second}
use headway.Feed.Limiter.{Floats, Limiter, BudgetExhausted, reserve, exhaust, rollover, resets_in}

-- The errors that Fetch returns, by the first case of classify that matches.
pub data FetchError : Type 0 where
  deadline_exceeded : FetchError
  not_modified : FetchError
  quota_exhausted : FetchError
  rate_limited : FetchError
  unauthorized : FetchError
  empty_body : FetchError
  other : FetchError

-- What the transport returns: an error, which may be a timeout, or a status with the error detail and
-- its body, which cannot be read, perhaps for the timeout, or may be empty.
pub data HttpResult : Type 0 where
  failed : Bool → HttpResult
  answered : ℕ → String → Bool ⊎ Bool → HttpResult

-- strings.Contains(strings.ToLower(detail), word)
abbrev pub Contains : Type 0
Contains = String → String → Bool

unfoldable pub classify403 : Contains → String → FetchError
classify403 contains detail =
    if contains detail "quota"
    then quota_exhausted
    else if contains detail "rate"
    then rate_limited
    else rate_limited

abbrev pub of_body : Bool ⊎ Bool → Option FetchError
of_body (inl true) = some deadline_exceeded
of_body (inl false) = some other
of_body (inr true) = some empty_body
of_body (inr false) = none

abbrev pub of_status : Contains → ℕ → String → Bool ⊎ Bool → Option FetchError
of_status contains status detail body =
    if status == 200
    then of_body body
    else if status == 304
    then some not_modified
    else if status == 401
    then some unauthorized
    else if status == 403
    then some (classify403 contains detail)
    else some other

-- The error of a fetch, or none for a response with a body.
unfoldable pub fetch : Contains → HttpResult → Option FetchError
fetch contains (failed true) = some deadline_exceeded
fetch contains (failed false) = some other
fetch contains (answered status detail body) = of_status contains status detail body

pub record Poller : Type 0 where
  pub interval : Duration
  pub jitter : Duration
  pub failures : ℕ
  pub last_auth_log : Time

abbrev pub five_minutes : Duration
five_minutes = pos (300 * second)

abbrev pub min_4 : ℕ → ℕ
min_4 n = if leb n 4 then n else 4

-- interval << n of an int64.
unfoldable pub shift_left : Duration → ℕ → Duration
shift_left d n = of_bits (2 ^ 63) (mod_ℤ (scale d (2 ^ n)) (2 ^ 64))

abbrev pub backoff_of : Duration → ℕ → Duration
backoff_of interval zero = interval
backoff_of interval (suc n) =
    let earned = shift_left interval (min_4 (suc n)) in
    if ltb_ℤ five_minutes earned then five_minutes else earned

unfoldable pub backoff : Poller → Duration
backoff p = backoff_of p.interval p.failures

-- `random spread` stands for time.Duration(p.randFrac() * float64(spread)).
unfoldable pub next_delay : (Duration → Duration) → Poller → Duration
unfolding backoff
next_delay random p =
    let spread = backoff p -ℤ p.interval +ℤ p.jitter in
    if leb_ℤ spread (pos 0) then p.interval else p.interval +ℤ random spread

abbrev pub fail : Poller → Poller
fail p = record p { failures = suc p.failures }

-- At most one line a minute.
abbrev pub log_auth : Time → Poller → Poller
log_auth now p =
    if leb_ℤ (pos (60 * second)) (now -ℤ p.last_auth_log)
    then record p { last_auth_log = now }
    else p

module _ (f : Floats) (random : Duration → Duration) where
  pub record Shared : Type 0 where
    pub poller : Poller
    pub limiter : Limiter f

  -- The rest of the UTC day.
  abbrev pub budget_pause : Time → Shared → Shared × Duration
  budget_pause now s = (s, resets_in f now s.limiter)

  abbrev pub delayed : Shared → Shared × Duration
  delayed s = (s, next_delay random s.poller)

  -- What the clock shows at each reading of one poll: in Wait, and after the fetch in Exhaust or for the
  -- line on the key, and in ResetsIn.
  pub record Clock : Type 0 where
    pub asked : Time
    pub classified : Time
    pub paused : Time

  -- The limiter is shared: `others` is what the other pollers do to it, from Wait to the end of the fetch,
  -- and between Exhaust and ResetsIn.
  pub record Others : Type 0 where
    pub meanwhile : Limiter f → Limiter f
    pub at_last : Limiter f → Limiter f

  abbrev pub after_others : (Limiter f → Limiter f) → Shared → Shared
  after_others g s = record s { limiter = g s.limiter }

  unfoldable pub classify : Clock → Others → Bool → FetchError → Shared → Shared × Duration
  classify t g true err s = (s, s.poller.interval)
  classify t g false deadline_exceeded s = delayed (record s { poller = fail s.poller })
  classify t g false not_modified s =
      delayed (record s { poller = record s.poller { failures = 0 } })
  classify t g false quota_exhausted s =
      budget_pause t.paused
        (after_others g.at_last (record s { limiter = exhaust f t.classified s.limiter }))
  classify t g false rate_limited s = delayed (record s { poller = fail s.poller })
  classify t g false unauthorized s =
      delayed (record s { poller = log_auth t.classified (fail s.poller) })
  classify t g false empty_body s = delayed (record s { poller = fail s.poller })
  classify t g false other s = delayed (record s { poller = fail s.poller })

  -- What one poll meets: whether the context is done in the wait for the limiter, what Fetch returns,
  -- whether the context is done after it, and whether the handler panics.
  pub record Poll : Type 0 where
    pub clock : Clock
    pub others : Others
    pub cancelled : Bool
    pub fetched : Option FetchError
    pub shutting_down : Bool
    pub panics : Bool

  -- Fetch has returned.
  abbrev pub handle : Poll → Option FetchError → Shared → Shared × Duration
  handle p (some err) s = classify p.clock p.others p.shutting_down err s
  handle p none s =
      let reset = record s { poller = record s.poller { failures = 0 } } in
      delayed (if p.panics then record reset { poller = fail reset.poller } else reset)

  abbrev pub admitted : Poll → BudgetExhausted ⊎ Duration → Shared → Shared × Duration
  admitted p (inl spent) s = budget_pause p.clock.paused (after_others p.others.at_last s)
  admitted p (inr wait) s =
      if p.cancelled then delayed s else handle p p.fetched (after_others p.others.meanwhile s)

  unfoldable pub poll_once : Poll → Shared → Shared × Duration
  unfolding classify
  poll_once p s =
      let (limiter, answer) = reserve f p.clock.asked s.limiter in
      admitted p answer (record s { limiter = limiter })
