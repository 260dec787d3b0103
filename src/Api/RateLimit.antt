-- ===== src/Api/RateLimit.antt =====
-- internal/api/ratelimit.go: a token bucket for each client address. The lock makes `allow` one step; the
-- clock is an argument. What a float64 is, is a parameter.
pub mod Sweeps
pub mod LowRate
use headway.Base.{
  ℕ, zero, suc, ◌+◌, ◌*◌, ℤ, pos, ◌-ℤ◌, ltb_ℤ, leb_ℤ, String, str_eq, Bool, true, false, not, ◌||◌,
  List, [], ◌∷◌, Option, none, some, if◌then◌else◌, select,
}
use headway.Base.Eq.{Eq, string_eq}
use headway.Base.Dict.{Dict, get, put, select_values}
use headway.ServiceTime.{Time, Duration, second}
use headway.Feed.Limiter.{Floats}

-- time.Minute
abbrev pub idle_after : Duration
idle_after = pos (60 * second)

-- What the limit answers: the request goes on, or 429 with the seconds of Retry-After.
pub data Admission : Type 0 where
  served : Admission
  too_many : ℤ → Admission

module _ (f : Floats) where
  pub record Bucket : Type 0 where
    pub tokens : f.Float
    pub last : Time

  pub record IpLimiter : Type 0 where
    pub rate : f.Float
    pub buckets : Dict String Bucket
    pub last_sweep : Time

  unfoldable pub new_ip_limiter : f.Float → Time → IpLimiter
  new_ip_limiter rate now = record { rate = rate; buckets = []; last_sweep = now }

  -- now.Sub(t) > idleAfter
  abbrev pub is_idle : Time → Time → Bool
  is_idle now t = ltb_ℤ idle_after (now -ℤ t)

  -- The loop deletes the idle buckets.
  unfoldable pub sweep : Time → IpLimiter → IpLimiter
  unfolding select_values
  sweep now l =
      if is_idle now l.last_sweep
      then record l {
        buckets = select_values (λ b. not (is_idle now b.last)) l.buckets;
        last_sweep = now;
      }
      else l

  -- l.buckets[ip], made full at its first request.
  abbrev pub bucket_of : Time → f.Float → Option Bucket → Bucket
  bucket_of now rate none = record { tokens = rate; last = now }
  bucket_of now rate (some b) = b

  unfoldable pub refilled : Time → f.Float → Bucket → f.Float
  refilled now rate b = f.min rate (f.add b.tokens (f.mul (f.seconds (now -ℤ b.last)) rate))

  -- A token is taken, or the wait for the next one is told.
  abbrev pub take_token : Time → f.Float → f.Float → Bucket × Bool × Duration
  take_token now rate tokens =
      if f.ge tokens f.one
      then (record { tokens = f.sub tokens f.one; last = now }, true, pos 0)
      else (
        record { tokens = tokens; last = now },
        false,
        f.duration (f.div (f.sub f.one tokens) rate),
      )

  -- `allow`, after the sweep.
  unfoldable pub take_from : Time → String → IpLimiter → IpLimiter × Bool × Duration
  unfolding refilled
  take_from now ip l =
      let (b, ok, wait) =
        take_token now l.rate (refilled now l.rate (bucket_of now l.rate (get ip l.buckets))) in
      (record l { buckets = put ip b l.buckets }, ok, wait)

  unfoldable pub allow : Time → String → IpLimiter → IpLimiter × Bool × Duration
  unfolding sweep take_from
  allow now ip l = take_from now ip (sweep now l)

  -- `ceil_seconds d` is int(math.Ceil(d.Seconds())).
  module _ (ceil_seconds : Duration → ℤ) where
    -- max(1, secs)
    abbrev pub retry_after : Duration → ℤ
    retry_after wait = if leb_ℤ (ceil_seconds wait) (pos 1) then pos 1 else ceil_seconds wait

    abbrev pub answer : IpLimiter × Bool × Duration → IpLimiter × Admission
    answer (l, true, wait) = (l, served)
    answer (l, false, wait) = (l, too_many (retry_after wait))

    -- The handler of limit, for a request of path `path` at `now`. A rate that is not positive installs no
    -- limit; the source tests it once, when it makes the handler.
    unfoldable pub limit : Time → String → String → IpLimiter → IpLimiter × Admission
    unfolding allow
    limit now path ip l =
        if f.ge f.zero l.rate || str_eq path "/healthz" || str_eq path "/readyz"
        then (l, served)
        else answer (allow now ip l)

    -- One request after another, with what each is told.
    unfoldable pub limit_all : List (Time × String × String) → IpLimiter → List Admission
    limit_all [] l = []
    limit_all ((now, path, ip) ∷ rs) l = let (l', a) = limit now path ip l in a ∷ limit_all rs l'
