-- ===== src/Api/RateLimit/LowRate.antt =====
-- A rate above zero and below one request per second.
use headway.Base.{
  ℤ, pos, ◌-ℤ◌, ◌≤ℤ◌, String, str_eq, Bool, true, false, List, [], ◌∷◌, ◌≡◌, refl, ap, ◌∙◌, arith,
  All,
}
use headway.Base.Eq.{string_eq}
use headway.Base.Dict.{get}
use headway.ServiceTime.{Time, Duration}
use headway.Feed.Limiter.{Floats}
use headway.Api.RateLimit.{
  Admission, served, too_many, IpLimiter, sweep, bucket_of, refilled, take_from, allow, retry_after,
  answer, limit, limit_all,
}

-- 429, with a wait of a second or more.
abbrev pub IsRefused : Admission → Type 0
IsRefused served = ⊥
IsRefused (too_many wait) = pos 1 ≤ℤ wait

module _ (f : Floats) (ceil_seconds : Duration → ℤ) where
  retry_after-ge : (d : Duration) → pos 1 ≤ℤ retry_after f ceil_seconds d
  retry_after-ge d = ground arith

  sweep-rate : (now : Time) (l : IpLimiter f) → (sweep f now l).rate ≡ l.rate
  unfolding sweep
  sweep-rate now l = ground arith

  -- Where the bucket's size is below one, min keeps the tokens below one.
  module _ (rate : f.Float) (small : f.ge rate f.one ≡ false)
      (min-small : (a x : f.Float) → f.ge a f.one ≡ false → f.ge (f.min a x) f.one ≡ false) where
    take_from-refused :
        (now : Time) (ip : String) (l : IpLimiter f)
        → l.rate ≡ rate
        → ((take_from f now ip l).1 ≡ false) × ((take_from f now ip l).0.rate ≡ rate)
    unfolding take_from refilled
    take_from-refused now ip l h =
        let b = bucket_of f now rate (get ip l.buckets) in
        let none_left =
          min-small rate (f.add b.tokens (f.mul (f.seconds (now -ℤ b.last)) rate)) small in
        rw (h, none_left) (refl, refl)

    -- A request that is not a probe.
    abbrev pub IsLimited : Time × String × String → Type 0
    IsLimited (now, path, ip) = (str_eq path "/healthz" ≡ false) × (str_eq path "/readyz" ≡ false)

    answer-IsRefused :
        (p : IpLimiter f × Bool × Duration)
        → p.1 ≡ false
        → IsRefused (answer f ceil_seconds p).1 × ((answer f ceil_seconds p).0 ≡ p.0)
    answer-IsRefused (l, true, w) h = cc
    answer-IsRefused (l, false, w) h = (retry_after-ge w, refl)

    limit-IsRefused :
        (now : Time) (path ip : String) (l : IpLimiter f)
        → l.rate ≡ rate
        → f.ge f.zero rate ≡ false
        → IsLimited (now, path, ip)
        → IsRefused (limit f ceil_seconds now path ip l).1
          × ((limit f ceil_seconds now path ip l).0.rate ≡ rate)
    unfolding limit allow
    limit-IsRefused now path ip l h positive limited =
        let swept : (sweep f now l).rate ≡ rate = sweep-rate now l ∙ h in
        let refused = take_from-refused now ip (sweep f now l) swept in
        let told = answer-IsRefused (allow f now ip l) refused.0 in
        let installed : f.ge f.zero l.rate ≡ false = ap (f.ge f.zero) h ∙ positive in
        rw (installed, limited.0, limited.1)
          (told.0, ap (λ (x : IpLimiter f). x.rate) told.1 ∙ refused.1)

    -- With a rate above zero and below one, every request but the health probes is refused for ever,
    -- whatever the state and the times, and told to wait a second or more: a bucket never holds one
    -- token. For any arithmetic whose min is below one where its first argument is.
    pub limit_all-IsRefused :
        (rs : List (Time × String × String)) (l : IpLimiter f)
        → l.rate ≡ rate
        → f.ge f.zero rate ≡ false
        → All IsLimited rs
        → All IsRefused (limit_all f ceil_seconds rs l)
    unfolding limit_all
    limit_all-IsRefused [] l h positive limited = tt
    limit_all-IsRefused ((now, path, ip) ∷ rs) l h positive limited =
        let first = limit-IsRefused now path ip l h positive limited.0 in
        (first.0, limit_all-IsRefused rs _ first.1 positive limited.1)
