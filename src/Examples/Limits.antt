-- ===== src/Examples/Limits.antt =====
-- Tests of the limit for a client: tokens counted in billionths, at two a second and at one in two seconds.
use headway.Base.{
  ℕ, ◌+◌, ◌*◌, ◌-◌, ◌/◌, leb, ℤ, pos, negsuc, pos_part, ◌<ℤ◌, true, String, List, [], ◌∷◌,
  if◌then◌else◌, All, ◌≡◌, refl, arith,
}
use headway.ServiceTime.{Time, Duration, second}
use headway.Feed.Limiter.{Floats}
use headway.Api.RateLimit.{idle_after, IpLimiter, new_ip_limiter, limit_all}
use headway.Api.RateLimit.Sweeps.{RefillLaws, answers_keeping, limit_all-forgets}
use headway.Api.RateLimit.LowRate.{IsRefused, limit_all-IsRefused}

abbrev billionths : Floats
billionths = record {
  Float = ℕ;
  zero = 0;
  one = 1_000_000_000;
  add = λ x y. x + y;
  sub = λ x y. x - y;
  mul = λ x y. x * y / 1_000_000_000;
  div = λ x y. x;
  neg = λ x. 0;
  min = λ x y. if leb x y then x else y;
  max = λ x y. if leb x y then y else x;
  ge = λ x y. leb y x;
  seconds = pos_part;
  duration = pos;
}

-- Two tokens at most.
abbrev at_most_two : ℕ → ℕ
at_most_two n = if leb 2_000_000_000 n then 2_000_000_000 else n

leb_zero : (n : ℕ) → leb 0 n ≡ true
leb_zero n = ground arith

filled :
    (t : ℕ) (d : Duration)
    → idle_after <ℤ d
    → at_most_two (t + pos_part d * 2_000_000_000 / 1_000_000_000) ≡ 2_000_000_000
filled t (pos n) h = ground (arith, h)
filled t (negsuc n) h = omega (arith, h)

two_a_second-RefillLaws : RefillLaws billionths 2_000_000_000
two_a_second-RefillLaws = record {
  rate_ge = refl;
  fresh = refl;
  full = λ t d idle h. filled t d idle;
  stays = λ t d later h. leb_zero (at_most_two (t + pos_part d * 2_000_000_000 / 1_000_000_000));
  spent = λ t h. ground (arith, h);
}

-- int(math.Ceil(d.Seconds()))
abbrev ceil_seconds : Duration → ℤ
ceil_seconds d = pos ((pos_part d + 999_999_999) / second)

-- The first client comes back after two minutes, in which it was forgotten.
abbrev requests : List (Time × String × String)
requests =
    (pos 0, "/api/v1/now", "10.0.0.1")
    ∷ (pos 100, "/api/v1/now", "10.0.0.1")
    ∷ (pos (120 * second), "/api/v1/now", "10.0.0.2")
    ∷ (pos (120 * second), "/api/v1/now", "10.0.0.1")
    ∷ []

limit_all-forgets_example :
    limit_all billionths ceil_seconds requests (new_ip_limiter billionths 2_000_000_000 (pos 0))
    ≡ answers_keeping billionths 2_000_000_000 two_a_second-RefillLaws ceil_seconds requests
        (new_ip_limiter billionths 2_000_000_000 (pos 0))
limit_all-forgets_example =
    limit_all-forgets billionths 2_000_000_000 two_a_second-RefillLaws ceil_seconds (pos 0) requests
      (omega arith, (omega arith, (omega arith, (omega arith, tt))))

abbrev slow : IpLimiter billionths
slow = record { rate = 500_000_000; buckets = []; last_sweep = pos 0 }

limit_all-IsRefused_example : All IsRefused (limit_all billionths ceil_seconds requests slow)
limit_all-IsRefused_example =
    limit_all-IsRefused billionths ceil_seconds 500_000_000 refl (λ a x h. ground (arith, h))
      requests slow refl refl ((refl, refl), ((refl, refl), ((refl, refl), ((refl, refl), tt))))
