-- ===== src/Feed/Poller/Delay.antt =====
-- The wait between two polls.
use headway.Base.{
  ℕ, zero, suc, ℤ, pos, ◌-ℤ◌, ◌+ℤ◌, ◌≤ℤ◌, ◌<ℤ◌, ltb_ℤ, ◌⊎◌, inl, inr, if◌then◌else◌, arith,
  int_laws, ltb_ℤ-cases, leb_ℤ-true, leb_ℤ-false, +ℤ_parts, -ℤ_parts,
}
use headway.ServiceTime.{Duration}
use headway.Feed.Poller.{Poller, five_minutes, min_4, shift_left, backoff_of, backoff, next_delay}

-- The documented behaviour of rand.Float64, of which a part of the spread is made.
abbrev pub IsFraction : (Duration → Duration) → Type 0
IsFraction random =
    (spread : Duration) → pos 0 <ℤ spread → (pos 0 ≤ℤ random spread) × (random spread ≤ℤ spread)

capped : (earned : ℤ) → (if ltb_ℤ five_minutes earned then five_minutes else earned) ≤ℤ five_minutes
capped earned = ground arith

backoff_of_facts :
    (interval : Duration) (failures : ℕ)
    → (backoff_of interval failures ≤ℤ interval) ⊎ (backoff_of interval failures ≤ℤ five_minutes)
backoff_of_facts interval zero = inl (omega arith)
backoff_of_facts interval (suc n) = inr (capped (shift_left interval (min_4 (suc n))))

spread_lem :
    (i b j r cap : ℤ)
    → pos 0 ≤ℤ r
    → r ≤ℤ b -ℤ i +ℤ j
    → (b ≤ℤ i) ⊎ (b ≤ℤ cap)
    → (i ≤ℤ i +ℤ r) × ((i +ℤ r ≤ℤ i +ℤ j) ⊎ (i +ℤ r ≤ℤ cap +ℤ j))
spread_lem i b j r cap h k (inl le) =
    (omega int_laws, inl (omega (int_laws, -ℤ_parts b i, +ℤ_parts (b -ℤ i) j)))
spread_lem i b j r cap h k (inr le) =
    (omega int_laws, inr (omega (int_laws, -ℤ_parts b i, +ℤ_parts (b -ℤ i) j)))

no_spread : (i j cap : ℤ) → pos 0 ≤ℤ j → (i ≤ℤ i) × ((i ≤ℤ i +ℤ j) ⊎ (i ≤ℤ cap +ℤ j))
no_spread i j cap h = (omega arith, inl (omega int_laws))

-- A wait is at least the interval, so that the daily budget computed from it suffices, and at most the
-- longer of the interval and five minutes, and the jitter, whatever the count of failures; if the jitter
-- is not negative and a random part of a spread lies within it.
pub next_delay_bounds :
    (random : Duration → Duration) (p : Poller)
    → IsFraction random
    → pos 0 ≤ℤ p.jitter
    → (p.interval ≤ℤ next_delay random p)
      × ((next_delay random p ≤ℤ p.interval +ℤ p.jitter)
          ⊎ (next_delay random p ≤ℤ five_minutes +ℤ p.jitter))
unfolding next_delay backoff
next_delay_bounds random p h k =
    let spread = backoff p -ℤ p.interval +ℤ p.jitter in
    elim (ltb_ℤ-cases (pos 0) spread) [
      | inr e ↦ rw (leb_ℤ-true spread (pos 0) e) (no_spread p.interval p.jitter five_minutes k)
      | inl e ↦ rw (leb_ℤ-false spread (pos 0) e) (
          spread_lem p.interval (backoff p) p.jitter (random spread) five_minutes (h spread e).0
            (h spread e).1 (backoff_of_facts p.interval p.failures))
    ]
