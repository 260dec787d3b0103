-- ===== src/GtfsStatic/Refresh.antt =====
-- internal/gtfsstatic/refresh.go: when the timetable is loaded next.
pub mod Wakes
use headway.Base.{ℤ, pos, ◌+ℤ◌, ltb_ℤ, ◌*◌, ℕ, ◌+◌, ◌&&◌, Bool, if◌then◌else◌}
use headway.ServiceTime.{Time, Duration, Zone, second, hour, local_date, wall_clock}

-- 15 * time.Minute
abbrev pub retry_after : Duration
retry_after = pos (900 * second)

pub record Refresh : Type 0 where
  pub at_hour : ℕ
  pub at_minute : ℕ
  pub interval : Duration

module _ (loc : Zone) where
  abbrev pub time_of_day : Refresh → Duration
  time_of_day r = pos (r.at_hour * hour + r.at_minute * (60 * second))

  -- The next Hour:Minute of the zone's clock.
  unfoldable pub next_at : Refresh → Time → Time
  next_at r now =
      let today = wall_clock loc (local_date loc now) (time_of_day r) in
      if ltb_ℤ now today
      then today
      else wall_clock loc (local_date loc now +ℤ pos 1) (time_of_day r)

  unfoldable pub next : Refresh → Time → Time
  unfolding next_at
  next r now =
      if ltb_ℤ (now +ℤ r.interval) (next_at r now) then now +ℤ r.interval else next_at r now

  -- The wait of Run: a failed load is tried again sooner.
  unfoldable pub wake : Refresh → Bool → Time → Time
  unfolding next
  wake r failed now =
      if failed && ltb_ℤ (now +ℤ retry_after) (next r now) then now +ℤ retry_after else next r now
