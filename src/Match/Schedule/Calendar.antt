-- ===== src/Match/Schedule/Calendar.antt =====
-- On which dates a service runs.
use headway.Base.{
  ℤ, pos, leb_ℤ, eqb_ℤ, String, str_eq, eq_iff, Bool, true, false, ◌&&◌, not, List, [], ◌∷◌,
  if◌then◌else◌, get_or, arith, ◌≡◌, refl, length,
}
use headway.Base.Eq.{string_eq, int_eq}
use headway.Base.Dict.{put, get-put}
use headway.ServiceTime.{Date}
use headway.Match.Schedule.{
  Schedule, Service, service, except, add_calendar_date, add_calendar, holds, service_runs_on,
  runs_on, sunday_first, weekday,
}

-- The dates that calendar_dates takes from a service.
abbrev pub is_removed : Schedule → String → Date → Bool
is_removed s id d = holds d (service id s).removed

-- The calls of a service that is not in the schedule find one that never runs.
runs_on-service :
    (s : Schedule) (id : String) (d : Date) → runs_on s id d ≡ service_runs_on (service id s) d
unfolding runs_on service
runs_on-service s id d = ground arith

service-put :
    (s : Schedule) (id j : String) (svc : Service)
    → service j (record s { services = put id svc s.services })
      ≡ (if str_eq id j then svc else service j s)
unfolding service
service-put s id j svc = ground (arith, get-put id j svc s.services)

except_lem :
    (svc : Service) (d e : Date) (exception_type : ℤ)
    → service_runs_on (except exception_type d svc) e ≡ (
        if eqb_ℤ d e
        then (if eqb_ℤ exception_type (pos 1) then not (holds e svc.removed) else false)
        else service_runs_on svc e)
unfolding service_runs_on except
except_lem svc d e exception_type =
    ground (arith, get-put d e true svc.added, get-put d e true svc.removed)

-- An exception of calendar_dates decides its own date and service, and no other: 1 makes the service
-- run unless the date is also removed, and any other type makes it not run, whatever the calendar
-- and the other exceptions say.
pub runs_on-add_calendar_date :
    (s : Schedule) (id j : String) (d e : Date) (exception_type : ℤ)
    → runs_on (add_calendar_date id d exception_type s) j e ≡ (
        if str_eq id j && eqb_ℤ d e
        then (if eqb_ℤ exception_type (pos 1) then not (is_removed s j e) else false)
        else runs_on s j e)
unfolding add_calendar_date
runs_on-add_calendar_date s id j d e exception_type =
    rw
      (
        runs_on-service (add_calendar_date id d exception_type s) j e,
        service-put s id j (except exception_type d (service id s)),
      )
      (ground
        (arith, except_lem (service id s) d e exception_type, runs_on-service s j e, eq_iff id j))

-- The seven flags of calendar.txt, Monday first, as the source indexes them by weekday.
sunday_first_lem :
    (mon tue wed thu fri sat sun : Bool) (days : List Bool)
    → length days ≡ 7
    → sunday_first 0 (mon ∷ tue ∷ wed ∷ thu ∷ fri ∷ sat ∷ sun ∷ []) days
      ≡ sun ∷ mon ∷ tue ∷ wed ∷ thu ∷ fri ∷ sat ∷ []
unfolding sunday_first
sunday_first_lem mon tue wed thu fri sat sun (a ∷ b ∷ c ∷ d ∷ e ∷ f ∷ g ∷ []) h = refl
sunday_first_lem mon tue wed thu fri sat sun _ h = absurd (omega arith)

-- After a row of calendar.txt with seven flags, a date with no exception runs exactly if it lies
-- in the row's range and the flag of its weekday is set; a removed date does not run and an added one
-- does. Other services run as before.
pub runs_on-add_calendar :
    (s : Schedule) (id j : String) (mon tue wed thu fri sat sun : Bool) (start stop e : Date)
    → length (service id s).days ≡ 7
    → runs_on (add_calendar id (mon ∷ tue ∷ wed ∷ thu ∷ fri ∷ sat ∷ sun ∷ []) start stop s) j e ≡ (
        if str_eq id j
        then (if is_removed s id e
            then false
            else if holds e (service id s).added
            then true
            else leb_ℤ start e
              && leb_ℤ e stop
              && get_or (sun ∷ mon ∷ tue ∷ wed ∷ thu ∷ fri ∷ sat ∷ []) (weekday e) false)
        else runs_on s j e)
unfolding add_calendar
runs_on-add_calendar s id j mon tue wed thu fri sat sun start stop e seven =
    rw
      (
        runs_on-service
            (add_calendar id (mon ∷ tue ∷ wed ∷ thu ∷ fri ∷ sat ∷ sun ∷ []) start stop s) j e,
        service-put s id j _,
        sunday_first_lem mon tue wed thu fri sat sun (service id s).days seven,
      )
      (unfold service_runs_on in ground (arith, runs_on-service s j e))
