-- ===== src/Examples/Feeds.antt =====
-- Tests of the service days and of the decoding of a body.
use headway.Civil.{codes}
use headway.ServiceTime.Clock.{parse_gtfs_time}
use headway.ServiceTime.Clock.Fields.{clock, IsClock, parse_gtfs_time_iff}
use headway.Base.{
  int64, ℕ, List, ◌↔◌, some, none, refl, pos, ◌-ℤ◌, ltb_ℤ, length, [], ◌∷◌, if◌then◌else◌, ◌+◌, ◌≡◌,
}
use headway.ServiceTime.{Date, service_day_start, candidate_service_dates}
use headway.ServiceTime.Candidates.{Owns, candidate_service_dates-owner}
use headway.Gtfsrt.{total_dropped}
use headway.Gtfsrt.Decode.{decode_message, header_of}
use headway.Gtfsrt.Accounting.{parts_of, decode_message_accounts}
use headway.Gtfsrt.Quality.{updates_of, decode_message_updates}
use headway.Examples.Data.{east, plain, body}

candidate_service_dates-owner_example :
    (o : Date) × Owns east (pos 1_700_000_000_000_000_000) o
    × ((e : Date) → Owns east (pos 1_700_000_000_000_000_000) e → e ≡ o)
    × (candidate_service_dates east (pos 1_700_000_000_000_000_000) (pos 14_400_000_000_000) ≡ (
        if ltb_ℤ
          (pos 1_700_000_000_000_000_000 -ℤ service_day_start east o)
          (pos 14_400_000_000_000)
        then o ∷ (o -ℤ pos 1) ∷ []
        else o ∷ []))
candidate_service_dates-owner_example =
    candidate_service_dates-owner east (pos 1_700_000_000_000_000_000) (pos 14_400_000_000_000)

decode_message_accounts_example :
    length (decode_message plain "trains" body (pos 5)).updates
      + total_dropped (decode_message plain "trains" body (pos 5))
    ≡ parts_of plain body
decode_message_accounts_example = decode_message_accounts plain "trains" body (pos 5)

decode_message_updates_example :
    (decode_message plain "trains" body (pos 5)).updates
    ≡ updates_of plain "trains" (header_of 1000 (pos 5)) (pos 5) body
decode_message_updates_example = decode_message_updates plain "trains" body (pos 5)

parse_gtfs_time_iff_example :
    (parse_gtfs_time (codes "25:10:00") ≡ some (pos 90600))
    ↔ ((h m s : List ℕ) × (codes "25:10:00" ≡ clock h m s) × IsClock h m s (pos 90600))
parse_gtfs_time_iff_example = parse_gtfs_time_iff (codes "25:10:00") (pos 90600)

past_midnight : parse_gtfs_time (codes "25:10:00") ≡ some (pos 90600)
unfolding parse_gtfs_time int64
past_midnight = refl

negative_hour : parse_gtfs_time (codes "-1:10:00") ≡ none
unfolding parse_gtfs_time
negative_hour = refl
