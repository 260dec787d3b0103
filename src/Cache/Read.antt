-- ===== src/Cache/Read.antt =====
-- internal/cache/latest.go: what the handlers read. Go ranges over the feeds in no order; the result of
-- Route and of Stop is the same up to the order of its feeds.
pub mod Answers
use headway.Base.{
  ℕ, suc, zero, ◌*◌, ◌-◌, ℤ, pos, negsuc, ◌-ℤ◌, ◌≤ℤ◌, ◌<ℤ◌, ltb_ℤ, String, Bool, true, false, ◌||◌,
  ◌&&◌, not, List, [], ◌∷◌, ◌++◌, map, Option, none, some, if◌then◌else◌, select, All, ◌≡◌, ◌⊎◌,
  refl, arith, Bool-cases, append-nil, append_assoc, inl, inr, Option-cases, ap, sym, ◌∙◌, ltb_ℤ→ge,
  ltb_ℤ→le, ≤ℤ_trans, subst,
}
use headway.Base.Eq.{Eq, string_eq}
use headway.Base.Dict.{Dict, get, has, has-none, has-some}
use headway.ServiceTime.{Time, Duration, second}
use headway.Cache.{Cache, Snapshot, Trip, Call, or_nil}

-- time.Time{}, the first second of the year 1.
unfoldable pub zero_time : Time
zero_time = negsuc (62135596800 * second - 1)

abbrev pub Answer {ℓ} : Type ℓ → Type ℓ
Answer A = List A × Time × Bool

module _ {ℓ} {A : Type ℓ} (index : Snapshot → Dict String (List A)) (ttl : Duration) (now : Time)
    (id : String) where
  abbrev pub fresh : Snapshot → Bool
  fresh s = not (ltb_ℤ ttl (now -ℤ s.feed_ts))

  -- One turn of the loop of Route and of Stop.
  abbrev pub gather_one : Snapshot → Answer A → Answer A
  gather_one s (found_before, as_of, found) =
      if not (fresh s) then (found_before, as_of, found) else elim (get id (index s)) [
        | none ↦ (found_before, as_of, found)
        | some xs ↦ (
          found_before ++ xs,
          if not found || ltb_ℤ s.feed_ts as_of then s.feed_ts else as_of,
          true,
        )
      ]

  abbrev pub gather : Dict String Snapshot → Answer A → Answer A
  gather [] acc = acc
  gather ((feed, s) ∷ feeds) acc = gather feeds (gather_one s acc)

unfoldable pub route : String → Time → Cache → Answer Trip
unfolding zero_time
route id now c = gather (λ s. s.by_route) c.ttl now id c.feeds ([], zero_time, false)

unfoldable pub stop : String → Time → Cache → Answer Call
unfolding zero_time
stop id now c = gather (λ s. s.by_stop) c.ttl now id c.feeds ([], zero_time, false)

unfoldable pub feed_times : Dict String Snapshot → Dict String Time
feed_times [] = []
feed_times ((id, s) ∷ feeds) = (id, s.feed_ts) ∷ feed_times feeds

unfoldable pub feeds_of : Cache → Dict String Time
unfolding feed_times
feeds_of c = feed_times c.feeds

abbrev pub newest_from : Dict String Snapshot → Time → Time
newest_from [] newest = newest
newest_from ((id, s) ∷ feeds) newest =
    newest_from feeds (if ltb_ℤ newest s.feed_ts then s.feed_ts else newest)

unfoldable pub newest : Cache → Time
unfolding zero_time
newest c = newest_from c.feeds zero_time
