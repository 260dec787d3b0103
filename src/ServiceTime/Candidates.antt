-- ===== src/ServiceTime/Candidates.antt =====
-- Which service dates an instant can belong to.
use headway.Base.{
  pos, ◌+ℤ◌, ◌-ℤ◌, ◌≤ℤ◌, ◌<ℤ◌, scale, ltb_ℤ, int_laws, arith, ℕ, suc, zero, ◌*◌, ◌≡◌, inl, inr, [],
  ◌∷◌, some, div_ℤ_bounds, ltb_ℤ-cases, three_way, lt, eq, gt, sub_zero, sub_one_more, next_prev,
  ◌∙◌, if◌then◌else◌,
}
use headway.ServiceTime.{
  Time, Date, Duration, Zone, day, hour, second, shift, local_date, service_day_start, find_owner,
  candidates_of, candidate_service_dates,
}

-- The instants that `service_day_start` looks an offset up at.
abbrev noon : Date → Time
noon d = scale d day +ℤ pos (12 * hour)

module _ (loc : Zone) where
  -- A service day starts between 14 hours before midnight UTC of its date and that midnight.
  start_bounds :
      (d : Date)
      → (service_day_start loc d ≤ℤ scale d day)
        × (scale d day ≤ℤ service_day_start loc d +ℤ pos (50_400 * second))
  unfolding service_day_start shift
  start_bounds d =
      let bound = loc.offset_le (noon d -ℤ shift loc (noon d)) in
      (omega (int_laws, bound), omega (int_laws, bound))

  local_date_bounds :
      (t : Time)
      → (scale (local_date loc t) day ≤ℤ t +ℤ pos (50_400 * second))
        × (t <ℤ scale (local_date loc t) day +ℤ pos day)
  unfolding local_date
  local_date_bounds t =
      let bounds = div_ℤ_bounds (t +ℤ shift loc t) day (omega arith) in
      let bound = loc.offset_le t in
      (omega (int_laws, bounds, bound), omega (int_laws, bounds, bound))

  -- `d` is the date whose service had most recently started at `t`.
  abbrev pub Owns : Time → Date → Type 0
  Owns t d = (service_day_start loc d ≤ℤ t) × (t <ℤ service_day_start loc (d +ℤ pos 1))

  find_owner_later :
      (t : Time) (fuel : ℕ) (d : Date)
      → t <ℤ service_day_start loc d
      → find_owner loc t (suc fuel) d ≡ find_owner loc t fuel (d -ℤ pos 1)
  unfolding find_owner
  find_owner_later t fuel d h = ground arith

  find_owner_now :
      (t : Time) (fuel : ℕ) (d : Date)
      → service_day_start loc d ≤ℤ t
      → find_owner loc t (suc fuel) d ≡ some d
  unfolding find_owner
  find_owner_now t fuel d h = ground arith

  -- From any date after `t`, the loop ends at the owner if the fuel reaches past it.
  find_owner-Owns :
      (t : Time) (fuel : ℕ) (d : Date)
      → t <ℤ service_day_start loc (d +ℤ pos 1)
      → service_day_start loc (d -ℤ pos fuel) ≤ℤ t
      → (o : Date) × (find_owner loc t (suc fuel) d ≡ some o) × Owns t o
  find_owner-Owns t zero d above below =
      let now : service_day_start loc d ≤ℤ t = rw (← sub_zero d) below in
      (d, find_owner_now t zero d now, (now, above))
  find_owner-Owns t (suc fuel) d above below = elim (ltb_ℤ-cases t (service_day_start loc d)) [
    | inl later ↦
        let (o, found, owns) =
          find_owner-Owns t fuel (d -ℤ pos 1) (rw next_prev later) (rw sub_one_more below) in
        (o, find_owner_later t (suc fuel) d later ∙ found, owns)
    | inr now ↦ (d, find_owner_now t (suc fuel) d now, (now, above))
  ]

  -- The loop starts at tomorrow by the calendar, and the owner is no later than that and no earlier
  -- than yesterday.
  today_window :
      (t : Time)
      → (t <ℤ service_day_start loc (local_date loc t +ℤ pos 1 +ℤ pos 1))
        × (service_day_start loc (local_date loc t +ℤ pos 1 -ℤ pos 2) ≤ℤ t)
  today_window t =
      let today = local_date loc t in
      let now = local_date_bounds t in
      let after = start_bounds (today +ℤ pos 1 +ℤ pos 1) in
      let before = start_bounds (today +ℤ pos 1 -ℤ pos 2) in
      (omega (int_laws, now, after), omega (int_laws, now, before))

  unequal : (t : Time) (d e : Date) → d ≡ e +ℤ pos 1 → Owns t d → Owns t e → ⊥
  unequal t d e h od oe =
      let start : service_day_start loc (e +ℤ pos 1) ≤ℤ t = rw (← h) od.0 in omega arith

  -- Of two dates that own an instant neither is earlier.
  Owns_no_later : (t : Time) (d e : Date) → Owns t d → Owns t e → d ≤ℤ e
  Owns_no_later t d e od oe = elim (three_way d (e +ℤ pos 1)) [
    | lt h ↦ omega int_laws
    | eq h ↦ absurd (unequal t d e h od oe)
    | gt h ↦ absurd (omega (int_laws, start_bounds d, start_bounds (e +ℤ pos 1)))
  ]

  -- Every instant has exactly one owner, and the candidates are the owner and, while the instant is
  -- less than `overlap` past the owner's start, the day before it.
  pub candidate_service_dates-owner :
      (t : Time) (overlap : Duration)
      → (o : Date) × Owns t o
        × ((e : Date) → Owns t e → e ≡ o)
        × (candidate_service_dates loc t overlap ≡ (
            if ltb_ℤ (t -ℤ service_day_start loc o) overlap then o ∷ (o -ℤ pos 1) ∷ [] else o ∷ []))
  unfolding candidate_service_dates
  candidate_service_dates-owner t overlap =
      let (o, found, owns) =
        find_owner-Owns t 2 (local_date loc t +ℤ pos 1) (today_window t).0 (today_window t).1 in
      (
        o,
        owns,
        (λ e oe. omega (int_laws, Owns_no_later t o e owns oe, Owns_no_later t e o oe owns)),
        rw (found, candidates_of),
      )
