-- ===== src/Match/Resolve/Delays.antt =====
-- The delay of one event: the producer's, or what its time amounts to.
use headway.Base.{
  ℤ, pos, negsuc, ◌+ℤ◌, ◌-ℤ◌, ◌≤ℤ◌, ◌<ℤ◌, div_ℤ, int32, int32_id, IsInt32, int_laws, ltb_ℤ, eqb_ℤ,
  true, false, ◌||◌, none, some, arith, ◌≡◌, ◌≢◌, ◌⊎◌, refl, ◌↔◌, eqb_ℤ_iff, inl, inr, ◌∙◌, ap,
}
use headway.ServiceTime.{Date, Zone, second, at_service_offset}
use headway.Match.Schedule.{no_time}
use headway.Match.Counts.{Options}
use headway.Match.Resolve.{computed_delay, disagrees, derive}

cancel : (a b : ℤ) → a +ℤ b -ℤ a ≡ b
cancel a b = omega int_laws

-- The seconds of the instant that the timetable gives.
abbrev pub scheduled_unix : Zone → Date → ℤ → ℤ
scheduled_unix loc d s = div_ℤ (at_service_offset loc d s) second

computed_delay_exact :
    (loc : Zone) (d : Date) (s late : ℤ)
    → IsInt32 late
    → computed_delay loc (scheduled_unix loc d s +ℤ late) d s ≡ late
unfolding computed_delay
computed_delay_exact loc d s late fits =
    ap int32 (cancel (scheduled_unix loc d s) late) ∙ int32_id late fits

or_iff : (a b c d : ℤ) → ((ltb_ℤ a b || ltb_ℤ c d) ≡ true) ↔ ((a <ℤ b) ⊎ (c <ℤ d))
or_iff a b c d = ground arith

apart_by :
    (tol late given : ℤ)
    → ((ltb_ℤ tol (late -ℤ given) || ltb_ℤ (late -ℤ given) (pos 0 -ℤ tol)) ≡ true)
      ↔ ((tol +ℤ given <ℤ late) ⊎ (tol +ℤ late <ℤ given))
apart_by tol late given =
    let flag = or_iff tol (late -ℤ given) (late -ℤ given) (pos 0 -ℤ tol) in
    (
      λ h. elim (flag.0 h) [ inl a ↦ inl (omega int_laws) | inr b ↦ inr (omega int_laws) ],
      λ h. flag.1 (elim h [ inl a ↦ inl (omega int_laws) | inr b ↦ inr (omega int_laws) ]),
    )

negated_fits : (v : ℤ) → IsInt32 v → pos 0 ≤ℤ v → IsInt32 (pos 0 -ℤ v)
unfolding ◌-ℤ◌
negated_fits (pos n) h nonneg = ground arith
negated_fits (negsuc n) h nonneg = absurd (omega arith)

disagrees_lem :
    (opts : Options) (late given : ℤ)
    → IsInt32 (late -ℤ given)
    → IsInt32 opts.reconcile_s
    → pos 0 ≤ℤ opts.reconcile_s
    → (disagrees opts late given ≡ true)
      ↔ ((opts.reconcile_s +ℤ given <ℤ late) ⊎ (opts.reconcile_s +ℤ late <ℤ given))
unfolding disagrees
disagrees_lem opts late given fits small nonneg =
    rw
      (
        int32_id (late -ℤ given) fits,
        int32_id (pos 0 -ℤ opts.reconcile_s) (negated_fits opts.reconcile_s small nonneg),
      )
      (apart_by opts.reconcile_s late given)

untimed : (s : ℤ) → s ≢ no_time → eqb_ℤ s no_time ≡ false
untimed s h = ground (arith, eqb_ℤ_iff s no_time)

-- An event `late` seconds after the timetable's time, a difference that 32 bits hold, amounts to
-- exactly that delay where the producer gives none. Where it gives one, that is kept, and the two disagree
-- exactly when they are more than the tolerance apart, if 32 bits hold their difference.
pub derive_lem :
    (loc : Zone) (opts : Options) (d : Date) (s late given : ℤ)
    → s ≢ no_time
    → IsInt32 late
    → IsInt32 (late -ℤ given)
    → IsInt32 opts.reconcile_s
    → pos 0 ≤ℤ opts.reconcile_s
    → let event = some (scheduled_unix loc d s +ℤ late) in
      (derive loc opts none event d s ≡ (some late, false))
      × ((derive loc opts (some given) event d s).0 ≡ some given)
      × (((derive loc opts (some given) event d s).1 ≡ true)
          ↔ ((opts.reconcile_s +ℤ given <ℤ late) ⊎ (opts.reconcile_s +ℤ late <ℤ given)))
unfolding derive
derive_lem loc opts d s late given timed fits near small nonneg =
    rw (untimed s timed, computed_delay_exact loc d s late fits)
      (refl, refl, disagrees_lem opts late given near small nonneg)
