-- ===== src/Ingest/Filter/Changes.antt =====
-- What the filter lets through.
use headway.Base.{
  ℕ, suc, ◌<◌, ℤ, pos, pos_part, neg_part, ◌-ℤ◌, ◌+ℤ◌, ◌≤ℤ◌, ◌<ℤ◌, int32, int32_id, IsInt32,
  eqb_ℤ_iff, ltb_ℤ, Bool, true, false, none, some, if◌then◌else◌, arith, ◌≡◌, ◌≢◌, ◌⊎◌, ◌↔◌, refl,
  inl, inr, Option-cases, Bool-cases, -ℤ_parts, +ℤ_parts,
}
use headway.Base.Dict.{get, get-put_self, get-remove_self}
use headway.Ingest.{Observation, key, key_eq}
use headway.Ingest.Filter.{
  Entry, Filter, abs32, changed, entry_of, admit, forget, make_room, record_entry, beq,
  evict_oldest,
}

-- More than `min_delta` apart.
abbrev pub Apart : ℤ → ℤ → ℤ → Type 0
Apart d a b = (a +ℤ d <ℤ b) ⊎ (b +ℤ d <ℤ a)

negate-IsInt32 :
    (v : ℤ) → pos_part v < 2_147_483_648 → neg_part v < 2_147_483_648 → IsInt32 (pos 0 -ℤ v)
unfolding ◌-ℤ◌
negate-IsInt32 v h k = (ground arith, ground arith)

abs32_plain :
    (v : ℤ)
    → pos_part v < 2_147_483_648
    → neg_part v < 2_147_483_648
    → abs32 (int32 v) ≡ (if ltb_ℤ v (pos 0) then pos 0 -ℤ v else v)
unfolding abs32
abs32_plain v h k =
    ground (arith, int32_id v (h, omega arith), int32_id (pos 0 -ℤ v) (negate-IsInt32 v h k))

abs_lem :
    (v a b d : ℤ)
    → v ≡ b -ℤ a
    → pos 0 ≤ℤ d
    → (ltb_ℤ d (if ltb_ℤ v (pos 0) then pos 0 -ℤ v else v) ≡ true) ↔ Apart d a b
abs_lem v a b d e nonneg =
    ground (arith, -ℤ_parts b a, -ℤ_parts (pos 0) v, +ℤ_parts a d, +ℤ_parts b d)

-- A delay and the one before, whose difference fits the type it is computed in.
abs32_lem :
    (a b d : ℤ)
    → pos_part (b -ℤ a) < 2_147_483_648
    → neg_part (b -ℤ a) < 2_147_483_648
    → pos 0 ≤ℤ d
    → (ltb_ℤ d (abs32 (int32 (b -ℤ a))) ≡ true) ↔ Apart d a b
abs32_lem a b d h k nonneg = rw (abs32_plain (b -ℤ a) h k) (abs_lem (b -ℤ a) a b d refl nonneg)

-- Two entries differ for the filter exactly when their statuses differ, one alone has a delay, or
-- both have one and these are more than the threshold apart, if the threshold is not negative and
-- the delays are less than 2^31 seconds apart.
pub changed_iff :
    (prev now : Entry) (min_delta : ℤ)
    → pos_part (now.delay -ℤ prev.delay) < 2_147_483_648
    → neg_part (now.delay -ℤ prev.delay) < 2_147_483_648
    → pos 0 ≤ℤ min_delta
    → (changed prev now min_delta ≡ true) ↔ (
        (prev.stop_time_rel ≢ now.stop_time_rel)
        ⊎ (prev.trip_rel ≢ now.trip_rel)
        ⊎ (prev.matched ≢ now.matched)
        ⊎ (prev.has_delay ≢ now.has_delay)
        ⊎ ((now.has_delay ≡ true) × Apart min_delta prev.delay now.delay))
unfolding changed
changed_iff prev now min_delta h k nonneg = ground (
  arith,
  eqb_ℤ_iff prev.stop_time_rel now.stop_time_rel,
  eqb_ℤ_iff prev.trip_rel now.trip_rel,
  abs32_lem prev.delay now.delay min_delta h k nonneg,
)

sub_self : (a : ℤ) → a -ℤ a ≡ pos 0
unfolding ◌-ℤ◌
sub_self a = ground arith

beq_self : (b : Bool) → beq b b ≡ true
beq_self b = ground arith

-- The number of an entry is not looked at.
changed_self :
    (now : Entry) (n : ℕ) (d : ℤ) → pos 0 ≤ℤ d → changed (record now { seq = n }) now d ≡ false
unfolding changed
changed_self now n d nonneg = ground (
  arith,
  eqb_ℤ_iff now.stop_time_rel now.stop_time_rel,
  eqb_ℤ_iff now.trip_rel now.trip_rel,
  beq_self now.matched,
  beq_self now.has_delay,
  sub_self now.delay,
  abs32_plain (now.delay -ℤ now.delay),
)

pub admit_known :
    (o : Observation) (f : Filter) (prev : Entry)
    → get (key o) f.entries ≡ some prev
    → admit o f ≡ (
        if changed prev (entry_of o) f.min_delta
        then (record_entry (key o) (entry_of o) f, true)
        else (record f { suppressed = suc f.suppressed }, false))
unfolding admit
admit_known o f prev e = rw (e, admit)

pub admit_unknown :
    (o : Observation) (f : Filter)
    → get (key o) f.entries ≡ none
    → admit o f ≡ (record_entry (key o) (entry_of o) (make_room f), true)
unfolding admit
admit_unknown o f e = rw (e, admit)

admit_recorded :
    (o : Observation) (f : Filter)
    → pos 0 ≤ℤ f.min_delta
    → admit o (record_entry (key o) (entry_of o) f)
      ≡ (record (record_entry (key o) (entry_of o) f) { suppressed = suc f.suppressed }, false)
unfolding record_entry
admit_recorded o f nonneg = rw (
  admit_known o (record_entry (key o) (entry_of o) f) (record (entry_of o) { seq = suc f.seq })
      (get-put_self (key o) (record (entry_of o) { seq = suc f.seq }) f.entries),
  changed_self (entry_of o) (suc f.seq) f.min_delta nonneg,
)

make_room-min_delta : (f : Filter) → (make_room f).min_delta ≡ f.min_delta
unfolding make_room evict_oldest
make_room-min_delta f = ground arith

-- The same observation again is suppressed, if the threshold is not negative: of two admissions in
-- a row the second answers no, and changes nothing but the count of the suppressed.
pub admit-admit :
    (o : Observation) (f : Filter)
    → pos 0 ≤ℤ f.min_delta
    → admit o (admit o f).0
      ≡ (record (admit o f).0 { suppressed = suc (admit o f).0.suppressed }, false)
unfolding record_entry
admit-admit o f nonneg = elim (Option-cases (get (key o) f.entries)) [
  | inl e ↦
      rw (admit_unknown o f e) (admit_recorded o (make_room f) (rw (make_room-min_delta f) nonneg))
  | inr (prev, e) ↦ elim (Bool-cases (changed prev (entry_of o) f.min_delta)) [
    | inl h ↦ rw (admit_known o f prev e, h) (admit_recorded o f nonneg)
    | inr h ↦ rw (
      admit_known o f prev e,
      h,
      admit_known o (record f { suppressed = suc f.suppressed }) prev e,
      h,
    )
  ]
]

-- What was forgotten is admitted.
pub admit-forget : (o : Observation) (f : Filter) → (admit o (forget (key o) f)).1 ≡ true
unfolding forget
admit-forget o f = rw (admit_unknown o (forget (key o) f) (get-remove_self (key o) f.entries))
