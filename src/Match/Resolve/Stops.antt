-- ===== src/Match/Resolve/Stops.antt =====
-- Which call of its trip an update resolves to.
use headway.Base.{
  ℕ, uint32, String, str_eq, eq_iff, List, [], ◌∷◌, Option, none, some, if◌then◌else◌, Bool, true,
  false, select, arith, ◌≡◌, ◌⊎◌, ◌↔◌, refl, sym, ◌∙◌, subst, Option-cases, inl, inr, ◌==◌,
  some_ne_none, some_injective,
}
use headway.Gtfsrt.{RawUpdate}
use headway.Match.Schedule.{StopTime, Trip}
use headway.Match.Resolve.{
  find_sequence, by_sequence, find_stop, by_stop_id, sequenced, resolve_stop,
}

-- The calls of a trip at a stop.
pub calls_at : String → List StopTime → List StopTime
calls_at id = select (λ st. str_eq st.stop_id id)

-- The only one of them, and whether there are several.
pub only : List StopTime → Option StopTime × Bool
only [] = (none, false)
only (st ∷ []) = (some st, false)
only (st ∷ st' ∷ sts) = (none, true)

only_with : Option StopTime → List StopTime → Option StopTime × Bool
unfolding only
only_with none sts = only sts
only_with (some st) [] = (some st, false)
only_with (some st) (st' ∷ sts) = (none, true)

find_stop_lem :
    (id : String) (found : Option StopTime) (sts : List StopTime)
    → find_stop id found sts ≡ only_with found (calls_at id sts)
unfolding find_stop only_with calls_at
find_stop_lem id none [] = refl
find_stop_lem id (some st) [] = refl
find_stop_lem id none (st ∷ sts) =
    ground (arith, find_stop_lem id (some st) sts, find_stop_lem id none sts)
find_stop_lem id (some f) (st ∷ sts) = ground (arith, find_stop_lem id (some f) sts)

abbrev pub head : List StopTime → Option StopTime
head [] = none
head (st ∷ sts) = some st

-- The first call of a trip with a sequence number.
pub numbered : ℕ → List StopTime → Option StopTime
numbered n sts = head (select (λ st. uint32 st.seq == n) sts)

find_sequence_lem : (n : ℕ) (sts : List StopTime) → find_sequence n sts ≡ numbered n sts
unfolding find_sequence numbered
find_sequence_lem n [] = refl
find_sequence_lem n (st ∷ sts) = ground (arith, find_sequence_lem n sts)

-- The update gives the number of a call, the first with it, and names that call's stop, or none.
pub record Names (t : Trip) (u : RawUpdate) (st : StopTime) : Type 0 where
  pub number : ℕ
  pub given : u.stop_sequence ≡ some number
  pub first : numbered number t.stops ≡ some st
  pub named : (u.stop_id ≡ "") ⊎ (u.stop_id ≡ st.stop_id)

by_sequence_lem :
    (id : String) (o : Option StopTime) (st : StopTime)
    → (by_sequence id o ≡ some st) ↔ ((o ≡ some st) × ((id ≡ "") ⊎ (id ≡ st.stop_id)))
unfolding by_sequence
by_sequence_lem id none st = (λ h. cc, λ h. cc)
by_sequence_lem id (some s) st = (
  (λ h. ground (arith, eq_iff id "", eq_iff id s.stop_id)),
  λ h. ground (arith, eq_iff id "", eq_iff id s.stop_id, h),
)

sequenced_lem :
    (t : Trip) (u : RawUpdate) (st : StopTime) → (sequenced t u ≡ some st) ↔ Names t u st
unfolding sequenced
sequenced_lem t u st = elim (Option-cases u.stop_sequence) [
  | inl missing ↦ (
    (λ h. some_ne_none {a = st} (sym (rw (missing, sequenced) at h))),
    λ h. some_ne_none {a = h.number} (sym h.given ∙ missing),
  )
  | inr (n, there) ↦
      let found = by_sequence_lem u.stop_id (find_sequence n t.stops) st in
      (
        (λ h.
            let (first, named) = found.0 (rw (there, sequenced) at h) in
            record {
              number = n;
              given = there;
              first = sym (find_sequence_lem n t.stops) ∙ first;
              named = named;
            }),
        λ h.
            let same : h.number ≡ n = some_injective (sym h.given ∙ there) in
            rw (there, sequenced)
              (found.1 (
                find_sequence_lem n t.stops
                    ∙ subst (λ k. numbered k t.stops ≡ some st) same h.first,
                h.named,
              )),
      )
]

calls_at-only : (id : String) (sts : List StopTime) → find_stop id none sts ≡ only (calls_at id sts)
unfolding only_with
calls_at-only id sts = find_stop_lem id none sts

-- If an update gives the sequence number of a call, and no stop id or that of the first call with the
-- number, it resolves to that call. If it names no call in this way, it resolves to the trip's only call
-- at its stop id; to none without a stop id or a call there; and it is ambiguous, with no stop, where the
-- trip calls there more than once.
pub resolve_stop_lem :
    (t : Trip) (u : RawUpdate)
    → ((st : StopTime) → Names t u st → resolve_stop t u ≡ (some st, false))
      × (((st : StopTime) → ¬ Names t u st)
          → resolve_stop t u
            ≡ (if str_eq u.stop_id "" then (none, false) else only (calls_at u.stop_id t.stops)))
unfolding resolve_stop by_stop_id
resolve_stop_lem t u = (
  (λ st h. rw ((sequenced_lem t u st).1 h, resolve_stop) refl),
  λ h. elim (Option-cases (sequenced t u)) [
    | inl missing ↦ rw (missing, resolve_stop) (rw calls_at-only refl)
    | inr (st, found) ↦ absurd (h st ((sequenced_lem t u st).0 found))
  ],
)
