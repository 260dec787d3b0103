-- ===== src/GtfsStatic/Versions/Active.antt =====
-- Which bundle is in use for a feed, and what the statements do to that.
use headway.Base.{
  ℕ, ◌+◌, ◌<◌, ◌≤◌, String, str_eq, eq_iff, Bool, true, false, ◌&&◌, ◌||◌, List, [], ◌∷◌, ◌++◌,
  Option, none, some, inl, inr, if◌then◌else◌, select, All, All-append, All-select, ◌==◌, ==_iff,
  ◌≡◌, ◌≢◌, refl, ap, ◌∙◌, arith, Bool-cases,
}
use headway.GtfsStatic.Versions.{Version, deactivated, activated, activate}

abbrev pub serves : String → Version → Bool
serves feed v = str_eq v.feed_id feed && v.is_active

-- The hash of the bundle in use.
unfoldable pub active_sha : String → List Version → Option String
active_sha feed [] = none
active_sha feed (v ∷ vs) = if serves feed v then some v.sha else active_sha feed vs

-- How many versions of a feed are active.
unfoldable pub actives : String → List Version → ℕ
actives feed [] = 0
actives feed (v ∷ vs) = (if serves feed v then 1 else 0) + actives feed vs

-- The ids ascend.
abbrev pub Ordered : List Version → Type 0
Ordered [] = Unit
Ordered (v ∷ vs) = All (λ w. v.id < w.id) vs × Ordered vs

module _ (feed : String) (id : ℕ) where
  step : Version → Version
  step v = activated id (deactivated feed v)

  activate-cons :
      (v : Version) (vs : List Version) → activate feed id (v ∷ vs) ≡ step v ∷ activate feed id vs
  unfolding activate step
  activate-cons v vs = refl

  step-id : (v : Version) → (step v).id ≡ v.id
  unfolding step
  step-id v = ground arith

  activate-above :
      (n : ℕ) (vs : List Version)
      → All (λ w. n < w.id) vs
      → All (λ w. n < w.id) (activate feed id vs)
  unfolding activate
  activate-above n [] h = tt
  activate-above n (v ∷ vs) h = ground (arith, activate-above n vs h.1)

  pub activate-below :
      (n : ℕ) (vs : List Version)
      → All (λ w. w.id < n) vs
      → All (λ w. w.id < n) (activate feed id vs)
  unfolding activate
  activate-below n [] h = tt
  activate-below n (v ∷ vs) h = ground (arith, activate-below n vs h.1)

  pub activate-Ordered : (vs : List Version) → Ordered vs → Ordered (activate feed id vs)
  activate-Ordered [] h = unfold activate in tt
  activate-Ordered (v ∷ vs) h =
      rw (activate-cons v vs) (rw (step-id v) (activate-above v.id vs h.0), activate-Ordered vs h.1)

  -- Who has the id is of the feed, and has this hash.
  abbrev pub Owned : String → Version → Type 0
  Owned sha v = v.id ≡ id → (v.feed_id ≡ feed) × (v.sha ≡ sha)

  step-sha : (v : Version) → (step v).sha ≡ v.sha
  unfolding step
  step-sha v = ground arith

  serves-step_other :
      (other sha : String) (v : Version)
      → other ≢ feed
      → Owned sha v
      → serves other (step v) ≡ serves other v
  unfolding step
  serves-step_other other sha v ne h = elim (Bool-cases (v.id == id)) [
    | inl same ↦
        let own = h ((==_iff v.id id).0 same) in ground (arith, eq_iff v.feed_id other, own.0, ne)
    | inr different ↦ ground (arith, eq_iff v.feed_id feed, eq_iff v.feed_id other, ne)
  ]

  serves-step : (sha : String) (v : Version) → Owned sha v → serves feed (step v) ≡ (v.id == id)
  unfolding step
  serves-step sha v h = elim (Bool-cases (v.id == id)) [
    | inl same ↦
        let own = h ((==_iff v.id id).0 same) in ground (arith, eq_iff v.feed_id feed, own.0)
    | inr different ↦ ground (arith, eq_iff v.feed_id feed)
  ]

  pub active_sha-activate_other :
      (other sha : String) (vs : List Version)
      → other ≢ feed
      → All (Owned sha) vs
      → active_sha other (activate feed id vs) ≡ active_sha other vs
  unfolding active_sha activate step
  active_sha-activate_other other sha [] ne h = refl
  active_sha-activate_other other sha (v ∷ vs) ne h =
      let e = serves-step_other other sha v ne h.0 in
      let s = step-sha v in
      let rest = active_sha-activate_other other sha vs ne h.1 in ground (arith, e, s, rest)

  active_first :
      (sha : String) (v : Version) (rest : List Version)
      → Owned sha v
      → ((v.id == id) ≡ false → active_sha feed rest ≡ some sha)
      → active_sha feed (step v ∷ rest) ≡ some sha
  unfolding active_sha
  active_first sha v rest h later = elim (Bool-cases (v.id == id)) [
    | inl same ↦
        rw (serves-step sha v h ∙ same) (ap some (step-sha v ∙ (h ((==_iff v.id id).0 same)).1))
    | inr different ↦ rw (serves-step sha v h ∙ different) (later different)
  ]

  unfoldable pub has_id : List Version → Bool
  has_id [] = false
  has_id (v ∷ vs) = (v.id == id) || has_id vs

  pub active_sha-activate :
      (sha : String) (vs : List Version)
      → has_id vs ≡ true
      → All (Owned sha) vs
      → active_sha feed (activate feed id vs) ≡ some sha
  unfolding active_sha activate has_id step
  active_sha-activate sha [] here h = cc
  active_sha-activate sha (v ∷ vs) here h =
      active_first sha v (activate feed id vs) h.0
        (λ absent. active_sha-activate sha vs (ground (arith, here, absent)) h.1)

  pub actives-activate_other :
      (other sha : String) (vs : List Version)
      → other ≢ feed
      → All (Owned sha) vs
      → actives other (activate feed id vs) ≡ actives other vs
  unfolding actives activate step
  actives-activate_other other sha [] ne h = refl
  actives-activate_other other sha (v ∷ vs) ne h =
      let e = serves-step_other other sha v ne h.0 in
      let rest = actives-activate_other other sha vs ne h.1 in ground (arith, e, rest)

  count_id : List Version → ℕ
  count_id [] = 0
  count_id (v ∷ vs) = (if v.id == id then 1 else 0) + count_id vs

  actives-activate :
      (sha : String) (vs : List Version)
      → All (Owned sha) vs
      → actives feed (activate feed id vs) ≡ count_id vs
  unfolding actives activate step count_id
  actives-activate sha [] h = refl
  actives-activate sha (v ∷ vs) h =
      let e = serves-step sha v h.0 in
      let rest = actives-activate sha vs h.1 in ground (arith, e, rest)

  count_id-above : (n : ℕ) (vs : List Version) → id ≤ n → All (λ w. n < w.id) vs → count_id vs ≡ 0
  unfolding count_id
  count_id-above n [] le h = refl
  count_id-above n (v ∷ vs) le h = ground (arith, count_id-above n vs le h.1)

  count_id-le : (vs : List Version) → Ordered vs → count_id vs ≤ 1
  unfolding count_id
  count_id-le [] h = omega arith
  count_id-le (v ∷ vs) h = elim (Bool-cases (v.id == id)) [
    | inl same ↦
        rw same
          (omega (arith, count_id-above v.id vs (ground (arith, (==_iff v.id id).0 same)) h.0))
    | inr different ↦ rw different (omega (arith, count_id-le vs h.1))
  ]

  pub actives-activate-le :
      (sha : String) (vs : List Version)
      → Ordered vs
      → All (Owned sha) vs
      → actives feed (activate feed id vs) ≤ 1
  actives-activate-le sha vs o h = rw (actives-activate sha vs h) (count_id-le vs o)

-- Deleting rows that are not active.
module _ (p : Version → Bool) where
  abbrev pub KeepsActive : Version → Type 0
  KeepsActive v = v.is_active ≡ true → p v ≡ true

  pub active_sha-select :
      (feed : String) (vs : List Version)
      → All KeepsActive vs
      → active_sha feed (select p vs) ≡ active_sha feed vs
  unfolding active_sha
  active_sha-select feed [] h = refl
  active_sha-select feed (v ∷ vs) h =
      let rest = active_sha-select feed vs h.1 in
      elim (Bool-cases v.is_active) [
        | inl on ↦ ground (arith, h.0 on, rest)
        | inr off ↦ ground (arith, off, rest)
      ]

  pub actives-select-le :
      (feed : String) (vs : List Version) → actives feed (select p vs) ≤ actives feed vs
  unfolding actives
  actives-select-le feed [] = omega arith
  actives-select-le feed (v ∷ vs) = ground (arith, actives-select-le feed vs)

  pub select-Ordered : (vs : List Version) → Ordered vs → Ordered (select p vs)
  select-Ordered [] h = tt
  select-Ordered (v ∷ vs) h =
      ground (arith, All-select (λ w. v.id < w.id) p vs h.0, select-Ordered vs h.1)

-- Appending a row that is not active.
module _ (v : Version) (off : v.is_active ≡ false) where
  pub active_sha-append :
      (feed : String) (vs : List Version) → active_sha feed (vs ++ v ∷ []) ≡ active_sha feed vs
  unfolding active_sha
  active_sha-append feed [] = ground (arith, off)
  active_sha-append feed (w ∷ vs) = rw (active_sha-append feed vs) refl

  pub actives-append :
      (feed : String) (vs : List Version) → actives feed (vs ++ v ∷ []) ≡ actives feed vs
  unfolding actives
  actives-append feed [] = ground (arith, off)
  actives-append feed (w ∷ vs) = rw (actives-append feed vs) refl

pub append-Ordered :
    (v : Version) (vs : List Version)
    → All (λ w. w.id < v.id) vs
    → Ordered vs
    → Ordered (vs ++ v ∷ [])
append-Ordered v [] below h = (tt, tt)
append-Ordered v (w ∷ vs) below h =
    (All-append (λ x. w.id < x.id) vs (v ∷ []) h.0 (below.0, tt), append-Ordered v vs below.1 h.1)
