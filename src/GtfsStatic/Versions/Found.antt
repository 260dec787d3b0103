-- ===== src/GtfsStatic/Versions/Found.antt =====
-- The version that the look-up by hash finds.
use headway.Base.{
  ℕ, ◌<◌, ◌≤◌, String, str_eq, eq_iff, Bool, true, ◌&&◌, ◌||◌, List, [], ◌∷◌, some, inl, inr, All,
  ◌==◌, ◌≡◌, sym, subst, arith, Bool-cases, some_injective, some_ne_none,
}
use headway.GtfsStatic.Versions.{Version, look_up}
use headway.GtfsStatic.Versions.Active.{serves, active_sha, actives, Ordered, Owned, has_id}

pub is_it : String → String → Version → Bool
is_it feed sha v = str_eq v.feed_id feed && str_eq v.sha sha

pub is_it_lem :
    (feed sha : String) (v : Version) → is_it feed sha v ≡ true → (v.feed_id ≡ feed) × (v.sha ≡ sha)
unfolding is_it
is_it_lem feed sha v h = ground (arith, eq_iff v.feed_id feed, eq_iff v.sha sha)

module _ (feed sha : String) where
  pub look_up-All :
      (P : Version → Type 0) (vs : List Version) (v : Version)
      → All P vs
      → look_up feed sha vs ≡ some v
      → P v × (is_it feed sha v ≡ true) × (has_id feed v.id vs ≡ true)
  unfolding look_up is_it has_id
  look_up-All P [] v h e = some_ne_none {a = v} (sym e)
  look_up-All P (w ∷ vs) v h e = elim (Bool-cases (is_it feed sha w)) [
    | inl it ↦
        let same : w ≡ v = some_injective (rw it at e) in
        (
          subst P same h.0,
          subst (λ x. is_it feed sha x ≡ true) same it,
          subst (λ x. (w.id == x.id) || has_id feed x.id vs ≡ true) same (ground arith),
        )
    | inr other ↦
        let deeper = look_up-All P vs v h.1 (rw other at e) in
        (deeper.0, deeper.1, ground (arith, deeper.2))
  ]

  above_not : (n : ℕ) (vs : List Version) → All (λ w. n < w.id) vs → All (Owned feed n sha) vs
  above_not n [] h = tt
  above_not n (w ∷ vs) h = (λ e. absurd (omega (arith, h.0)), above_not n vs h.1)

  pub look_up-Owned :
      (vs : List Version) (v : Version)
      → Ordered vs
      → look_up feed sha vs ≡ some v
      → All (Owned feed v.id sha) vs
  unfolding look_up is_it
  look_up-Owned [] v h e = tt
  look_up-Owned (w ∷ vs) v h e = elim (Bool-cases (is_it feed sha w)) [
    | inl it ↦
        let same : w ≡ v = some_injective (rw it at e) in
        subst (λ x. All (Owned feed x.id sha) (w ∷ vs)) same
          (λ _. is_it_lem feed sha w it, above_not w.id vs h.0)
    | inr other ↦
        let e' = rw other at e in
        let later = (look_up-All (λ x. w.id < x.id) vs v h.0 e').0 in
        (λ same. absurd (omega (arith, later)), look_up-Owned vs v h.1 e')
  ]

  look_up-counted :
      (vs : List Version) (v : Version)
      → look_up feed sha vs ≡ some v
      → v.is_active ≡ true
      → 1 ≤ actives feed vs
  unfolding look_up is_it actives
  look_up-counted [] v e on = some_ne_none {a = v} (sym e)
  look_up-counted (w ∷ vs) v e on = elim (Bool-cases (is_it feed sha w)) [
    | inl it ↦
        let same : w ≡ v = some_injective (rw it at e) in
        let lit : w.is_active ≡ true = rw same on in
        ground (arith, (is_it_lem feed sha w it).0, eq_iff w.feed_id feed, lit)
    | inr other ↦ let deeper = look_up-counted vs v (rw other at e) on in ground (arith, deeper)
  ]

  -- A bundle found active is the one in use.
  pub look_up-active :
      (vs : List Version) (v : Version)
      → actives feed vs ≤ 1
      → look_up feed sha vs ≡ some v
      → v.is_active ≡ true
      → active_sha feed vs ≡ some sha
  unfolding look_up is_it actives active_sha
  look_up-active [] v one e on = some_ne_none {a = v} (sym e)
  look_up-active (w ∷ vs) v one e on = elim (Bool-cases (is_it feed sha w)) [
    | inl it ↦
        let same : w ≡ v = some_injective (rw it at e) in
        let lit : w.is_active ≡ true = rw same on in
        let own = is_it_lem feed sha w it in
        ground (arith, own.0, own.1, eq_iff w.feed_id feed, lit)
    | inr other ↦
        let e' = rw other at e in
        elim (Bool-cases (serves feed w)) [
          | inl two ↦ absurd (omega (arith, look_up-counted vs v e' on, rw two at one))
          | inr off ↦ rw off (look_up-active vs v (omega (arith, rw off at one)) e' on)
        ]
  ]
