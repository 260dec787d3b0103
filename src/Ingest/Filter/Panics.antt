-- ===== src/Ingest/Filter/Panics.antt =====
-- When admitting an observation panics.
use headway.Base.{
  ℕ, zero, suc, ◌/◌, ◌≤◌, Bool, true, false, ◌&&◌, not, [], ◌∷◌, length, leb, ltb, ◌≡◌, ◌↔◌, refl,
  arith,
}
use headway.Base.Dict.{Dict, get, has}
use headway.Ingest.{Observation, Key, key, key_eq}
use headway.Ingest.Filter.{Entry, Filter, at_least_one, admit_panics}

fits : (n q : ℕ) → q ≤ n → ltb (suc n) (at_least_one q) ≡ false
fits n zero h = ground arith
fits n (suc q) h = ground arith

quota_fits : (n : ℕ) → ltb (suc n) (at_least_one (suc n / 10)) ≡ false
quota_fits n = fits n (suc n / 10) (omega arith)

last_false : (a b c : Bool) → c ≡ false → ¬ ((a && b && c) ≡ true)
last_false a b c h e = ground arith

cons_not_nil : (e : Key × Entry) (m : Dict Key Entry) → ¬ (e ∷ m ≡ [])
cons_not_nil e m h = cc

panics_of :
    (k : Key) (m : Dict Key Entry) (max : ℕ)
    → ((not (has k m) && leb max (length m) && ltb (length m) (at_least_one (length m / 10)))
        ≡ true)
      ↔ ((max ≡ 0) × (m ≡ []))
unfolding get
panics_of k [] max = (λ h. (ground arith, refl), λ h. ground (arith, h.0))
panics_of k (e ∷ m) max = (
  λ h. absurd (
      last_false (not (has k (e ∷ m))) (leb max (suc (length m)))
        (ltb (suc (length m)) (at_least_one (suc (length m) / 10))) (quota_fits (length m)) h),
  λ h. absurd (cons_not_nil e m h.1),
)

-- Admitting panics exactly when the filter's bound is zero and it remembers nothing, for an observation
-- of any key.
pub admit_panics_lem :
    (o : Observation) (f : Filter)
    → (admit_panics o f ≡ true) ↔ ((f.max_entries ≡ 0) × (f.entries ≡ []))
unfolding admit_panics
admit_panics_lem o f = panics_of (key o) f.entries f.max_entries
