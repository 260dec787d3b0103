-- ===== src/Base/Dict.antt =====
-- Go's map over comparable keys, as an association list. The order of the entries is that of the
-- first write of each key; where the program ranges over a map, its results do not depend on it.
use headway.Base.Tests.{if◌then◌else◌, only_if, Bool-cases}
use headway.Base.Lists.{length}
use headway.Base.Eq.{Eq}
use Prim.Native.Nat.{suc, ◌≤◌}
use mathlib.Core.Path.{◌≡◌, refl, ◌∙◌, subst}
use mathlib.Core.Logic.{inl, inr}
use mathlib.Core.Bool.{Bool, true, false}
use mathlib.Core.Option.{Option, none, some}
use mathlib.Core.List.{List, [], ◌∷◌}
use native.Mathlib.Omega.{arith}

abbrev pub Dict {ℓ κ} : Type ℓ → Type κ → Type (ℓ ⊔ κ)
Dict K V = List (K × V)

pub beq_refl {ℓ} : {K : Type ℓ} ⦃e : Eq K⦄ (k : K) → e.beq k k ≡ true
beq_refl ⦃e⦄ k = (e.beq_iff k k).1 refl

module _ {ℓ κ} {K : Type ℓ} {V : Type κ} ⦃e : Eq K⦄ where
  -- v, ok := m[k]
  unfoldable pub get : K → Dict K V → Option V
  get k [] = none
  get k ((j, v) ∷ m) = if e.beq j k then some v else get k m

  -- m[k] = v
  unfoldable pub put : K → V → Dict K V → Dict K V
  put k v [] = (k, v) ∷ []
  put k v ((j, w) ∷ m) = let rest = put k v m in if e.beq j k then (k, v) ∷ m else (j, w) ∷ rest

  -- delete(m, k)
  unfoldable pub remove : K → Dict K V → Dict K V
  remove k [] = []
  remove k ((j, v) ∷ m) = let rest = remove k m in if e.beq j k then rest else (j, v) ∷ rest

  -- _, ok := m[k]
  abbrev pub has : K → Dict K V → Bool
  has k m = elim (get k m) [ none ↦ false | some v ↦ true ]

  pub get-put :
      (k j : K) (v : V) (m : Dict K V) → get j (put k v m) ≡ (if e.beq k j then some v else get j m)
  unfolding get put
  get-put k j v [] = refl
  get-put k j v ((i, w) ∷ m) =
      ground (arith, e.beq_iff k j, e.beq_iff i k, e.beq_iff i j, get-put k j v m)

  pub get-remove :
      (k j : K) (m : Dict K V) → get j (remove k m) ≡ (if e.beq k j then none else get j m)
  unfolding get remove
  get-remove k j [] = ground arith
  get-remove k j ((i, w) ∷ m) =
      ground (arith, e.beq_iff k j, e.beq_iff i k, e.beq_iff i j, get-remove k j m)

  pub get-put_self : (k : K) (v : V) (m : Dict K V) → get k (put k v m) ≡ some v
  get-put_self k v m = ground (arith, get-put k k v m, e.beq_iff k k)

  pub get-remove_self : (k : K) (m : Dict K V) → get k (remove k m) ≡ none
  get-remove_self k m = ground (arith, get-remove k k m, e.beq_iff k k)

  pub length-put :
      (k : K) (v : V) (m : Dict K V)
      → length (put k v m) ≡ (if has k m then length m else suc (length m))
  unfolding get put
  length-put k v [] = refl
  length-put k v ((i, w) ∷ m) = ground (arith, length-put k v m)

  pub length-remove-le : (k : K) (m : Dict K V) → length (remove k m) ≤ length m
  unfolding remove
  length-remove-le k [] = omega arith
  length-remove-le k ((i, w) ∷ m) = ground (arith, length-remove-le k m)

  pub has-none : (k : K) (m : Dict K V) → get k m ≡ none → has k m ≡ false
  has-none k m h = ground (arith, h)

  pub has-some : (k : K) (v : V) (m : Dict K V) → get k m ≡ some v → has k m ≡ true
  has-some k v m h = ground (arith, h)

  -- No key stands twice.
  abbrev pub Distinct : Dict K V → Type (ℓ ⊔ κ)
  Distinct [] = Unit
  Distinct ((k, v) ∷ m) = (get k m ≡ none) × Distinct m

  pub put-Distinct : (k : K) (v : V) (m : Dict K V) → Distinct m → Distinct (put k v m)
  unfolding get put
  put-Distinct k v [] h = (refl, tt)
  put-Distinct k v ((i, w) ∷ m) h = elim (Bool-cases (e.beq i k)) [
    | inl same ↦ rw (same, ← (e.beq_iff i k).0 same) (h.0, h.1)
    | inr other ↦ rw other (
      get-put k i v m ∙ ground (arith, e.beq_iff k i, e.beq_iff i k, h.0),
      put-Distinct k v m h.1,
    )
  ]

  -- The entries whose value passes a test.
  unfoldable pub select_values : (V → Bool) → Dict K V → Dict K V
  select_values p [] = []
  select_values p ((k, v) ∷ m) = let rest = select_values p m in if p v then (k, v) ∷ rest else rest

  get-select_values-none :
      (p : V → Bool) (k : K) (m : Dict K V) → get k m ≡ none → get k (select_values p m) ≡ none
  unfolding get select_values
  get-select_values-none p k [] h = refl
  get-select_values-none p k ((i, w) ∷ m) h = ground (arith, get-select_values-none p k m)

  pub select_values-Distinct :
      (p : V → Bool) (m : Dict K V) → Distinct m → Distinct (select_values p m)
  unfolding select_values
  select_values-Distinct p [] h = tt
  select_values-Distinct p ((i, w) ∷ m) h =
      ground (arith, get-select_values-none p i m h.0, select_values-Distinct p m h.1)

  pub get-select_values :
      (p : V → Bool) (k : K) (m : Dict K V)
      → Distinct m
      → get k (select_values p m) ≡ only_if p (get k m)
  unfolding get select_values
  get-select_values p k [] h = refl
  get-select_values p k ((i, w) ∷ m) h = elim (Bool-cases (e.beq i k)) [
    | inl same ↦ elim (Bool-cases (p w)) [
      | inl kept ↦ rw (same, kept, same) refl
      | inr left ↦
          rw (same, left)
            (get-select_values-none p k m
              (subst (λ x. get x m ≡ none) ((e.beq_iff i k).0 same) h.0))
    ]
    | inr other ↦ elim (Bool-cases (p w)) [
      | inl kept ↦ rw (other, kept, other) (get-select_values p k m h.1)
      | inr left ↦ rw (other, left) (get-select_values p k m h.1)
    ]
  ]
