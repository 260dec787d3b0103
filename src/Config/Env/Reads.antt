-- ===== src/Config/Env/Reads.antt =====
-- What a typed value of the environment is.
use headway.Base.{
  String, true, List, [], ◌∷◌, Option, none, some, All, inl, inr, ◌≡◌, refl, sym, subst, Bool-cases,
  some_ne_none, some_injective,
}
use headway.Config.Env.{malformed, Parsers, Read, raw, or_default, parsed_value, match_of, enum}

module _ (p : Parsers) (lookup : String → Option String) where
  -- How a value came about: the variable is not set, or its value parses, or does not.
  pub data Source {ℓ} {A : Type ℓ} (parse : String → Option A) (key : String) (def : A)
      : Read A → Type ℓ where
    unset : raw p lookup key ≡ none → Source parse key def (def, [])
    good :
        (v : String) (a : A)
        → raw p lookup key ≡ some v
        → parse v ≡ some a
        → Source parse key def (a, [])
    bad :
        (v : String)
        → raw p lookup key ≡ some v
        → parse v ≡ none
        → Source parse key def (def, malformed key v ∷ [])

  parsed-Source {ℓ} :
      {A : Type ℓ} (parse : String → Option A) (key : String) (def : A) (o : Option String)
      → raw p lookup key ≡ o
      → Source parse key def (parsed_value p lookup parse key def o)
  parsed-Source parse key def none h = unset h
  parsed-Source {A = A} parse key def (some v) h = split (parse v) refl
    where
      split : (o : Option A) → parse v ≡ o → Source parse key def (or_default p lookup key v def o)
      split none e = bad v h e
      split (some a) e = good v a h e

  match_of-All :
      (P : String → Type 0) (v : String) (allowed : List String) (a : String)
      → All P allowed
      → match_of p lookup v allowed ≡ some a
      → P a × (p.equal_fold v a ≡ true)
  unfolding match_of
  match_of-All P v [] a h e = some_ne_none {a = a} (sym e)
  match_of-All P v (b ∷ allowed) a h e = elim (Bool-cases (p.equal_fold v b)) [
    | inl same ↦
        let it : b ≡ a = some_injective (rw same at e) in
        (subst P it h.0, subst (λ x. p.equal_fold v x ≡ true) it same)
    | inr other ↦ match_of-All P v allowed a h.1 (rw other at e)
  ]

  parsed_value-P :
      (P : String → Type 0) (key def : String) (allowed : List String) (o : Option String)
      → P def
      → All P allowed
      → P (parsed_value p lookup (λ v. match_of p lookup v allowed) key def o).0
  parsed_value-P P key def allowed none hd h = hd
  parsed_value-P P key def allowed (some v) hd h = split (match_of p lookup v allowed) refl
    where
      split :
          (m : Option String)
          → match_of p lookup v allowed ≡ m
          → P (or_default p lookup key v def m).0
      split none e = hd
      split (some a) e = (match_of-All P v allowed a h e).0

  -- A variable with a fixed set of values is the default or one of them, in the spelling of the program and
  -- not of the environment; and it is recorded as a problem exactly if it is set, not only to spaces, and
  -- equals none of them up to case.
  pub enum_lem :
      (key def : String) (allowed : List String)
      → Source (λ v. match_of p lookup v allowed) key def (enum p lookup key def allowed)
        × ((P : String → Type 0) → P def → All P allowed → P (enum p lookup key def allowed).0)
  unfolding enum
  enum_lem key def allowed = (
    parsed-Source (λ v. match_of p lookup v allowed) key def (raw p lookup key) refl,
    λ P hd h. parsed_value-P P key def allowed (raw p lookup key) hd h,
  )
