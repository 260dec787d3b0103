-- ===== src/Api/Board/Params.antt =====
-- What intParam makes of a parameter's text.
use headway.Base.{
  ℤ, ◌≤ℤ◌, ltb_ℤ, String, str_eq, eq_iff, true, Option, none, some, ◌⊎◌, ◌≢◌, ◌||◌, inl, inr, ◌≡◌,
  refl, sym, ◌∙◌, subst, arith, Bool-cases, Option-cases, some_injective, some_ne_none,
}
use headway.Base.Eq.{string_eq}
use headway.Civil.{codes}
use headway.GtfsStatic.Row.{atoi}
use headway.Api.Board.{int_param}

-- `n` is what a parameter's text gives: the default for no text, else a number in the range.
abbrev pub Given : String → ℤ → ℤ → ℤ → ℤ → Type 0
Given v def lo hi n =
    ((v ≡ "") × (n ≡ def)) ⊎ ((v ≢ "") × (atoi (codes v) ≡ some n) × (lo ≤ℤ n) × (n ≤ℤ hi))

abbrev pub Reads : String → ℤ → ℤ → ℤ → Option ℤ → Type 0
Reads v def lo hi none = (n : ℤ) → ¬ Given v def lo hi n
Reads v def lo hi (some n) = Given v def lo hi n

not_Given :
    (v : String) (def lo hi : ℤ)
    → v ≢ ""
    → ((n : ℤ) → atoi (codes v) ≡ some n → (ltb_ℤ n lo || ltb_ℤ hi n) ≡ true)
    → (n : ℤ) → ¬ Given v def lo hi n
not_Given v def lo hi given out n (inl (blank, e)) = given blank
not_Given v def lo hi given out n (inr (text, read, above, below)) =
    ground (arith, out n read, above, below)

pub int_param-Reads : (v : String) (def lo hi : ℤ) → Reads v def lo hi (int_param v def lo hi)
unfolding int_param
int_param-Reads v def lo hi = elim (Bool-cases (str_eq v "")) [
  | inl blank ↦ rw blank (inl ((eq_iff v "").0 blank, refl))
  | inr text ↦
      let given : v ≢ "" = ground (arith, eq_iff v "", text) in
      elim (Option-cases (atoi (codes v))) [
        | inl bad ↦
            rw (text, bad)
              (not_Given v def lo hi given (λ m h. absurd (some_ne_none {a = m} (sym h ∙ bad))))
        | inr (n, read) ↦ elim (Bool-cases (ltb_ℤ n lo || ltb_ℤ hi n)) [
          | inl out ↦
              rw (text, read, out)
                (not_Given v def lo hi given (λ m h.
                  subst (λ x. (ltb_ℤ x lo || ltb_ℤ hi x) ≡ true) (some_injective (sym read ∙ h))
                    out))
          | inr fits ↦
              rw (text, read, fits) (inr (given, read, ground (arith, fits), ground (arith, fits)))
        ]
      ]
]
