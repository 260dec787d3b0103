-- ===== src/Store/Retry.antt =====
-- internal/store/store.go: which errors are worth a second attempt, and the loop that makes it.
pub mod Endings
use headway.Base.{
  ℕ, suc, ◌+◌, ◌*◌, ◌/◌, String, Bool, true, false, ◌||◌, not, List, [], ◌∷◌, Option, none, some,
  ◌⊎◌, inl, inr, if◌then◌else◌, str_eq,
}

-- What errors.Is, errors.As and pgconn.SafeToRetry tell of an error, and errors.Join of an error with
-- the context's.
pub record Errors : Type 1 where
  pub Error : Type 0
  pub is_canceled : Error → Bool
  pub is_deadline_exceeded : Error → Bool
  pub pg_code : Error → Option String
  pub safe_to_retry : Error → Bool
  pub join_context : Error → Error

unfoldable pub transient : String → Bool
transient code = str_eq code "40001" || str_eq code "40P01" || str_eq code "53300"

-- time.Duration, in milliseconds: 200, 600 and 1800.
abbrev pub retry_delays : List ℕ
retry_delays = 200 ∷ 600 ∷ 1800 ∷ []

-- A delay within [d/2, d]. `rand n` stands for rand.Int64N(n).
unfoldable pub jitter : (ℕ → ℕ) → ℕ → ℕ
jitter rand d = d / 2 + rand (suc (d / 2))

module _ (errors : Errors) where
  unfoldable pub retryable : errors.Error → Bool
  unfolding transient
  retryable err =
      if errors.is_canceled err || errors.is_deadline_exceeded err
      then false
      else elim (errors.pg_code err) [
        | none ↦ errors.safe_to_retry err
        | some code ↦ transient code
      ]

  -- What happens around one call of Retry, by the number of the attempt: what the attempt returns,
  -- whether the context is done after it, and whether it becomes done in the wait that follows.
  pub record Attempts {ℓ} (A : Type ℓ) : Type ℓ where
    pub outcome : ℕ → errors.Error ⊎ A
    pub cancelled : ℕ → Bool
    pub interrupted : ℕ → Bool

  -- The loop from an attempt on, with the delays that are left. A value is what the closure has stored
  -- when it returns no error.
  unfoldable pub retry_from {ℓ} : {A : Type ℓ} → Attempts A → ℕ → List ℕ → errors.Error ⊎ A
  unfolding retryable
  retry_from w attempt [] = w.outcome attempt
  retry_from w attempt (delay ∷ delays) =
      let rest = retry_from w (suc attempt) delays in
      elim (w.outcome attempt) [
        | inr a ↦ inr a
        | inl err ↦
            if w.cancelled attempt || not (retryable err)
            then inl err
            else if w.interrupted attempt
            then inl (errors.join_context err)
            else rest
      ]

  unfoldable pub retry {ℓ} : {A : Type ℓ} → Attempts A → errors.Error ⊎ A
  unfolding retry_from
  retry w = retry_from w 0 retry_delays
