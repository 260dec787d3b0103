-- ===== src/Store/Retry/Endings.antt =====
-- What the retrying loop does with the attempts.
use headway.Base.{
  ℕ, zero, suc, ◌+◌, ◌/◌, ◌≤◌, ◌<◌, true, false, List, [], ◌∷◌, ◌⊎◌, inl, inr, ◌≡◌, refl, length,
  arith, Bool-cases, ⊎-cases, subst, ◌∙◌,
}
use headway.Store.Retry.{Errors, Attempts, retryable, retry_from, retry, retry_delays, jitter}

-- A jittered delay is between the half of a delay and the delay, if the random numbers stay below
-- their bound.
pub jitter_bounds :
    (rand : ℕ → ℕ) (d : ℕ)
    → ((n : ℕ) → rand (suc n) ≤ n)
    → (d / 2 ≤ jitter rand d) × (jitter rand d ≤ d)
unfolding jitter
jitter_bounds rand d bounded = (omega arith, omega (arith, bounded (d / 2)))

module _ {ℓ} (errors : Errors) {A : Type ℓ} (w : Attempts errors A) where
  -- An attempt failed in a way that is tried again, and nothing cut the wait short.
  abbrev pub GoesOn : ℕ → Type ℓ
  GoesOn n =
      (err : errors.Error) × (w.outcome n ≡ inl err)
      × (retryable errors err ≡ true)
      × (w.cancelled n ≡ false)
      × (w.interrupted n ≡ false)

  -- The loop ends with an attempt.
  pub data EndsAt (n left : ℕ) : errors.Error ⊎ A → Type ℓ where
    succeeded : (a : A) → w.outcome n ≡ inr a → EndsAt n left (inr a)
    exhausted : (err : errors.Error) → w.outcome n ≡ inl err → left ≡ 0 → EndsAt n left (inl err)
    refused :
        (err : errors.Error)
        → w.outcome n ≡ inl err
        → (w.cancelled n ≡ true) ⊎ (retryable errors err ≡ false)
        → EndsAt n left (inl err)
    cut_short :
        (err : errors.Error)
        → w.outcome n ≡ inl err
        → w.interrupted n ≡ true
        → EndsAt n left (inl (errors.join_context err))

  abbrev Ending : ℕ → List ℕ → errors.Error ⊎ A → Type ℓ
  Ending attempt delays r =
      (n : ℕ) × (left : ℕ) × (n + left ≡ length delays)
      × ((i : ℕ) → i < n → GoesOn (attempt + i))
      × EndsAt (attempt + n) left r

  at_once :
      (attempt : ℕ) (delays : List ℕ) (r : errors.Error ⊎ A)
      → EndsAt attempt (length delays) r
      → Ending attempt delays r
  at_once attempt delays r h = (
    0,
    length delays,
    omega arith,
    λ i k. elim k [ ],
    subst (λ n. EndsAt n (length delays) r) (omega arith) h,
  )

  goes_later :
      (attempt n : ℕ)
      → GoesOn attempt
      → ((i : ℕ) → i < n → GoesOn (suc attempt + i))
      → (i : ℕ) → i < suc n
      → GoesOn (attempt + i)
  goes_later attempt n here goes zero k = subst GoesOn (omega arith) here
  goes_later attempt n here goes (suc i) k = subst GoesOn (omega arith) (goes i (omega arith))

  later :
      (attempt delay : ℕ) (delays : List ℕ) (r : errors.Error ⊎ A)
      → GoesOn attempt
      → Ending (suc attempt) delays r
      → Ending attempt (delay ∷ delays) r
  later attempt delay delays r here (n, left, sum, goes, ends) = (
    suc n,
    left,
    omega arith,
    λ i k. goes_later attempt n here goes i k,
    subst (λ m. EndsAt m left r) (omega arith) ends,
  )

  retry_from_lem :
      (attempt : ℕ) (delays : List ℕ) → Ending attempt delays (retry_from errors w attempt delays)
  unfolding retry_from
  retry_from_lem attempt [] = elim (⊎-cases (w.outcome attempt)) [
    | inl (err, e) ↦ rw e (at_once attempt [] (inl err) (exhausted err e refl))
    | inr (a, e) ↦ rw e (at_once attempt [] (inr a) (succeeded a e))
  ]
  retry_from_lem attempt (delay ∷ delays) = elim (⊎-cases (w.outcome attempt)) [
    | inr (a, e) ↦ rw (e, retry_from) (at_once attempt (delay ∷ delays) (inr a) (succeeded a e))
    | inl (err, e) ↦ elim (Bool-cases (w.cancelled attempt)) [
      | inl c ↦
          rw (e, retry_from, c) (at_once attempt (delay ∷ delays) (inl err) (refused err e (inl c)))
      | inr c ↦ elim (Bool-cases (retryable errors err)) [
        | inr r ↦
            rw (e, retry_from, c, r)
              (at_once attempt (delay ∷ delays) (inl err) (refused err e (inr r)))
        | inl r ↦ elim (Bool-cases (w.interrupted attempt)) [
          | inl i ↦
              rw (e, retry_from, c, r, i)
                (at_once attempt (delay ∷ delays) (inl (errors.join_context err))
                  (cut_short err e i))
          | inr i ↦
              rw (e, retry_from, c, r, i)
                (later attempt delay delays (retry_from errors w (suc attempt) delays)
                  (err, e, r, c, i) (retry_from_lem (suc attempt) delays))
        ]
      ]
    ]
  ]

  -- Retry makes at most four attempts. All but the last have failed with a retryable error, with the
  -- context not done. The last one has succeeded, and Retry returns its value; or it has failed, and
  -- it is the fourth, or the context is done or the error is not retryable, and Retry returns its
  -- error; or the context is done in the wait after it, and Retry joins the two errors.
  pub retry_lem :
      (n : ℕ) × (left : ℕ) × (n + left ≡ 3)
      × ((i : ℕ) → i < n → GoesOn i)
      × EndsAt n left (retry errors w)
  unfolding retry
  retry_lem =
      let (n, left, sum, goes, ends) = retry_from_lem 0 retry_delays in
      (
        n,
        left,
        sum,
        λ i k. subst GoesOn (omega arith) (goes i k),
        subst (λ m. EndsAt m left (retry errors w)) (omega arith) ends,
      )

  ends_with {κ} :
      (P : A → Type κ) (n left : ℕ) (r : errors.Error ⊎ A)
      → EndsAt n left r
      → ((k : ℕ) (a : A) → w.outcome k ≡ inr a → P a)
      → (a : A) → r ≡ inr a
      → P a
  ends_with P n left r (succeeded b e) each a h = each n a (e ∙ h)
  ends_with P n left r (exhausted err e z) each a h = cc
  ends_with P n left r (refused err e z) each a h = cc
  ends_with P n left r (cut_short err e z) each a h = cc

  -- What holds of the value of each successful attempt holds of the value of Retry.
  pub retry_value {κ} :
      (P : A → Type κ)
      → ((k : ℕ) (a : A) → w.outcome k ≡ inr a → P a)
      → (a : A) → retry errors w ≡ inr a
      → P a
  retry_value P each a h =
      let (n, left, sum, goes, ends) = retry_lem in
      ends_with P n left (retry errors w) ends each a h
