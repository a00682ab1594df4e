-- ===== src/Provider/Resilience/Values.antt =====
-- Where the value that `execute_with_retry` of fprovider/src/resilience.rs returns comes from.
use fiddlesticks.Base.{ℕ, zero, suc, ◌+◌, String, Bool-cases, Option-cases, inl, inr}
use fiddlesticks.Exec.{Result, ok, err, no_return, Exec}
use fiddlesticks.Provider.Error.{ProviderError}
use fiddlesticks.Provider.Model.{ProviderId}
use fiddlesticks.Provider.Resilience.{
  F64, RetryPolicy, ProviderOperationHooks, should_retry, backoff_for_attempt, retry_after,
  after_attempt, retry_loop, execute_with_retry,
}

-- A result that holds of its value, if it has one.
abbrev pub Values : {E T : Type 0} → (T → Type 0) → Result E T → Type 0
Values P (ok v) = P v
Values P (err e) = Unit
Values P no_return = Unit

module _ {W T : Type 0} (f : F64) (provider : ProviderId) (operation : String)
    (policy : RetryPolicy) (hooks : ProviderOperationHooks W) (execute : ℕ → Exec W ProviderError T)
    (sleep : ℕ → W → W) (P : T → Type 0)
    (gives : (attempt : ℕ) (w : W) → Values P (execute attempt w).0) where
  after-Values :
      (r : Result ProviderError T) (attempt : ℕ) (again : Exec W ProviderError T) (w : W)
      → Values P r
      → ((w' : W) → Values P (again w').0)
      → Values P (after_attempt f provider operation policy hooks execute sleep r attempt again w).0
  unfolding after_attempt
  after-Values (ok v) attempt again w h ih = h
  after-Values no_return attempt again w h ih = tt
  after-Values (err x) attempt again w h ih = elim (Bool-cases (should_retry policy attempt x)) [
    | inr stop ↦ rw stop tt
    | inl go ↦ rw go (elim (Option-cases (backoff_for_attempt f policy attempt)) [
      | inl panic ↦ rw (panic, retry_after) tt
      | inr (delay, d) ↦ rw (d, retry_after) (ih _)
    ])
  ]

  loop-Values :
      (fuel attempt : ℕ) (w : W)
      → Values P (retry_loop f provider operation policy hooks execute sleep fuel attempt w).0
  unfolding retry_loop
  loop-Values zero attempt w = tt
  loop-Values (suc fuel) attempt w =
      after-Values _ attempt _ _ (gives attempt _) (λ w'. loop-Values fuel (attempt + 1) w')

  -- What holds of every value that an attempt gives holds of the value that the loop returns.
  pub execute_with_retry-Values :
      (w : W) → Values P (execute_with_retry f provider operation policy hooks execute sleep w).0
  unfolding execute_with_retry
  execute_with_retry-Values w = loop-Values (suc policy.max_attempts) 1 w
