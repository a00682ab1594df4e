-- ===== src/Provider/Resilience/Returns.antt =====
-- The retry loop of fprovider/src/resilience.rs comes to an end, after a bounded number of calls.
use fiddlesticks.Base.{
  ℕ, zero, suc, ◌+◌, ◌≤◌, ◌<◌, String, none, ltb, if◌then◌else◌, ◌≢◌, refl, ◌-◌, arith, Bool-cases,
  Option-cases, inl, inr,
}
use fiddlesticks.Exec.{Result, ok, err, no_return, Exec}
use fiddlesticks.Provider.Error.{ProviderError}
use fiddlesticks.Provider.Model.{ProviderId}
use fiddlesticks.Provider.Resilience.{
  F64, RetryPolicy, ProviderOperationHooks, should_retry, backoff_for_attempt, retry_after,
  after_attempt, retry_loop, execute_with_retry,
}

-- The attempts that a policy allows: the first one is always made.
abbrev pub allowed_attempts : RetryPolicy → ℕ
allowed_attempts p = if ltb p.max_attempts 1 then 1 else p.max_attempts

module _ {W T : Type 0} (f : F64) (provider : ProviderId) (operation : String)
    (policy : RetryPolicy) (hooks : ProviderOperationHooks W) (execute : ℕ → Exec W ProviderError T)
    (sleep : ℕ → W → W) where
  module _ (returns : (attempt : ℕ) (w : W) → (execute attempt w).0 ≢ no_return)
      (no_panic : (attempt : ℕ) → backoff_for_attempt f policy attempt ≢ none) where
    settle-returns :
        (r : Result ProviderError T) (attempt : ℕ) (again : Exec W ProviderError T) (w : W)
        → r ≢ no_return
        → (attempt < policy.max_attempts → (w' : W) → (again w').0 ≢ no_return)
        → (after_attempt f provider operation policy hooks execute sleep r attempt again w).0
          ≢ no_return
    unfolding after_attempt
    settle-returns (ok v) attempt again w h ih = λ e. cc
    settle-returns no_return attempt again w h ih = absurd (h refl)
    settle-returns (err x) attempt again w h ih =
        elim (Bool-cases (should_retry policy attempt x)) [
          | inr stop ↦ rw stop (λ e. cc)
          | inl go ↦ rw go (elim (Option-cases (backoff_for_attempt f policy attempt)) [
            | inl panic ↦ absurd (no_panic attempt panic)
            | inr (delay, d) ↦ rw (d, retry_after) (ih (unfold should_retry in ground arith) _)
          ])
        ]

    loop-returns :
        (fuel attempt : ℕ) (w : W)
        → policy.max_attempts < fuel + attempt
        → 0 < fuel
        → (retry_loop f provider operation policy hooks execute sleep fuel attempt w).0 ≢ no_return
    unfolding retry_loop
    loop-returns zero attempt w h pos = absurd (omega arith)
    loop-returns (suc fuel) attempt w h pos =
        settle-returns _ attempt _ _ (returns attempt _)
          (λ more w'. loop-returns fuel (attempt + 1) w' (omega arith) (omega arith))

    -- If each attempt comes back and the backoff is computed without a panic, the retry loop comes
    -- back, with the value of an attempt or an error.
    pub execute_with_retry-returns :
        (w : W)
        → (execute_with_retry f provider operation policy hooks execute sleep w).0 ≢ no_return
    unfolding execute_with_retry
    execute_with_retry-returns w =
        loop-returns (suc policy.max_attempts) 1 w (omega arith) (omega arith)

  -- A count of the calls that one attempt raises by one at most, and nothing else raises.
  module _ (calls : W → ℕ)
      (one_more : (attempt : ℕ) (w : W) → calls (execute attempt w).1 ≤ calls w + 1)
      (start_free : (p : ProviderId) (o : String) (a : ℕ) (w : W)
        → calls (hooks.on_attempt_start p o a w) ≤ calls w)
      (retry_free : (p : ProviderId) (o : String) (a d : ℕ) (e : ProviderError) (w : W)
        → calls (hooks.on_retry_scheduled p o a d e w) ≤ calls w)
      (success_free : (p : ProviderId) (o : String) (a : ℕ) (w : W)
        → calls (hooks.on_success p o a w) ≤ calls w)
      (failure_free : (p : ProviderId) (o : String) (a : ℕ) (e : ProviderError) (w : W)
        → calls (hooks.on_failure p o a e w) ≤ calls w)
      (sleep_free : (d : ℕ) (w : W) → calls (sleep d w) ≤ calls w) where
    settle-calls :
        (r : Result ProviderError T) (attempt n k : ℕ) (again : Exec W ProviderError T) (w : W)
        → calls w ≤ n
        → (attempt < policy.max_attempts → (w' : W) → calls w' ≤ n → calls (again w').1 ≤ n + k)
        → calls (after_attempt f provider operation policy hooks execute sleep r attempt again w).1
          ≤ n + k
    unfolding after_attempt
    settle-calls (ok v) attempt n k again w h ih =
        omega (arith, success_free provider operation attempt w)
    settle-calls no_return attempt n k again w h ih = omega arith
    settle-calls (err x) attempt n k again w h ih =
        elim (Bool-cases (should_retry policy attempt x)) [
          | inr stop ↦ rw stop (omega (arith, failure_free provider operation attempt x w))
          | inl go ↦ rw go (elim (Option-cases (backoff_for_attempt f policy attempt)) [
            | inl panic ↦ rw (panic, retry_after) (omega arith)
            | inr (delay, d) ↦
                rw (d, retry_after)
                  (ih (unfold should_retry in ground arith) _ (
                    omega (
                      arith,
                      sleep_free delay
                          (hooks.on_retry_scheduled provider operation attempt delay x w),
                      retry_free provider operation attempt delay x w,
                    )))
          ])
        ]

    loop-calls :
        (fuel attempt : ℕ) (w : W)
        → calls (retry_loop f provider operation policy hooks execute sleep fuel attempt w).1
          ≤ calls w + 1 + (policy.max_attempts - attempt)
    unfolding retry_loop
    loop-calls zero attempt w = omega arith
    loop-calls (suc fuel) attempt w =
        let w0 = hooks.on_attempt_start provider operation attempt w in
        settle-calls (execute attempt w0).0 attempt (calls w + 1) (policy.max_attempts - attempt)
          (retry_loop f provider operation policy hooks execute sleep fuel (attempt + 1))
          (execute attempt w0).1
          (omega (arith, one_more attempt w0, start_free provider operation attempt w))
          (λ more w' h. omega (arith, loop-calls fuel (attempt + 1) w'))

    -- Where an attempt raises a count by one at most, and neither the hooks nor the delays raise
    -- it, the retry loop raises it by no more than the number of attempts that the policy allows.
    pub execute_with_retry-calls :
        (w : W)
        → calls (execute_with_retry f provider operation policy hooks execute sleep w).1
          ≤ calls w + allowed_attempts policy
    unfolding execute_with_retry
    execute_with_retry-calls w = ground (arith, loop-calls (suc policy.max_attempts) 1 w)
