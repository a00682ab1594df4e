-- ===== src/Provider/Resilience.antt =====
-- fprovider/src/resilience.rs: the retry policy, the operation hooks and the retry loop.
pub mod Returns
pub mod Trace
pub mod Values
use fiddlesticks.Base.{
  ℕ, zero, suc, ◌+◌, ◌-◌, String, Bool, ◌&&◌, Option, none, some, ltb, if◌then◌else◌,
}
use fiddlesticks.Exec.{Result, ok, err, no_return, Exec}
use fiddlesticks.Provider.Error.{ProviderError}
use fiddlesticks.Provider.Model.{ProviderId}

-- The arithmetic of `f64` and `Duration` that the policy calls. An `f64` is its bit pattern, a
-- `Duration` its nanoseconds; `powi` takes the bit pattern of its `i32`; `from_secs_f64` panics on a
-- negative or too large number, which is `none`.
pub record F64 : Type 0 where
  pub as_secs_f64 : ℕ → ℕ
  pub mul : ℕ → ℕ → ℕ
  pub powi : ℕ → ℕ → ℕ
  pub min : ℕ → ℕ → ℕ
  pub from_secs_f64 : ℕ → Option ℕ

pub record RetryPolicy : Type 0 where
  pub max_attempts : ℕ
  pub initial_backoff : ℕ
  pub max_backoff : ℕ
  pub backoff_multiplier : ℕ

-- 200 ms, 5 s and 2.0.
abbrev pub default_policy : RetryPolicy
default_policy = record {
  max_attempts = 3;
  initial_backoff = 200_000_000;
  max_backoff = 5_000_000_000;
  backoff_multiplier = 0x4000000000000000;
}

-- `max_attempts.max(1)`
unfoldable pub new : ℕ → RetryPolicy
new max_attempts = record default_policy {
  max_attempts = if ltb max_attempts 1 then 1 else max_attempts;
}

unfoldable pub should_retry : RetryPolicy → ℕ → ProviderError → Bool
should_retry p attempt error = error.retryable && ltb attempt p.max_attempts

-- The cast of `attempt.saturating_sub(1)` to `i32` keeps the bit pattern.
unfoldable pub backoff_for_attempt : F64 → RetryPolicy → ℕ → Option ℕ
backoff_for_attempt f p attempt =
    let exponent = attempt - 1 in
    let unbounded =
      f.mul (f.as_secs_f64 p.initial_backoff) (f.powi p.backoff_multiplier exponent) in
    f.from_secs_f64 (f.min unbounded (f.as_secs_f64 p.max_backoff))

-- The trait `ProviderOperationHooks`: each hook may change the state.
pub record ProviderOperationHooks (W : Type 0) : Type 0 where
  pub on_attempt_start : ProviderId → String → ℕ → W → W
  pub on_retry_scheduled : ProviderId → String → ℕ → ℕ → ProviderError → W → W
  pub on_success : ProviderId → String → ℕ → W → W
  pub on_failure : ProviderId → String → ℕ → ProviderError → W → W

abbrev pub noop_operation_hooks : {W : Type 0} → ProviderOperationHooks W
noop_operation_hooks = record {
  on_attempt_start = λ p o a w. w;
  on_retry_scheduled = λ p o a d e w. w;
  on_success = λ p o a w. w;
  on_failure = λ p o a e w. w;
}

-- One call of `execute_with_retry`, and what it runs: `execute` may fail, `sleep` ends.
module _ {W T : Type 0} (f : F64) (provider : ProviderId) (operation : String)
    (policy : RetryPolicy) (hooks : ProviderOperationHooks W) (execute : ℕ → Exec W ProviderError T)
    (sleep : ℕ → W → W) where
  -- `none` is the panic of `from_secs_f64`. `again` is the next round of the loop.
  unfoldable pub retry_after :
      Option ℕ → ℕ → ProviderError → Exec W ProviderError T → Exec W ProviderError T
  retry_after none attempt error again w = (no_return, w)
  retry_after (some delay) attempt error again w =
      again (sleep delay (hooks.on_retry_scheduled provider operation attempt delay error w))

  -- The `match` on what the attempt gave.
  unfoldable pub after_attempt :
      Result ProviderError T → ℕ → Exec W ProviderError T → Exec W ProviderError T
  unfolding retry_after
  after_attempt (ok value) attempt again w =
      (ok value, hooks.on_success provider operation attempt w)
  after_attempt (err error) attempt again w =
      if should_retry policy attempt error
      then retry_after (backoff_for_attempt f policy attempt) attempt error again w
      else (err error, hooks.on_failure provider operation attempt error w)
  after_attempt no_return attempt again w = (no_return, w)

  unfoldable pub retry_loop : ℕ → ℕ → Exec W ProviderError T
  unfolding after_attempt
  retry_loop zero attempt w = (no_return, w)
  retry_loop (suc fuel) attempt w =
      let (r, w') = execute attempt (hooks.on_attempt_start provider operation attempt w) in
      after_attempt r attempt (retry_loop fuel (attempt + 1)) w'

  -- No round starts with `attempt` above `max_attempts`, but for the first.
  unfoldable pub execute_with_retry : Exec W ProviderError T
  unfolding retry_loop
  execute_with_retry = retry_loop (suc policy.max_attempts) 1
