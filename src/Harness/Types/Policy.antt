-- ===== src/Harness/Types/Policy.antt =====
-- What `RunPolicy::validate` of fharness/src/types.rs accepts.
use fiddlesticks.Base.{ℕ, ◌≤◌, Option, none, some, ◌≡◌, ◌↔◌, arith}
use fiddlesticks.Exec.{ok, err, no_return}
use fiddlesticks.Harness.Error.{HarnessError, HarnessErrorKind}
use fiddlesticks.Harness.Types.{
  RunPolicy, RunPolicyMode, strict_incremental, bounded_batch, unlimited_batch, validate,
  validate_mode, limit_of, max_features_per_run_limit,
}

-- A limit on the features of a run is the one that the policy names, and is not zero.
abbrev pub Limited : ℕ → Option ℕ → Type 0
Limited named none = Unit
Limited named (some limit) = (limit ≡ named) × (1 ≤ limit)

mode_iff :
    (mode : RunPolicyMode) (n : ℕ) → (validate_mode mode n ≡ ok tt) ↔ Limited n (limit_of mode n)
unfolding validate_mode limit_of
mode_iff strict_incremental n = (λ h. ground arith, λ h. ground arith)
mode_iff bounded_batch n = (λ h. ground arith, λ h. ground arith)
mode_iff unlimited_batch n = (λ h. tt, λ h. ground arith)

-- A run policy is accepted exactly if it allows a turn and the limit on features that the run obeys,
-- where its mode sets one, is the policy's own and allows a feature.
pub validate_iff :
    (p : RunPolicy)
    → (validate p ≡ ok tt)
      ↔ ((1 ≤ p.max_turns_per_run) × Limited p.max_features_per_run (max_features_per_run_limit p))
unfolding validate max_features_per_run_limit
validate_iff p =
    let (front, back) = mode_iff p.mode p.max_features_per_run in
    ((λ h. (ground arith, front (ground arith))), (λ (turns, l). ground (arith, back l)))

mode_kind :
    (mode : RunPolicyMode) (n : ℕ) (e : HarnessError)
    → validate_mode mode n ≡ err e
    → e.kind ≡ HarnessErrorKind.invalid_request
unfolding validate_mode
mode_kind strict_incremental n e h = ground arith
mode_kind bounded_batch n e h = ground arith
mode_kind unlimited_batch n e h = cc

-- A policy that is not accepted is an invalid request.
pub policy_kind :
    (p : RunPolicy) (e : HarnessError)
    → validate p ≡ err e
    → e.kind ≡ HarnessErrorKind.invalid_request
unfolding validate
policy_kind p e h = let rest = mode_kind p.mode p.max_features_per_run e in ground arith

mode_returns : (mode : RunPolicyMode) (n : ℕ) → validate_mode mode n ≡ no_return → ⊥
unfolding validate_mode
mode_returns strict_incremental n h = ground arith
mode_returns bounded_batch n h = ground arith
mode_returns unlimited_batch n h = cc

-- The check of a policy ends.
pub policy_returns : (p : RunPolicy) → validate p ≡ no_return → ⊥
unfolding validate
policy_returns p h = let rest = mode_returns p.mode p.max_features_per_run in ground arith
