-- ===== src/Provider/Resilience/Trace.antt =====
-- What the retry loop of fprovider/src/resilience.rs tells the operation hooks.
use fiddlesticks.Base.{
  ℕ, zero, suc, ◌+◌, ◌≤◌, ◌<◌, String, false, List, [], ◌∷◌, ◌++◌, ◌≡◌, ◌⊎◌, refl, subst, arith,
  Bool-cases, Option-cases, inl, inr, append_assoc,
}
use native.Mathlib.Nat.{add-zero}
use fiddlesticks.Exec.{Result, ok, err, no_return, Exec, on_part}
use fiddlesticks.Provider.Error.{ProviderError, ProviderErrorKind}
use fiddlesticks.Provider.Model.{ProviderId}
use fiddlesticks.Provider.Resilience.{
  F64, RetryPolicy, ProviderOperationHooks, should_retry, backoff_for_attempt, retry_after,
  after_attempt, retry_loop, execute_with_retry,
}

pub data HookEvent : Type 0 where
  started retried succeeded : (attempt : ℕ) → HookEvent
  failed : (attempt : ℕ) → ProviderErrorKind → HookEvent

-- A state with the log of what the hooks were told.
pub record Logged (V : Type 0) : Type 0 where
  pub rest : V
  pub log : List HookEvent

abbrev pub note : {V : Type 0} → HookEvent → Logged V → Logged V
note e w = record w { log = w.log ++ e ∷ [] }

-- The hooks of the tests in resilience.rs: each one writes to the log.
abbrev pub recording : {V : Type 0} → ProviderOperationHooks (Logged V)
recording = record {
  on_attempt_start = λ p o a. note (started a);
  on_retry_scheduled = λ p o a d e. note (retried a);
  on_success = λ p o a. note (succeeded a);
  on_failure = λ p o a e. note (failed a e.kind);
}

-- `n` attempts from `attempt` on that are each followed by a retry.
abbrev pub retries : ℕ → ℕ → List HookEvent
retries attempt zero = []
retries attempt (suc n) = started attempt ∷ retried attempt ∷ retries (attempt + 1) n

-- The last two events of a call that returned, at its last attempt.
abbrev pub ending : {T : Type 0} → ℕ → Result ProviderError T → List HookEvent
ending attempt (ok v) = started attempt ∷ succeeded attempt ∷ []
ending attempt (err e) = started attempt ∷ failed attempt e.kind ∷ []
ending attempt no_return = []

-- Why a call stopped at an attempt: it succeeded, or its error may not be retried or was the last
-- that the policy allows.
abbrev pub Stopped : {T : Type 0} → RetryPolicy → ℕ → Result ProviderError T → Type 0
Stopped policy attempt (ok v) = Unit
Stopped policy attempt (err e) = (e.retryable ≡ false) ⊎ (policy.max_attempts ≤ attempt)
Stopped policy attempt no_return = Unit

-- The log of a call that returned, from `attempt` on; nothing is said of one that did not return.
abbrev pub Told :
    {V T : Type 0} → RetryPolicy → ℕ → List HookEvent → Result ProviderError T → Logged V → Type 0
Told policy attempt log no_return w = Unit
Told policy attempt log r w =
    (n : ℕ) × ((n ≡ 0) ⊎ (attempt + n ≤ policy.max_attempts))
    × (w.log ≡ log ++ (retries attempt n ++ ending (attempt + n) r))
    × Stopped policy (attempt + n) r

module _ {V T : Type 0} (f : F64) (provider : ProviderId) (operation : String)
    (policy : RetryPolicy) (execute : ℕ → Exec V ProviderError T) (sleep : ℕ → V → V) where
  abbrev pub logged_execute : ℕ → Exec (Logged V) ProviderError T
  logged_execute a = on_part (λ w. w.rest) (λ v w. record w { rest = v }) (execute a)

  abbrev pub logged_sleep : ℕ → Logged V → Logged V
  logged_sleep d w = record w { rest = sleep d w.rest }

  longer :
      (attempt n : ℕ) (log told : List HookEvent) (last : ℕ → List HookEvent)
      → told
        ≡ ((log ++ started attempt ∷ []) ++ retried attempt ∷ [])
          ++ (retries (attempt + 1) n ++ last (attempt + 1 + n))
      → told ≡ log ++ (retries attempt (suc n) ++ last (attempt + suc n))
  longer attempt n log told last h =
      let e : attempt + 1 + n ≡ attempt + suc n = omega arith in
      let h' =
        subst
          (λ k.
            told
            ≡ ((log ++ started attempt ∷ []) ++ retried attempt ∷ [])
              ++ (retries (attempt + 1) n ++ last k))
          e h in
      simp append_assoc at h'

  -- One more attempt in front, which was retried.
  later-Told :
      (attempt : ℕ) (log : List HookEvent) (r : Result ProviderError T) (w : Logged V)
      → attempt < policy.max_attempts
      → Told policy (attempt + 1) ((log ++ started attempt ∷ []) ++ retried attempt ∷ []) r w
      → Told policy attempt log r w
  later-Told attempt log (ok v) w less (n, bound, told, stop) =
      (suc n, ground arith, longer attempt n log w.log (λ k. ending k (ok v)) told, tt)
  later-Told attempt log (err e) w less (n, bound, told, stop) = (
    suc n,
    ground arith,
    longer attempt n log w.log (λ k. ending {T = T} k (err e)) told,
    ground arith,
  )
  later-Told attempt log no_return w less h = tt

  settle-Told :
      (r : Result ProviderError T) (attempt : ℕ) (again : Exec (Logged V) ProviderError T)
      (log : List HookEvent) (w : Logged V)
      → w.log ≡ log ++ started attempt ∷ []
      → ((w' : Logged V) → Told policy (attempt + 1) w'.log (again w').0 (again w').1)
      → let s =
          after_attempt f provider operation policy recording logged_execute logged_sleep r attempt
            again w in
        Told policy attempt log s.0 s.1
  unfolding after_attempt
  settle-Told (ok v) attempt again log w h ih = (0, inl refl, simp (h, add-zero, append_assoc), tt)
  settle-Told no_return attempt again log w h ih = tt
  settle-Told (err x) attempt again log w h ih = elim (Bool-cases (should_retry policy attempt x)) [
    | inr stop ↦
        rw stop (0, inl refl, simp (h, add-zero, append_assoc), unfold should_retry in ground arith)
    | inl go ↦ rw go (elim (Option-cases (backoff_for_attempt f policy attempt)) [
      | inl panic ↦ rw (panic, retry_after) tt
      | inr (delay, d) ↦
          let next = logged_sleep delay (note (retried attempt) w) in
          rw (d, retry_after)
            (later-Told attempt log _ _ (unfold should_retry in ground arith) (
              subst
                (λ l.
                  Told policy (attempt + 1) (l ++ retried attempt ∷ []) (again next).0
                    (again next).1)
                h (ih next)))
    ])
  ]

  loop-Told :
      (fuel attempt : ℕ) (w : Logged V)
      → let r =
          retry_loop f provider operation policy recording logged_execute logged_sleep fuel attempt
            w in
        Told policy attempt w.log r.0 r.1
  unfolding retry_loop on_part
  loop-Told zero attempt w = tt
  loop-Told (suc fuel) attempt w =
      settle-Told (execute attempt w.rest).0 attempt
        (retry_loop f provider operation policy recording logged_execute logged_sleep fuel
          (attempt + 1))
        w.log _ refl (λ w'. loop-Told fuel (attempt + 1) w')

  -- If the call returns, its hooks were told of each attempt, from the first on, that it started;
  -- then, of every attempt but the last, that it is retried, and of the last that it succeeded or
  -- failed, as the result says. There were at most as many attempts as the policy allows, and a
  -- call fails only with an error that is not retryable or that came at the last attempt which the
  -- policy allows.
  pub execute_with_retry-Told :
      (w : Logged V)
      → let r =
          execute_with_retry f provider operation policy recording logged_execute logged_sleep w in
        Told policy 1 w.log r.0 r.1
  unfolding execute_with_retry
  execute_with_retry-Told w = loop-Told (suc policy.max_attempts) 1 w
