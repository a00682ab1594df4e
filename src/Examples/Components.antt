-- ===== src/Examples/Components.antt =====
-- The retry loop, the tool runtime and the memory backend at small inputs.
use fiddlesticks.Base.{
  ℕ, ◌+◌, ◌≤◌, String, true, false, none, some, [], ◌∷◌, ◌++◌, ◌≡◌, ◌≢◌, refl, sym, subst, ◌∙◌, eqb,
  if◌then◌else◌, arith,
}
use fiddlesticks.Base.Map
use fiddlesticks.Exec.{Result, ok, err, no_return}
use fiddlesticks.Provider.Error.{ProviderError, ProviderErrorKind}
use fiddlesticks.Provider.Model.{ProviderId}
use fiddlesticks.Provider.Resilience.{
  default_policy, backoff_for_attempt, noop_operation_hooks, execute_with_retry,
}
use fiddlesticks.Provider.Resilience.Returns.{
  execute_with_retry-returns, execute_with_retry-calls, allowed_attempts,
}
use fiddlesticks.Provider.Resilience.Trace as Trace
use fiddlesticks.Provider.Resilience.Trace.{Told, execute_with_retry-Told}
use fiddlesticks.Exec.Keeps.{Keeps}
use fiddlesticks.Tooling.Types.{Tool}
use fiddlesticks.Tooling.Registry as Tools
use fiddlesticks.Tooling.Registry.{get-register}
use fiddlesticks.Tooling.Runtime.{execute, new}
use fiddlesticks.Tooling.Runtime.Labels.{Labelled, execute-Labelled, handed_on, execute-register}
use fiddlesticks.Tooling.Runtime.Reports as Reports
use fiddlesticks.Tooling.Runtime.Reports.{recorded, ending, execute-reports}
use fiddlesticks.Memory.Types.{FeatureRecord}
use fiddlesticks.Memory.InMemory.{
  InMemoryMemoryBackend, put_session, default_session, update_feature_pass,
}
use fiddlesticks.Memory.InMemory.Features.{Updates, update_feature_pass-Updates}
use fiddlesticks.Provider.Registry as Providers
use fiddlesticks.Provider.Registry.History.{
  Change, registered, removed, replay, latest, Own, replay-Own,
}
use fiddlesticks.Base.{List}
use fiddlesticks.Base.Map.{is_some}
use fiddlesticks.Examples.Fixtures.{Env, f64, timing, call, echo, context, provider}

abbrev overloaded : ProviderError
overloaded = record { kind = ProviderErrorKind.unavailable; message = "busy"; retryable = true }

-- The first attempt fails and may be retried; the state counts the attempts.
abbrev flaky : ℕ → ℕ → Result ProviderError String × ℕ
flaky attempt n = ((if eqb attempt 1 then err overloaded else ok "done"), n + 1)

abbrev sleep : ℕ → ℕ → ℕ
sleep d n = n

flaky-returns : (attempt n : ℕ) → (flaky attempt n).0 ≢ no_return
flaky-returns attempt n = ground arith

no_panic : (attempt : ℕ) → backoff_for_attempt f64 default_policy attempt ≢ none
unfolding backoff_for_attempt
no_panic attempt h = ground arith

execute_with_retry-returns_example :
    (execute_with_retry f64 ProviderId.open_ai "complete" default_policy noop_operation_hooks flaky
      sleep 0).0
    ≢ no_return
execute_with_retry-returns_example =
    execute_with_retry-returns f64 ProviderId.open_ai "complete" default_policy noop_operation_hooks
      flaky sleep flaky-returns no_panic 0

calls_free : (n : ℕ) → n ≤ n
calls_free n = omega arith

execute_with_retry-calls_example :
    (execute_with_retry f64 ProviderId.open_ai "complete" default_policy noop_operation_hooks flaky
      sleep 0).1
    ≤ 0 + allowed_attempts default_policy
execute_with_retry-calls_example =
    execute_with_retry-calls f64 ProviderId.open_ai "complete" default_policy noop_operation_hooks
      flaky sleep (λ n. n) (λ a n. calls_free (n + 1)) (λ p o a n. calls_free n)
      (λ p o a d e n. calls_free n) (λ p o a n. calls_free n) (λ p o a e n. calls_free n)
      (λ d n. calls_free n) 0

abbrev quiet_log : Trace.Logged ℕ
quiet_log = record { rest = 0; log = [] }

execute_with_retry-Told_example :
    let r =
      execute_with_retry f64 ProviderId.open_ai "complete" default_policy Trace.recording
        (Trace.logged_execute f64 ProviderId.open_ai "complete" default_policy flaky sleep)
        (Trace.logged_sleep f64 ProviderId.open_ai "complete" default_policy flaky sleep)
        quiet_log in
    Told default_policy 1 [] r.0 r.1
execute_with_retry-Told_example =
    execute_with_retry-Told f64 ProviderId.open_ai "complete" default_policy flaky sleep quiet_log

execute-Labelled_example :
    Labelled call (execute (timing (λ n. n)) (new (Tools.register Tools.new echo)) call context 7).0
execute-Labelled_example =
    execute-Labelled (timing (λ n. n)) (new (Tools.register Tools.new echo)) call context 7

execute-register_example :
    execute (timing (λ n. n)) (new (Tools.register Tools.new echo)) call context 7
    ≡ (handed_on call (ok "{}"), 7)
execute-register_example = execute-register (timing (λ n. n)) call context Tools.new echo 7 refl

abbrev tool_log : Reports.Logged ℕ
tool_log = record { rest = 0; log = [] }

abbrev tools : Tools.ToolRegistry (Reports.Logged ℕ)
tools = Tools.register Tools.new echo

some_inj : {A : Type 0} {a b : A} → some a ≡ some b → a ≡ b
some_inj h = ground arith

echo_silent :
    (tool : Tool (Reports.Logged ℕ))
    → Tools.get tools call.name ≡ some tool
    → Keeps Reports.log_of (tool.invoke call.arguments context)
echo_silent tool h =
    subst (λ (t : Tool (Reports.Logged ℕ)). Keeps Reports.log_of (t.invoke call.arguments context))
      (some_inj (sym (get-register Tools.new echo call.name) ∙ h)) (record { at = λ w. refl })

execute-reports_example :
    let r =
      execute
        (timing (λ w. w.rest))
        (recorded (timing (λ w. w.rest)) tools (some 5) call context)
        call
        context
        tool_log in
    r.1.log ≡ [] ++ (Reports.started call ∷ ending call r.0)
execute-reports_example =
    execute-reports (timing (λ w. w.rest)) tools (some 5) call context echo_silent
      (λ limit m k w. k.at w) tool_log

abbrev one_feature : FeatureRecord
one_feature = record {
  id = "a";
  category = "functional";
  description = "does a";
  steps = "run it" ∷ [];
  passes = false;
}

abbrev backend : InMemoryMemoryBackend
backend =
    put_session Map.empty "session-1" (record default_session { feature_list = one_feature ∷ [] })

update_feature_pass-Updates_example :
    Updates "session-1" "a" true backend
      (update_feature_pass "session-1" "a" true backend).0
      (update_feature_pass "session-1" "a" true backend).1
update_feature_pass-Updates_example = update_feature_pass-Updates "session-1" "a" true backend

-- One provider is registered twice, and another id removed in between; the latest change is first.
abbrev changes : List (Change Env)
changes = registered provider ∷ removed ProviderId.ollama ∷ registered provider ∷ []

replay-Own_example :
    (Providers.get (replay changes) ProviderId.open_ai ≡ latest changes ProviderId.open_ai)
    × ((Providers.remove (replay changes) ProviderId.open_ai).0 ≡ latest changes ProviderId.open_ai)
    × (Providers.contains (replay changes) ProviderId.open_ai
        ≡ is_some (latest changes ProviderId.open_ai))
    × Own ProviderId.open_ai (latest changes ProviderId.open_ai)
replay-Own_example = replay-Own changes ProviderId.open_ai
