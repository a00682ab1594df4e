-- ===== src/Harness/Service.antt =====
-- fharness/src/harness.rs: the builder and the harness; the traits of traits.rs and hooks.rs.
pub mod Built
use fiddlesticks.Base.{ℕ, ◌-◌, String, Bool, true, Option, none, some, List, [], ◌∷◌}
use fiddlesticks.Exec.{Result, ok, err, no_return, Exec, and_then, catch_into}
use fiddlesticks.Common.{SessionId}
use fiddlesticks.Provider.Stream.{ModelProvider}
use fiddlesticks.Tooling.Types.{ToolRuntime}
use fiddlesticks.Chat.Types.{ChatTurnResult}
use fiddlesticks.Chat.Service.{
  Platform, World, in_store, ChatPolicy, ChatService, default_chat_policy, new_service, with_policy,
  with_tool_runtime,
}
use fiddlesticks.Memory.Error.{MemoryError}
use fiddlesticks.Memory.Types.{
  FeatureRecord, InitPlan, command, default_schema_version, default_harness_version,
}
use fiddlesticks.Memory.Backend.{MemoryBackend}
use fiddlesticks.Memory.Adapter.{memory_conversation_store}
use fiddlesticks.Harness.Error.{HarnessError, HarnessErrorKind, new, of_memory_error}
use fiddlesticks.Harness.Types.{RunPolicy, HarnessPhase, default_run_policy, validate}
use fiddlesticks.Harness.Features.{first_pending}

-- What the chat service needs of the platform, and the clock.
pub record HarnessPlatform (W : Type 0) : Type 0 where
  pub chat : Platform W
  pub now : W → ℕ

-- The traits `HealthChecker`, `OutcomeValidator` and `FeatureSelector` are the functions that they
-- have, and the trait `HarnessRuntimeHooks` is this record.
pub record HarnessRuntimeHooks (W : Type 0) : Type 0 where
  pub on_phase_start : HarnessPhase → SessionId → String → W → W
  pub on_phase_success : HarnessPhase → SessionId → String → ℕ → W → W
  pub on_phase_failure : HarnessPhase → SessionId → String → HarnessError → ℕ → W → W

abbrev pub noop_harness_hooks : {W : Type 0} → HarnessRuntimeHooks W
noop_harness_hooks = record {
  on_phase_start = λ p s r w. w;
  on_phase_success = λ p s r t w. w;
  on_phase_failure = λ p s r e t w. w;
}

-- `NoopHealthChecker` and `AcceptAllValidator`
abbrev pub noop_health_checker :
    {W : Type 0} → SessionId → InitPlan → Exec W HarnessError (Unit {0})
noop_health_checker id plan w = (ok tt, w)

abbrev pub accept_all : {W : Type 0} → FeatureRecord → ChatTurnResult → Exec W HarnessError Bool
accept_all f r w = (ok true, w)

pub record Harness (B W : Type 0) : Type 0 where
  pub memory : MemoryBackend B
  pub chat : Option (ChatService B W)
  pub health_checker : SessionId → InitPlan → Exec W HarnessError (Unit {0})
  pub validator : FeatureRecord → ChatTurnResult → Exec W HarnessError Bool
  pub feature_selector : List FeatureRecord → Option FeatureRecord
  pub hooks : HarnessRuntimeHooks W
  pub run_policy : RunPolicy
  pub schema_version : ℕ
  pub harness_version : String

module _ {B W : Type 0} where
  unfoldable pub new_harness : MemoryBackend B → Harness B W
  new_harness memory = record {
    memory = memory;
    chat = none;
    health_checker = noop_health_checker;
    validator = accept_all;
    feature_selector = first_pending;
    hooks = noop_harness_hooks;
    run_policy = default_run_policy;
    schema_version = default_schema_version;
    harness_version = default_harness_version;
  }

  unfoldable pub with_run_policy : RunPolicy → Harness B W → Result HarnessError (Harness B W)
  with_run_policy p h = and_then (validate p) (λ _. ok (record h { run_policy = p }))

-- `HarnessBuilder` has the fields of a harness, with a provider, a tool runtime and a chat policy in
-- place of the chat service; each setter replaces one field.
pub record HarnessBuilder (B W : Type 0) : Type 0 where
  pub memory : MemoryBackend B
  pub provider : Option (ModelProvider W)
  pub tool_runtime : Option (ToolRuntime W)
  pub chat_policy : ChatPolicy
  pub health_checker : SessionId → InitPlan → Exec W HarnessError (Unit {0})
  pub validator : FeatureRecord → ChatTurnResult → Exec W HarnessError Bool
  pub feature_selector : List FeatureRecord → Option FeatureRecord
  pub hooks : HarnessRuntimeHooks W
  pub run_policy : RunPolicy
  pub schema_version : ℕ
  pub harness_version : String

module _ {B W : Type 0} where
  unfoldable pub new_builder : MemoryBackend B → HarnessBuilder B W
  new_builder memory = record {
    memory = memory;
    provider = none;
    tool_runtime = none;
    chat_policy = default_chat_policy;
    health_checker = noop_health_checker;
    validator = accept_all;
    feature_selector = first_pending;
    hooks = noop_harness_hooks;
    run_policy = default_run_policy;
    schema_version = default_schema_version;
    harness_version = default_harness_version;
  }

  no_provider : Result HarnessError (Harness B W)
  no_provider = err (new HarnessErrorKind.not_ready "provider is required to build chat runtime")

  add_tools : Option (ToolRuntime W) → ChatService B W → ChatService B W
  add_tools none c = c
  add_tools (some runtime) c = with_tool_runtime runtime c

  harness_of : HarnessBuilder B W → Option (ModelProvider W) → Result HarnessError (Harness B W)
  unfolding no_provider add_tools new_service with_policy with_tool_runtime
  harness_of b none = no_provider
  harness_of b (some provider) =
      let chat =
        with_policy b.chat_policy (new_service provider (memory_conversation_store b.memory)) in
      ok (record {
        memory = b.memory;
        chat = some (add_tools b.tool_runtime chat);
        health_checker = b.health_checker;
        validator = b.validator;
        feature_selector = b.feature_selector;
        hooks = b.hooks;
        run_policy = b.run_policy;
        schema_version = b.schema_version;
        harness_version = b.harness_version;
      })

  unfoldable pub build : HarnessBuilder B W → Result HarnessError (Harness B W)
  unfolding harness_of
  build b = and_then (validate b.run_policy) (λ _. harness_of b b.provider)

abbrev pub default_init_plan : InitPlan
default_init_plan = record {
  steps =
      command "git" ("status" ∷ "--short" ∷ "--branch" ∷ [])
      ∷ command "git" ("log" ∷ "--oneline" ∷ "-20" ∷ [])
      ∷ [];
}

-- A call of the memory backend, with `?`.
abbrev pub in_memory : {B W A : Type 0} → Exec B MemoryError A → Exec (World B W) HarnessError A
in_memory m = catch_into of_memory_error (in_store m)

-- `phase_started_at.elapsed()` and the hook that fits the result.
module _ {B W A : Type 0} (platform : HarnessPlatform W) (h : Harness B W) (phase : HarnessPhase)
    (session_id : SessionId) (run_id : String) where
  report : ℕ → Result HarnessError A → W → W
  report started_at (ok a) w =
      h.hooks.on_phase_success phase session_id run_id (platform.now w - started_at) w
  report started_at (err e) w =
      h.hooks.on_phase_failure phase session_id run_id e (platform.now w - started_at) w
  report started_at no_return w = w

  -- The hooks round a phase.
  unfoldable pub with_phase_hooks :
      Exec (World B W) HarnessError A → Exec (World B W) HarnessError A
  unfolding report
  with_phase_hooks m w =
      let started_at = platform.now w.env in
      let w1 = record w { env = h.hooks.on_phase_start phase session_id run_id w.env } in
      let (r, w2) = m w1 in (r, record w2 { env = report started_at r w2.env })
