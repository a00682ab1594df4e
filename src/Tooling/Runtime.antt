-- ===== src/Tooling/Runtime.antt =====
-- ftooling/src/runtime.rs: `DefaultToolRuntime`.
pub mod Labels
pub mod Reports
use fiddlesticks.Base.{ℕ, ◌-◌, String, Option, none, some, text_append}
use fiddlesticks.Exec.{Result, ok, err, no_return, Exec}
use fiddlesticks.Provider.Model.{ToolCall}
use fiddlesticks.Tooling.Error.{
  ToolError, of_kind, not_found, timeout, with_tool_name, with_tool_call_id,
}
use fiddlesticks.Tooling.Types.{
  Tool, ToolExecutionContext, ToolExecutionResult, ToolRuntime, ToolRuntimeHooks, from_call,
  noop_tool_runtime_hooks,
}
use fiddlesticks.Tooling.Registry as Tools
use fiddlesticks.Tooling.Registry.{ToolRegistry}

-- Time: the clock, `select` of an invocation and a delay (`none` where the delay ends first), and
-- how a duration is printed.
pub record Timing (W : Type 0) : Type 0 where
  pub now : W → ℕ
  pub race : ℕ → Exec W ToolError String → W → Option (Result ToolError String) × W
  pub debug_duration : ℕ → String

pub record DefaultToolRuntime (W : Type 0) : Type 0 where
  pub registry : ToolRegistry W
  pub hooks : ToolRuntimeHooks W
  pub timeout : Option ℕ

module _ {W : Type 0} where
  unfoldable pub new : ToolRegistry W → DefaultToolRuntime W
  new registry = record { registry = registry; hooks = noop_tool_runtime_hooks; timeout = none }

  unfoldable pub with_hooks : DefaultToolRuntime W → ToolRuntimeHooks W → DefaultToolRuntime W
  with_hooks r hooks = record r { hooks = hooks }

  unfoldable pub with_timeout : DefaultToolRuntime W → ℕ → DefaultToolRuntime W
  with_timeout r t = record r { timeout = some t }

  unfoldable pub clear_timeout : DefaultToolRuntime W → DefaultToolRuntime W
  clear_timeout r = record r { timeout = none }

-- `error.with_tool_name(call.name).with_tool_call_id(call.id)`
abbrev pub for_call : ToolCall → ToolError → ToolError
unfolding with_tool_name with_tool_call_id
for_call call e = with_tool_call_id call.id (with_tool_name call.name e)

abbrev not_registered : ToolCall → ToolError
unfolding of_kind
not_registered call =
    for_call call
      (of_kind not_found (text_append "tool '" (text_append call.name "' is not registered")))

module _ {W : Type 0} (timing : Timing W) (rt : DefaultToolRuntime W) (call : ToolCall)
    (context : ToolExecutionContext) where
  -- Report the failure to the hooks and return it.
  fail : ℕ → ToolError → W → Result ToolError ToolExecutionResult × W
  fail started_at e w =
      (err e, rt.hooks.on_execution_failure call context e (timing.now w - started_at) w)

  timed_out : ℕ → ToolError
  unfolding of_kind
  timed_out limit = for_call call (
      of_kind timeout (
        text_append "tool '"
          (text_append call.name (text_append "' timed out after " (timing.debug_duration limit)))))

  -- The `match output` at the end.
  settle : ℕ → Result ToolError String → W → Result ToolError ToolExecutionResult × W
  unfolding fail
  settle started_at (ok output) w =
      let result = from_call call output in
      (ok result, rt.hooks.on_execution_success call context result (timing.now w - started_at) w)
  settle started_at (err e) w = fail started_at (for_call call e) w
  settle started_at no_return w = (no_return, w)

  settle_race :
      ℕ → ℕ → Option (Result ToolError String) → W → Result ToolError ToolExecutionResult × W
  unfolding settle timed_out
  settle_race started_at limit none w = fail started_at (timed_out limit) w
  settle_race started_at limit (some r) w = settle started_at r w

  invoke_tool : Option ℕ → ℕ → Tool W → W → Result ToolError ToolExecutionResult × W
  unfolding settle_race
  invoke_tool none started_at tool w =
      let (r, w') = tool.invoke call.arguments context w in settle started_at r w'
  invoke_tool (some limit) started_at tool w =
      let (r, w') = timing.race limit (tool.invoke call.arguments context) w in
      settle_race started_at limit r w'

  with_tool : Option (Tool W) → ℕ → W → Result ToolError ToolExecutionResult × W
  unfolding invoke_tool
  with_tool none started_at w = fail started_at (not_registered call) w
  with_tool (some tool) started_at w = invoke_tool rt.timeout started_at tool w

  unfoldable pub execute : Exec W ToolError ToolExecutionResult
  unfolding with_tool
  execute w =
      with_tool (Tools.get rt.registry call.name) (timing.now w)
        (rt.hooks.on_execution_start call context w)

abbrev pub as_tool_runtime : {W : Type 0} → Timing W → DefaultToolRuntime W → ToolRuntime W
as_tool_runtime timing rt = record { execute = execute timing rt }
