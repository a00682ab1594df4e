-- ===== src/Tooling/Runtime/Labels.antt =====
-- How `DefaultToolRuntime::execute` of ftooling/src/runtime.rs ties its answer to the call.
use fiddlesticks.Base.{ℕ, String, Option, none, some, ◌≡◌, refl, string_eq, ==_refl}
use fiddlesticks.Exec.{Result, ok, err, no_return}
use fiddlesticks.Provider.Model.{ToolCall}
use fiddlesticks.Tooling.Error.{ToolError}
use fiddlesticks.Tooling.Types.{Tool, ToolExecutionContext, ToolExecutionResult, from_call}
use fiddlesticks.Tooling.Registry as Tools
use fiddlesticks.Tooling.Registry.{ToolRegistry, get-register}
use fiddlesticks.Tooling.Runtime.{
  Timing, DefaultToolRuntime, new, for_call, fail, timed_out, settle, settle_race, invoke_tool,
  with_tool, execute,
}

-- A result carries the id of the call, and an error its id and the tool's name.
abbrev pub Labelled : ToolCall → Result ToolError ToolExecutionResult → Type 0
Labelled call (ok r) = r.tool_call_id ≡ call.id
Labelled call (err e) = (e.tool_name ≡ some call.name) × (e.tool_call_id ≡ some call.id)
Labelled call no_return = Unit

module _ {W : Type 0} (timing : Timing W) (rt : DefaultToolRuntime W) (call : ToolCall)
    (context : ToolExecutionContext) where
  settle-Labelled :
      (started_at : ℕ) (r : Result ToolError String) (w : W)
      → Labelled call (settle timing rt call context started_at r w).0
  unfolding settle from_call for_call
  settle-Labelled started_at (ok s) w = refl
  settle-Labelled started_at (err e) w = (refl, refl)
  settle-Labelled started_at no_return w = tt

  race-Labelled :
      (started_at limit : ℕ) (o : Option (Result ToolError String)) (w : W)
      → Labelled call (settle_race timing rt call context started_at limit o w).0
  unfolding settle_race timed_out fail for_call
  race-Labelled started_at limit none w = (refl, refl)
  race-Labelled started_at limit (some r) w = settle-Labelled started_at r w

  invoke-Labelled :
      (t : Option ℕ) (started_at : ℕ) (tool : Tool W) (w : W)
      → Labelled call (invoke_tool timing rt call context t started_at tool w).0
  unfolding invoke_tool
  invoke-Labelled none started_at tool w = settle-Labelled started_at _ _
  invoke-Labelled (some limit) started_at tool w = race-Labelled started_at limit _ _

  with_tool-Labelled :
      (o : Option (Tool W)) (started_at : ℕ) (w : W)
      → Labelled call (with_tool timing rt call context o started_at w).0
  unfolding with_tool fail for_call
  with_tool-Labelled none started_at w = (refl, refl)
  with_tool-Labelled (some tool) started_at w = invoke-Labelled rt.timeout started_at tool w

  -- Whatever becomes of a tool call - an unknown tool, a timeout, an error of the tool, an output -
  -- its result carries the id of the call, and its error the call's id and the tool's name.
  pub execute-Labelled : (w : W) → Labelled call (execute timing rt call context w).0
  unfolding execute
  execute-Labelled w = with_tool-Labelled _ _ _

-- What a tool gave, as the runtime hands it on.
abbrev pub handed_on : ToolCall → Result ToolError String → Result ToolError ToolExecutionResult
handed_on call (ok output) = ok (record { tool_call_id = call.id; output = output })
handed_on call (err e) = err (record e { tool_name = some call.name; tool_call_id = some call.id })
handed_on call no_return = no_return

module _ {W : Type 0} (timing : Timing W) (call : ToolCall) (context : ToolExecutionContext) where
  settle_plain :
      (registry : ToolRegistry W) (started_at : ℕ) (r : Result ToolError String) (w : W)
      → settle timing (new registry) call context started_at r w ≡ (handed_on call r, w)
  unfolding settle new from_call for_call
  settle_plain registry started_at (ok s) w = refl
  settle_plain registry started_at (err e) w = refl
  settle_plain registry started_at no_return w = refl

  with_tool_plain :
      (registry : ToolRegistry W) (tool : Tool W) (started_at : ℕ) (w : W)
      → with_tool timing (new registry) call context (some tool) started_at w ≡ (
        handed_on call (tool.invoke call.arguments context w).0,
        (tool.invoke call.arguments context w).1,
      )
  unfolding with_tool invoke_tool new
  with_tool_plain registry tool started_at w = settle_plain registry started_at _ _

  -- A new runtime, with no hooks and no timeout, runs the tool that was registered last under the
  -- name of the call, on the arguments of the call, and hands on what it gave.
  pub execute-register :
      (registry : ToolRegistry W) (tool : Tool W) (w : W)
      → tool.definition.name ≡ call.name
      → execute timing (new (Tools.register registry tool)) call context w ≡ (
        handed_on call (tool.invoke call.arguments context w).0,
        (tool.invoke call.arguments context w).1,
      )
  unfolding execute new
  execute-register registry tool w h =
      rw (get-register registry tool call.name, h, ==_refl call.name)
        (with_tool_plain (Tools.register registry tool) tool (timing.now w) w)
