-- ===== src/Tooling/Types.antt =====
-- ftooling/src/types.rs, tool.rs and hooks.rs; the trait `ToolRuntime` of runtime.rs.
use fiddlesticks.Base.{ℕ, String, Option, none, some, string_eq}
use fiddlesticks.Base.Map
use fiddlesticks.Exec.{Exec}
use fiddlesticks.Common.{SessionId, TraceId, MetadataMap}
use fiddlesticks.Provider.Model.{ToolDefinition, ToolCall, ToolResult}
use fiddlesticks.Tooling.Error.{ToolError}

pub record ToolExecutionContext : Type 0 where
  pub session_id : SessionId
  pub trace_id : Option TraceId
  pub metadata : MetadataMap

unfoldable pub new_context : SessionId → ToolExecutionContext
new_context id = record { session_id = id; trace_id = none; metadata = Map.empty }

unfoldable pub with_trace_id : TraceId → ToolExecutionContext → ToolExecutionContext
with_trace_id id c = record c { trace_id = some id }

unfoldable pub with_metadata : String → String → ToolExecutionContext → ToolExecutionContext
with_metadata k v c = record c { metadata = Map.insert c.metadata k v }

pub record ToolExecutionResult : Type 0 where
  pub tool_call_id : String
  pub output : String

unfoldable pub from_call : ToolCall → String → ToolExecutionResult
from_call call output = record { tool_call_id = call.id; output = output }

unfoldable pub into_tool_result : ToolExecutionResult → ToolResult
into_tool_result r = record { tool_call_id = r.tool_call_id; output = r.output }

-- The trait `Tool`; a `FunctionTool` is its definition and its handler.
pub record Tool (W : Type 0) : Type 0 where
  pub definition : ToolDefinition
  pub invoke : String → ToolExecutionContext → Exec W ToolError String

-- The trait `ToolRuntime`.
pub record ToolRuntime (W : Type 0) : Type 0 where
  pub execute : ToolCall → ToolExecutionContext → Exec W ToolError ToolExecutionResult

-- The trait `ToolRuntimeHooks`; the last argument is the time taken.
pub record ToolRuntimeHooks (W : Type 0) : Type 0 where
  pub on_execution_start : ToolCall → ToolExecutionContext → W → W
  pub on_execution_success : ToolCall → ToolExecutionContext → ToolExecutionResult → ℕ → W → W
  pub on_execution_failure : ToolCall → ToolExecutionContext → ToolError → ℕ → W → W

abbrev pub noop_tool_runtime_hooks : {W : Type 0} → ToolRuntimeHooks W
noop_tool_runtime_hooks = record {
  on_execution_start = λ call c w. w;
  on_execution_success = λ call c r t w. w;
  on_execution_failure = λ call c e t w. w;
}
