-- ===== src/Tooling/Error.antt =====
-- ftooling/src/error.rs
use fiddlesticks.Base.{String, Bool, true, false, Option, none, some}

pub data ToolErrorKind : Type 0 where
  not_found invalid_arguments execution timeout unauthorized other : ToolErrorKind

pub record ToolError : Type 0 where
  pub kind : ToolErrorKind
  pub message : String
  pub retryable : Bool
  pub tool_name : Option String
  pub tool_call_id : Option String

unfoldable pub new : ToolErrorKind → String → Bool → ToolError
new kind message retryable = record {
  kind = kind;
  message = message;
  retryable = retryable;
  tool_name = none;
  tool_call_id = none;
}

-- The constructor of each kind: a timeout alone is retryable.
unfoldable pub of_kind : ToolErrorKind → String → ToolError
unfolding new
of_kind not_found m = new not_found m false
of_kind invalid_arguments m = new invalid_arguments m false
of_kind execution m = new execution m false
of_kind timeout m = new timeout m true
of_kind unauthorized m = new unauthorized m false
of_kind other m = new other m false

unfoldable pub with_tool_name : String → ToolError → ToolError
with_tool_name name e = record e { tool_name = some name }

unfoldable pub with_tool_call_id : String → ToolError → ToolError
with_tool_call_id id e = record e { tool_call_id = some id }

unfoldable pub is_retryable : ToolError → Bool
is_retryable e = e.retryable

unfoldable pub is_user_kind : ToolErrorKind → Bool
is_user_kind invalid_arguments = true
is_user_kind not_found = true
is_user_kind unauthorized = true
is_user_kind _ = false

unfoldable pub is_user_error : ToolError → Bool
unfolding is_user_kind
is_user_error e = is_user_kind e.kind
