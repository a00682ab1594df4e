-- ===== src/Provider/Request.antt =====
-- fprovider/src/model.rs: `ModelRequest`, its validation and its builder.
use fiddlesticks.Base.{
  ℕ, String, Bool, false, Option, none, some, List, [], ◌∷◌, ◌++◌, is_empty, is_blank, eqb, not,
  if◌then◌else◌, string_eq,
}
use fiddlesticks.Base.Map
use fiddlesticks.Exec.{Result, ok, err, and_then}
use fiddlesticks.Common.{
  GenerationOptions, MetadataMap, default_options, with_temperature, with_max_tokens,
  with_streaming, in_zero_to_two,
}
use fiddlesticks.Provider.Error.{ProviderError, new, of_kind}
use fiddlesticks.Provider.Error.{invalid_request}
use fiddlesticks.Provider.Model.{Message, ToolDefinition, ToolResult}

pub record ModelRequest : Type 0 where
  pub model : String
  pub messages : List Message
  pub options : GenerationOptions
  pub tools : List ToolDefinition
  pub tool_results : List ToolResult
  pub metadata : MetadataMap

abbrev check :
    Bool → ProviderError → Result ProviderError (Unit {0}) → Result ProviderError (Unit {0})
check refused error rest = if refused then err error else rest

-- `let Some(n) = max_tokens && n == 0`
zero_tokens : Option ℕ → Bool
zero_tokens none = false
zero_tokens (some n) = eqb n 0

-- `let Some(t) = temperature && !(0.0..=2.0).contains(&t)`
bad_temperature : Option ℕ → Bool
bad_temperature none = false
bad_temperature (some t) = not (in_zero_to_two t)

unfoldable pub validate : ModelRequest → Result ProviderError (Unit {0})
unfolding zero_tokens bad_temperature of_kind new
validate r = check (is_blank r.model) (of_kind invalid_request "model must not be empty") (
    check (is_empty r.messages) (of_kind invalid_request "at least one message is required") (
      check (zero_tokens r.options.max_tokens)
        (of_kind invalid_request "max_tokens must be greater than zero")
        (check (bad_temperature r.options.temperature)
          (new invalid_request "temperature must be in the inclusive range 0.0..=2.0" false)
          (ok tt))))

-- `ModelRequestBuilder` has the fields of a request, and `build` checks them.
abbrev pub ModelRequestBuilder : Type 0
ModelRequestBuilder = ModelRequest

unfoldable pub builder : String → ModelRequestBuilder
builder model = record {
  model = model;
  messages = [];
  options = default_options;
  tools = [];
  tool_results = [];
  metadata = Map.empty;
}

unfoldable pub add_message : ModelRequestBuilder → Message → ModelRequestBuilder
add_message b m = record b { messages = b.messages ++ m ∷ [] }

unfoldable pub add_messages : ModelRequestBuilder → List Message → ModelRequestBuilder
add_messages b ms = record b { messages = b.messages ++ ms }

unfoldable pub set_temperature : ModelRequestBuilder → ℕ → ModelRequestBuilder
unfolding with_temperature
set_temperature b t = record b { options = with_temperature b.options t }

unfoldable pub set_max_tokens : ModelRequestBuilder → ℕ → ModelRequestBuilder
unfolding with_max_tokens
set_max_tokens b n = record b { options = with_max_tokens b.options n }

unfoldable pub set_tools : ModelRequestBuilder → List ToolDefinition → ModelRequestBuilder
set_tools b ts = record b { tools = ts }

unfoldable pub set_tool_results : ModelRequestBuilder → List ToolResult → ModelRequestBuilder
set_tool_results b rs = record b { tool_results = rs }

unfoldable pub add_metadata : ModelRequestBuilder → String → String → ModelRequestBuilder
add_metadata b k v = record b { metadata = Map.insert b.metadata k v }

unfoldable pub streaming : ModelRequestBuilder → Bool → ModelRequestBuilder
unfolding with_streaming
streaming b on = record b { options = with_streaming b.options on }

unfoldable pub build : ModelRequestBuilder → Result ProviderError ModelRequest
unfolding validate
build b = and_then (validate b) (λ _. ok b)
