-- ===== src/Provider/OpenAi/Api.antt =====
-- fprovider/src/adapters/openai/serde_api.rs: what goes over the wire, as data. The type `Value` of
-- JSON values and its parser are parameters.
use fiddlesticks.Base.{
  ℕ, String, Bool, true, false, not, ◌&&◌, Option, none, some, List, [], ◌∷◌, map, if◌then◌else◌,
  ◌==◌, string_eq, is_blank, is_empty,
}
use fiddlesticks.Exec.{collect_map, Result, ok, err, and_then, found_or}
use fiddlesticks.Provider.Error.{ProviderError, ProviderErrorKind, of_kind}
use fiddlesticks.Provider.OpenAi.Types.{
  OpenAiRole, role_name, OpenAiMessage, OpenAiTool, OpenAiRequest, OpenAiResponse, OpenAiToolCall,
  OpenAiFinishReason, OpenAiUsage, no_usage,
}

pub data OpenAiTokenParameter : Type 0 where
  max_tokens_parameter max_completion_tokens_parameter : OpenAiTokenParameter

pub record OpenAiApiMessage : Type 0 where
  pub role : String
  pub content : String
  pub tool_call_id : Option String

pub record OpenAiApiFunction (Value : Type 0) : Type 0 where
  pub name : String
  pub description : String
  pub parameters : Value

-- `type` is called `kind`.
pub record OpenAiApiTool (Value : Type 0) : Type 0 where
  pub kind : String
  pub function : OpenAiApiFunction Value

pub record OpenAiApiRequest (Value : Type 0) : Type 0 where
  pub model : String
  pub messages : List OpenAiApiMessage
  pub tools : Option (List (OpenAiApiTool Value))
  pub temperature : Option ℕ
  pub max_tokens : Option ℕ
  pub max_completion_tokens : Option ℕ
  pub stream : Bool

abbrev pub invalid : String → ProviderError
invalid m = of_kind ProviderErrorKind.invalid_request m

abbrev pub is_assistant : OpenAiRole → Bool
is_assistant OpenAiRole.assistant = true
is_assistant OpenAiRole.system = false
is_assistant OpenAiRole.user = false
is_assistant OpenAiRole.tool = false

-- `TryFrom<OpenAiMessage>`
unfoldable pub api_message : OpenAiMessage → Result ProviderError OpenAiApiMessage
api_message m =
    if is_blank m.content && not (is_assistant m.role)
    then err (invalid "OpenAI message content must not be empty")
    else ok (record { role = role_name m.role; content = m.content; tool_call_id = m.tool_call_id })

-- `OpenAiApiErrorEnvelope` with its `OpenAiApiError`
pub record OpenAiApiErrorEnvelope : Type 0 where
  pub message : String

unfoldable pub extract_error_message :
    (from_str : String → Option OpenAiApiErrorEnvelope) → String → Option String
extract_error_message from_str body = elim (from_str body) [
  | none ↦ none
  | some parsed ↦ some parsed.message
]

unfoldable pub parse_finish_reason : Option String → OpenAiFinishReason
parse_finish_reason none = OpenAiFinishReason.other
parse_finish_reason (some s) =
    if s == "stop"
    then OpenAiFinishReason.stop
    else if s == "length"
    then OpenAiFinishReason.length
    else if s == "tool_calls"
    then OpenAiFinishReason.tool_calls
    else if s == "cancelled"
    then OpenAiFinishReason.cancelled
    else OpenAiFinishReason.other

-- `(p == parameter).then_some(tokens).flatten()`
abbrev pub if_max_tokens : OpenAiTokenParameter → Option ℕ → Option ℕ
if_max_tokens max_tokens_parameter tokens = tokens
if_max_tokens max_completion_tokens_parameter tokens = none

abbrev pub if_max_completion_tokens : OpenAiTokenParameter → Option ℕ → Option ℕ
if_max_completion_tokens max_tokens_parameter tokens = none
if_max_completion_tokens max_completion_tokens_parameter tokens = tokens

module _ {Value : Type 0} (from_str : String → Option Value) where
  -- `TryFrom<OpenAiTool>`
  unfoldable pub api_tool : OpenAiTool → Result ProviderError (OpenAiApiTool Value)
  api_tool t =
      and_then
        (found_or (invalid "OpenAI tool schema must be valid JSON") (from_str t.input_schema))
        λ parameters. ok (record {
          kind = "function";
          function = record { name = t.name; description = t.description; parameters = parameters };
        })

  unfoldable pub api_tools :
      List OpenAiTool → Result ProviderError (Option (List (OpenAiApiTool Value)))
  api_tools [] = ok none
  api_tools (t ∷ ts) = and_then (collect_map api_tool (t ∷ ts)) (λ tools. ok (some tools))

  unfoldable pub build_api_request_with_token_parameter :
      OpenAiRequest → OpenAiTokenParameter → Result ProviderError (OpenAiApiRequest Value)
  build_api_request_with_token_parameter r parameter =
      and_then (collect_map api_message r.messages) λ messages.
        if is_empty messages
        then err (invalid "OpenAI request requires at least one message")
        else and_then (api_tools r.tools) λ tools. ok (record {
          model = r.model;
          messages = messages;
          tools = tools;
          temperature = r.temperature;
          max_tokens = if_max_tokens parameter r.max_tokens;
          max_completion_tokens = if_max_completion_tokens parameter r.max_tokens;
          stream = r.stream;
        })

-- `OpenAiApiToolCall` with its `OpenAiApiToolFunction`
pub record OpenAiApiToolCall : Type 0 where
  pub id : String
  pub name : String
  pub arguments : String

-- `OpenAiApiChoice` with its `OpenAiApiAssistantMessage`
pub record OpenAiApiChoice : Type 0 where
  pub content : Option String
  pub tool_calls : Option (List OpenAiApiToolCall)
  pub finish_reason : Option String

pub record OpenAiApiResponse : Type 0 where
  pub model : String
  pub choices : List OpenAiApiChoice
  pub usage : Option OpenAiUsage

abbrev pub or_empty {ℓ} : {A : Type ℓ} → Option (List A) → List A
or_empty none = []
or_empty (some xs) = xs

abbrev pub or_blank : Option String → String
or_blank none = ""
or_blank (some s) = s

abbrev or_no_usage : Option OpenAiUsage → OpenAiUsage
or_no_usage none = no_usage
or_no_usage (some u) = u

unfoldable pub openai_tool_call : OpenAiApiToolCall → OpenAiToolCall
openai_tool_call c = record { id = c.id; name = c.name; arguments = c.arguments }

-- `TryFrom<OpenAiApiResponse>`
openai_response_of : OpenAiApiResponse → List OpenAiApiChoice → Result ProviderError OpenAiResponse
unfolding openai_tool_call
openai_response_of r [] =
    err (of_kind ProviderErrorKind.transport "OpenAI response did not include choices")
openai_response_of r (choice ∷ rest) = ok (record {
  model = r.model;
  message = record {
    content = or_blank choice.content;
    tool_calls = map openai_tool_call (or_empty choice.tool_calls);
  };
  finish_reason = parse_finish_reason choice.finish_reason;
  usage = or_no_usage r.usage;
})

unfoldable pub openai_response : OpenAiApiResponse → Result ProviderError OpenAiResponse
unfolding openai_response_of
openai_response r = openai_response_of r r.choices

-- `OpenAiApiDeltaToolCall` with its `OpenAiApiDeltaToolFunction`
pub record OpenAiApiDeltaToolFunction : Type 0 where
  pub name : Option String
  pub arguments : Option String

pub record OpenAiApiDeltaToolCall : Type 0 where
  pub index : Option ℕ
  pub id : Option String
  pub function : Option OpenAiApiDeltaToolFunction

-- `OpenAiApiStreamChoice` with its `OpenAiApiStreamDelta`
pub record OpenAiApiStreamChoice : Type 0 where
  pub content : Option String
  pub tool_calls : Option (List OpenAiApiDeltaToolCall)
  pub finish_reason : Option String

pub record OpenAiApiStreamResponse : Type 0 where
  pub model : Option String
  pub choices : List OpenAiApiStreamChoice
