-- ===== src/Provider/OpenAi/Types.antt =====
-- fprovider/src/adapters/openai/types.rs, and the trait of transport.rs.
use fiddlesticks.Base.{
  ℕ, String, Bool, Option, none, some, List, [], ◌∷◌, ◌++◌, map, if◌then◌else◌, is_empty_text,
}
use fiddlesticks.Exec.{Result, Exec}
use fiddlesticks.Provider.Error.{ProviderError}
use fiddlesticks.Provider.Model.{
  ProviderId, Role, Message, message, ToolDefinition, ToolCall, ToolResult, message_item,
  tool_call_item, StopReason, TokenUsage, ModelResponse,
}
use fiddlesticks.Provider.Stream.{
  StreamEvent, text_delta, tool_call_delta, message_complete, response_complete,
}
use fiddlesticks.Provider.Credentials.{SecretString}

pub data OpenAiRole : Type 0 where
  system user assistant tool : OpenAiRole

-- `OpenAiRole::as_str`
unfoldable pub role_name : OpenAiRole → String
role_name system = "system"
role_name user = "user"
role_name assistant = "assistant"
role_name tool = "tool"

unfoldable pub from_role : Role → OpenAiRole
from_role Role.system = system
from_role Role.user = user
from_role Role.assistant = assistant
from_role Role.tool = tool

pub record OpenAiMessage : Type 0 where
  pub role : OpenAiRole
  pub content : String
  pub tool_call_id : Option String

unfoldable pub from_message : Message → OpenAiMessage
unfolding from_role
from_message m = record { role = from_role m.role; content = m.content; tool_call_id = none }

-- `OpenAiMessage::tool_result`
unfoldable pub from_tool_result : ToolResult → OpenAiMessage
from_tool_result r = record { role = tool; content = r.output; tool_call_id = some r.tool_call_id }

pub record OpenAiTool : Type 0 where
  pub name : String
  pub description : String
  pub input_schema : String

unfoldable pub from_tool_definition : ToolDefinition → OpenAiTool
from_tool_definition t = record {
  name = t.name;
  description = t.description;
  input_schema = t.input_schema;
}

pub record OpenAiRequest : Type 0 where
  pub model : String
  pub messages : List OpenAiMessage
  pub tools : List OpenAiTool
  pub temperature : Option ℕ
  pub max_tokens : Option ℕ
  pub stream : Bool

pub record OpenAiToolCall : Type 0 where
  pub id : String
  pub name : String
  pub arguments : String

unfoldable pub into_tool_call : OpenAiToolCall → ToolCall
into_tool_call c = record { id = c.id; name = c.name; arguments = c.arguments }

pub record OpenAiAssistantMessage : Type 0 where
  pub content : String
  pub tool_calls : List OpenAiToolCall

pub data OpenAiFinishReason : Type 0 where
  stop length tool_calls cancelled other : OpenAiFinishReason

unfoldable pub into_stop_reason : OpenAiFinishReason → StopReason
into_stop_reason stop = StopReason.end_turn
into_stop_reason length = StopReason.max_tokens
into_stop_reason tool_calls = StopReason.tool_use
into_stop_reason cancelled = StopReason.cancelled
into_stop_reason other = StopReason.other

pub record OpenAiUsage : Type 0 where
  pub prompt_tokens : ℕ
  pub completion_tokens : ℕ
  pub total_tokens : ℕ

abbrev pub no_usage : OpenAiUsage
no_usage = record { prompt_tokens = 0; completion_tokens = 0; total_tokens = 0 }

unfoldable pub into_token_usage : OpenAiUsage → TokenUsage
into_token_usage u = record {
  input_tokens = u.prompt_tokens;
  output_tokens = u.completion_tokens;
  total_tokens = u.total_tokens;
}

pub record OpenAiResponse : Type 0 where
  pub model : String
  pub message : OpenAiAssistantMessage
  pub finish_reason : OpenAiFinishReason
  pub usage : OpenAiUsage

unfoldable pub into_model_response : OpenAiResponse → ModelResponse
unfolding into_tool_call into_stop_reason into_token_usage
into_model_response r =
    let said =
      if is_empty_text r.message.content
      then []
      else message_item (message Role.assistant r.message.content) ∷ [] in
    record {
      provider = ProviderId.open_ai;
      model = r.model;
      output = said ++ map (λ c. tool_call_item (into_tool_call c)) r.message.tool_calls;
      stop_reason = into_stop_reason r.finish_reason;
      usage = into_token_usage r.usage;
    }

pub data OpenAiAuth : Type 0 where
  api_key : SecretString → OpenAiAuth
  browser_session : SecretString → OpenAiAuth

pub data OpenAiStreamChunk : Type 0 where
  text_chunk : String → OpenAiStreamChunk
  tool_call_chunk : OpenAiToolCall → OpenAiStreamChunk
  message_chunk : OpenAiAssistantMessage → OpenAiStreamChunk
  response_chunk : OpenAiResponse → OpenAiStreamChunk

unfoldable pub into_stream_event : OpenAiStreamChunk → StreamEvent
unfolding into_tool_call into_model_response
into_stream_event (text_chunk delta) = text_delta delta
into_stream_event (tool_call_chunk call) = tool_call_delta (into_tool_call call)
into_stream_event (message_chunk m) = message_complete (message Role.assistant m.content)
into_stream_event (response_chunk r) = response_complete (into_model_response r)

-- A finite stream is the list of its items.
abbrev pub OpenAiChunkStream : Type 0
OpenAiChunkStream = List (Result ProviderError OpenAiStreamChunk)

-- The trait `OpenAiTransport`.
pub record OpenAiTransport (W : Type 0) : Type 0 where
  pub complete : OpenAiRequest → OpenAiAuth → Exec W ProviderError OpenAiResponse
  pub stream : OpenAiRequest → OpenAiAuth → Exec W ProviderError OpenAiChunkStream
