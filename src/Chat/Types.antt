-- ===== src/Chat/Types.antt =====
-- fchat/src/types.rs: sessions, turn requests, turn results and events.
use fiddlesticks.Base.{ℕ, String, Bool, Option, none, some, List}
use fiddlesticks.Common.{
  SessionId, GenerationOptions, default_options, with_temperature, with_max_tokens, with_streaming,
}
use fiddlesticks.Provider.Model.{ProviderId, StopReason, TokenUsage, ToolCall}

pub record ChatSession : Type 0 where
  pub id : SessionId
  pub provider : ProviderId
  pub model : String
  pub system_prompt : Option String

unfoldable pub new_session : SessionId → ProviderId → String → ChatSession
new_session id provider model = record {
  id = id;
  provider = provider;
  model = model;
  system_prompt = none;
}

unfoldable pub with_system_prompt : String → ChatSession → ChatSession
with_system_prompt p s = record s { system_prompt = some p }

-- `ChatTurnRequestBuilder` has the same fields, and its `build` keeps them.
pub record ChatTurnRequest : Type 0 where
  pub session : ChatSession
  pub user_input : String
  pub options : GenerationOptions

unfoldable pub new_request : ChatSession → String → ChatTurnRequest
new_request session user_input = record {
  session = session;
  user_input = user_input;
  options = default_options;
}

unfoldable pub temperature : ℕ → ChatTurnRequest → ChatTurnRequest
unfolding with_temperature
temperature t r = record r { options = with_temperature r.options t }

unfoldable pub max_tokens : ℕ → ChatTurnRequest → ChatTurnRequest
unfolding with_max_tokens
max_tokens n r = record r { options = with_max_tokens r.options n }

unfoldable pub streaming : Bool → ChatTurnRequest → ChatTurnRequest
unfolding with_streaming
streaming on r = record r { options = with_streaming r.options on }

unfoldable pub with_options : GenerationOptions → ChatTurnRequest → ChatTurnRequest
with_options o r = record r { options = o }

unfoldable pub build : ChatTurnRequest → ChatTurnRequest
unfolding new_request with_options
build b = with_options b.options (new_request b.session b.user_input)

pub record ChatTurnResult : Type 0 where
  pub session_id : SessionId
  pub assistant_message : String
  pub tool_calls : List ToolCall
  pub stop_reason : StopReason
  pub usage : TokenUsage
  pub tool_round_limit_reached : Bool

pub data ChatEvent : Type 0 where
  text_delta : String → ChatEvent
  tool_call_delta : ToolCall → ChatEvent
  tool_execution_started : ToolCall → ChatEvent
  tool_execution_finished : ToolCall → ChatEvent
  assistant_message_complete : String → ChatEvent
  tool_round_limit_reached : (max_round_trips pending_tool_calls : ℕ) → ChatEvent
  turn_complete : ChatTurnResult → ChatEvent
