-- ===== src/Provider/Stream.antt =====
-- fprovider/src/stream.rs and provider.rs: what a provider streams, and the provider's interface.
use fiddlesticks.Base.{String, List}
use fiddlesticks.Exec.{Result, Exec}
use fiddlesticks.Provider.Error.{ProviderError}
use fiddlesticks.Provider.Model.{Message, ToolCall, ModelResponse, ProviderId}
use fiddlesticks.Provider.Request.{ModelRequest}

pub data StreamEvent : Type 0 where
  text_delta : String → StreamEvent
  tool_call_delta : ToolCall → StreamEvent
  message_complete : Message → StreamEvent
  response_complete : ModelResponse → StreamEvent

-- A finite stream is the list of its items, in source order (`VecEventStream`).
abbrev pub EventStream : Type 0
EventStream = List (Result ProviderError StreamEvent)

-- The trait `ModelProvider`; `W` is the state of everything outside the conversation store.
pub record ModelProvider (W : Type 0) : Type 0 where
  pub id : ProviderId
  pub complete : ModelRequest → Exec W ProviderError ModelResponse
  pub stream : ModelRequest → Exec W ProviderError EventStream
