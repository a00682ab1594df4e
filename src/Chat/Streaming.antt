-- ===== src/Chat/Streaming.antt =====
-- What the events of one streamed response do in `ChatService::stream_turn` of fchat/src/service.rs.
pub mod Turn
pub mod Quiet
pub mod Streamed
pub mod Saved
pub mod Heard
pub mod Returns
use fiddlesticks.Base.{
  ℕ, zero, suc, ◌+◌, String, Bool, true, false, not, ◌&&◌, Option, List, [], ◌∷◌, ◌++◌, is_empty,
  is_empty_text, length, ltb, leb, if◌then◌else◌,
}
use Prim.Native.Nat.{Ordering}
use Prim.Native.String.{compare, ◌++◌ as text_append}
use fiddlesticks.Exec.{
  Result, ok, err, no_return, Exec, map_err, pure, lift, catch_into, on_part, ◌>>=◌, ◌>>◌,
}
use fiddlesticks.Provider.Model.{
  Message, Role, message, ToolCall, ToolResult, ModelResponse, StopReason, TokenUsage,
  default_usage,
}
use fiddlesticks.Provider.Stream.{StreamEvent, EventStream}
use fiddlesticks.Provider.Request.{ModelRequest}
use fiddlesticks.Provider.Resilience.{execute_with_retry}
use fiddlesticks.Provider.Error.{ProviderError}
use fiddlesticks.Chat.Error.{ChatError, ChatErrorPhase, with_phase, of_provider_error}
use fiddlesticks.Chat.Types.{ChatSession, ChatTurnRequest, ChatTurnResult, ChatEvent}
use fiddlesticks.Chat.Service.{
  Platform, World, ChatService, TurnContext, in_store, in_env, prepare_turn, execute_tool,
  build_request, collect_output, has_value,
}

-- `BTreeMap::insert` by the call's id: the calls stay in the order of their ids, and a call under an
-- id that is taken replaces the call that had it.
unfoldable pub insert_call : ToolCall → List ToolCall → List ToolCall
insert_call c [] = c ∷ []
insert_call c (d ∷ calls) =
    let rest = insert_call c calls in
    elim (compare c.id d.id) [
      | Ordering.lt ↦ c ∷ d ∷ calls
      | Ordering.eq ↦ c ∷ calls
      | Ordering.gt ↦ d ∷ rest
    ]

unfoldable pub insert_calls : List ToolCall → List ToolCall → List ToolCall
unfolding insert_call
insert_calls [] calls = calls
insert_calls (c ∷ cs) calls = insert_calls cs (insert_call c calls)

-- The variables that the events of one response fill.
pub record Reply : Type 0 where
  pub text : String
  pub tool_calls : List ToolCall
  pub stop_reason : StopReason
  pub usage : TokenUsage

abbrev pub no_reply : Reply
no_reply = record {
  text = "";
  tool_calls = [];
  stop_reason = StopReason.other;
  usage = default_usage;
}

-- `MessageComplete` of an assistant fills the text if it is empty, and is passed on; of any other
-- role it is dropped.
unfoldable pub on_message : Role → String → Reply → List ChatEvent × Reply
on_message Role.assistant content r = (
  ChatEvent.assistant_message_complete content ∷ [],
  record r { text = if is_empty_text r.text then content else r.text },
)
on_message _ content r = ([], r)

-- What one event yields, and what it does to the variables.
unfoldable pub on_event : StreamEvent → Reply → List ChatEvent × Reply
unfolding insert_calls on_message
on_event (StreamEvent.text_delta delta) r =
    (ChatEvent.text_delta delta ∷ [], record r { text = text_append r.text delta })
on_event (StreamEvent.tool_call_delta call) r =
    (ChatEvent.tool_call_delta call ∷ [], record r { tool_calls = insert_call call r.tool_calls })
on_event (StreamEvent.message_complete m) r = on_message m.role m.content r
on_event (StreamEvent.response_complete response) r =
    let (content, calls) = collect_output response.output in
    (
      [],
      record {
        text = if is_empty_text content then r.text else content;
        tool_calls = insert_calls calls r.tool_calls;
        stop_reason = response.stop_reason;
        usage = response.usage;
      },
    )

-- `while let Some(event) = provider_stream.next().await`: an error ends the turn.
unfoldable pub read_stream : EventStream → Reply → List ChatEvent × Result ChatError Reply
unfolding on_event with_phase of_provider_error
read_stream [] r = ([], ok r)
read_stream (ok event ∷ events) r =
    let (yielded, r') = on_event event r in
    let (later, result) = read_stream events r' in (yielded ++ later, result)
read_stream (err e ∷ events) r =
    ([], err (with_phase ChatErrorPhase.streaming (of_provider_error e)))
read_stream (no_return ∷ events) r = ([], no_return)
