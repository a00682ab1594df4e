-- ===== src/Chat/Turn.antt =====
-- `ChatService::run_turn` of fchat/src/service.rs.
pub mod Keeping
pub mod Saved
pub mod Returns
pub mod Limit
pub mod Views
use fiddlesticks.Base.{
  ℕ, zero, suc, ◌+◌, String, Bool, not, ◌&&◌, Option, List, [], ◌∷◌, ◌++◌, is_empty, ltb, leb,
  if◌then◌else◌,
}
use fiddlesticks.Exec.{Result, no_return, Exec, pure, raise, lift, catch_into, ◌>>=◌, ◌>>◌}
use fiddlesticks.Provider.Model.{Message, Role, message, ToolCall, ModelResponse}
use fiddlesticks.Chat.Error.{ChatError, ChatErrorKind, ChatErrorPhase, new, with_phase}
use fiddlesticks.Chat.Types.{ChatSession, ChatTurnRequest, ChatTurnResult}
use fiddlesticks.Chat.Service.{
  Platform, World, ChatService, TurnContext, in_store, prepare_turn, complete_with_retry, run_tools,
  build_request, collect_output, has_value,
}

unfoldable pub not_streaming : ChatError
unfolding new
not_streaming = new ChatErrorKind.invalid_request "use stream_turn for streaming requests"

module _ {St W : Type 0} (platform : Platform W) (chat : ChatService St W) where
  unfoldable pub limit_reached : List ToolCall → ℕ → Bool
  limit_reached tool_calls round_trips =
      has_value chat.tool_runtime
      && not (is_empty tool_calls)
      && leb chat.policy.max_tool_round_trips round_trips

  unfoldable pub should_run_tools : List ToolCall → ℕ → Bool
  should_run_tools tool_calls round_trips =
      has_value chat.tool_runtime
      && ltb 0 chat.policy.max_tool_round_trips
      && not (is_empty tool_calls)
      && ltb round_trips chat.policy.max_tool_round_trips

  -- Persist the messages of the turn and return its result.
  unfoldable pub finish_turn :
      ChatSession
      → List Message
      → String
      → List ToolCall
      → ModelResponse
      → Bool
      → Exec (World St W) ChatError ChatTurnResult
  unfolding with_phase
  finish_turn session persisted text tool_calls response limit = do
    catch_into (with_phase ChatErrorPhase.storage)
        (in_store (chat.store.append_messages session.id persisted))
    pure (record {
      session_id = session.id;
      assistant_message = text;
      tool_calls = tool_calls;
      stop_reason = response.stop_reason;
      usage = response.usage;
      tool_round_limit_reached = limit;
    })

  -- Run the tools and ask the provider again with their results.
  unfoldable pub ask_again :
      TurnContext → List Message → List ToolCall → Exec (World St W) ChatError ModelResponse
  ask_again context conversation tool_calls = do
    results ← run_tools platform chat context.session.id tool_calls
    request ← lift (
        build_request context.session.model conversation context.temperature context.max_tokens
          Bool.false results)
    complete_with_retry platform chat context.session.provider request

  -- One round of the loop, given what follows it: `again` takes the new messages and the response.
  unfoldable pub turn_round :
      (List Message → List Message → ModelResponse → Exec (World St W) ChatError ChatTurnResult)
      → TurnContext
      → List Message
      → List Message
      → ℕ
      → ModelResponse
      → Exec (World St W) ChatError ChatTurnResult
  unfolding limit_reached should_run_tools finish_turn ask_again
  turn_round again context conversation persisted round_trips response =
      let (text, tool_calls) = collect_output response.output in
      let reply = message Role.assistant text in
      let conversation' = conversation ++ reply ∷ [] in
      let persisted' = persisted ++ reply ∷ [] in
      if should_run_tools tool_calls round_trips
      then (ask_again context conversation' tool_calls >>= again conversation' persisted')
      else finish_turn context.session persisted' text tool_calls response
          (limit_reached tool_calls round_trips)

  unfoldable pub turn_loop :
      ℕ
      → TurnContext
      → List Message
      → List Message
      → ℕ
      → ModelResponse
      → Exec (World St W) ChatError ChatTurnResult
  unfolding turn_round
  turn_loop zero context conversation persisted round_trips response = lift no_return
  turn_loop (suc fuel) context conversation persisted round_trips response =
      turn_round (λ c p r. turn_loop fuel context c p (round_trips + 1) r) context conversation
        persisted round_trips response

  -- The first request, and the loop. A round runs tools only while
  -- `round_trips < max_tool_round_trips`.
  unfoldable pub begin_turn : ℕ → TurnContext → Exec (World St W) ChatError ChatTurnResult
  unfolding turn_loop
  begin_turn fuel context = do
    first ← lift (
        build_request context.session.model context.conversation_messages context.temperature
          context.max_tokens Bool.false [])
    response ← complete_with_retry platform chat context.session.provider first
    turn_loop fuel context context.conversation_messages (context.user_message ∷ []) 0 response

  -- The turn, whose loop runs for at most a number of rounds.
  unfoldable pub run_turn_within : ℕ → ChatTurnRequest → Exec (World St W) ChatError ChatTurnResult
  unfolding begin_turn not_streaming
  run_turn_within fuel request =
      if request.options.stream
      then raise not_streaming
      else (prepare_turn platform chat request >>= begin_turn fuel)

  -- One round more than tools may be run is enough.
  unfoldable pub run_turn : ChatTurnRequest → Exec (World St W) ChatError ChatTurnResult
  unfolding run_turn_within
  run_turn = run_turn_within (suc chat.policy.max_tool_round_trips)
