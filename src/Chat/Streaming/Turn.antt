-- ===== src/Chat/Streaming/Turn.antt =====
-- `ChatService::stream_turn` of fchat/src/service.rs: the stream is the list of the events that it
-- yields when it is read to its end, with the error that ends it, if one does. `reader` is what the
-- reader of the stream does with an event before it asks for the next one.
use fiddlesticks.Base.{
  ℕ, zero, suc, ◌+◌, Bool, true, false, not, ◌&&◌, List, [], ◌∷◌, ◌++◌, is_empty, length, ltb, leb,
  if◌then◌else◌,
}
use fiddlesticks.Exec.{ok, no_return, Exec, pure, lift, catch_into, on_part, ◌>>=◌, ◌>>◌}
use fiddlesticks.Provider.Model.{Message, Role, message, ToolCall, ToolResult}
use fiddlesticks.Provider.Stream.{EventStream}
use fiddlesticks.Provider.Request.{ModelRequest}
use fiddlesticks.Provider.Resilience.{execute_with_retry}
use fiddlesticks.Chat.Error.{ChatError, ChatErrorPhase, with_phase, of_provider_error}
use fiddlesticks.Chat.Types.{ChatSession, ChatTurnRequest, ChatEvent}
use fiddlesticks.Chat.Service.{
  Platform, World, ChatService, TurnContext, in_store, in_env, prepare_turn, execute_tool,
  build_request, has_value,
}
use fiddlesticks.Chat.Streaming.{Reply, read_stream, no_reply}

-- The state of the generator: the world, and the events yielded so far.
pub record Emitting (St W : Type 0) : Type 0 where
  pub world : World St W
  pub events : List ChatEvent

abbrev pub read_all : {W : Type 0} → (ChatEvent → W → W) → List ChatEvent → W → W
read_all reader [] w = w
read_all reader (e ∷ es) w = read_all reader es (reader e w)

module _ {St W : Type 0} where
  abbrev pub in_world :
      {A : Type 0} → Exec (World St W) ChatError A → Exec (Emitting St W) ChatError A
  in_world = on_part (λ g. g.world) (λ w g. record g { world = w })

  -- `yield` for each event.
  abbrev pub emit_to :
      (ChatEvent → W → W) → List ChatEvent → Exec (Emitting St W) ChatError (Unit {0})
  emit_to reader es g = (
    ok tt,
    record {
      world = record { store = g.world.store; env = read_all reader es g.world.env };
      events = g.events ++ es;
    },
  )

module _ {St W : Type 0} (platform : Platform W) (chat : ChatService St W)
    (reader : ChatEvent → W → W) where
  -- The inner loop over attempts is that of `execute_with_retry`, with the operation "stream".
  unfoldable pub open_stream : ChatSession → ModelRequest → Exec (World St W) ChatError EventStream
  unfolding with_phase of_provider_error
  open_stream session request =
      catch_into (λ e. with_phase ChatErrorPhase.provider (of_provider_error e))
        (in_env (
          execute_with_retry platform.f64 session.provider "stream"
            chat.policy.provider_retry_policy chat.provider_hooks
            (λ _. chat.provider.stream request) platform.sleep))

  -- Each tool call, with an event before it and after it.
  unfoldable pub stream_tools :
      ChatSession → List ToolCall → Exec (Emitting St W) ChatError (List ToolResult)
  stream_tools session [] = pure []
  stream_tools session (call ∷ calls) = do
    emit_to reader (ChatEvent.tool_execution_started call ∷ [])
    result ← in_world (execute_tool platform chat chat.tool_runtime session.id call)
    emit_to reader (ChatEvent.tool_execution_finished call ∷ [])
    results ← stream_tools session calls
    pure (result ∷ results)

  unfoldable pub stream_limit_reached : List ToolCall → ℕ → Bool
  stream_limit_reached tool_calls round_trips =
      has_value chat.tool_runtime
      && not (is_empty tool_calls)
      && leb chat.policy.max_tool_round_trips round_trips

  unfoldable pub stream_should_run_tools : List ToolCall → ℕ → Bool
  stream_should_run_tools tool_calls round_trips =
      has_value chat.tool_runtime
      && not (is_empty tool_calls)
      && ltb round_trips chat.policy.max_tool_round_trips

  -- Send the request, read the response to its end and yield its events.
  unfoldable pub read_reply :
      TurnContext → List Message → List ToolResult → Exec (Emitting St W) ChatError Reply
  unfolding open_stream read_stream
  read_reply context conversation tool_results = do
    request ← lift (
        build_request context.session.model conversation context.temperature context.max_tokens true
          tool_results)
    events ← in_world (open_stream context.session request)
    let (yielded, result) = read_stream events no_reply
    emit_to reader yielded
    lift result

  -- Persist the messages of the turn and yield the last event.
  unfoldable pub finish_stream :
      ChatSession → List Message → Reply → Bool → Exec (Emitting St W) ChatError (Unit {0})
  unfolding with_phase
  finish_stream session persisted reply limit = do
    in_world (
        catch_into (with_phase ChatErrorPhase.storage)
          (in_store (chat.store.append_messages session.id persisted)))
    emit_to reader (
        ChatEvent.turn_complete (record {
          session_id = session.id;
          assistant_message = reply.text;
          tool_calls = reply.tool_calls;
          stop_reason = reply.stop_reason;
          usage = reply.usage;
          tool_round_limit_reached = limit;
        })
        ∷ [])

  -- `ToolRoundLimitReached`, if the limit is reached.
  unfoldable pub limit_events : Bool → ℕ → List ChatEvent
  limit_events true pending =
      ChatEvent.tool_round_limit_reached chat.policy.max_tool_round_trips pending ∷ []
  limit_events false pending = []

  -- Run the tools and go on to the next round, or end the turn.
  unfoldable pub tools_or_finish :
      (List ToolResult → Exec (Emitting St W) ChatError (Unit {0}))
      → ChatSession
      → List Message
      → ℕ
      → Reply
      → Exec (Emitting St W) ChatError (Unit {0})
  unfolding stream_limit_reached stream_should_run_tools finish_stream stream_tools
  tools_or_finish again session persisted round_trips reply =
      if stream_should_run_tools reply.tool_calls round_trips
      then (stream_tools session reply.tool_calls >>= again)
      else finish_stream session persisted reply (stream_limit_reached reply.tool_calls round_trips)

  -- The rest of a round once the response is read; `again` is the next round.
  unfoldable pub after_reply :
      (List Message → List Message → List ToolResult → Exec (Emitting St W) ChatError (Unit {0}))
      → TurnContext
      → List Message
      → List Message
      → ℕ
      → Reply
      → Exec (Emitting St W) ChatError (Unit {0})
  unfolding limit_events tools_or_finish
  after_reply again context conversation persisted round_trips reply =
      let spoken = message Role.assistant reply.text in
      let conversation' = conversation ++ spoken ∷ [] in
      let persisted' = persisted ++ spoken ∷ [] in
      let limit = stream_limit_reached reply.tool_calls round_trips in
      emit_to reader (limit_events limit (length reply.tool_calls))
      >> tools_or_finish (again conversation' persisted') context.session persisted' round_trips
          reply

  unfoldable pub stream_loop :
      ℕ
      → TurnContext
      → List Message
      → List Message
      → ℕ
      → List ToolResult
      → Exec (Emitting St W) ChatError (Unit {0})
  unfolding read_reply after_reply
  stream_loop zero context conversation persisted round_trips tool_results = lift no_return
  stream_loop (suc fuel) context conversation persisted round_trips tool_results =
      read_reply context conversation tool_results
      >>= after_reply (λ c p rs. stream_loop fuel context c p (round_trips + 1) rs) context
          conversation persisted round_trips

  -- The stream that a prepared turn gives.
  unfoldable pub turn_stream : ℕ → TurnContext → Exec (Emitting St W) ChatError (Unit {0})
  unfolding stream_loop
  turn_stream fuel context =
      stream_loop fuel context context.conversation_messages (context.user_message ∷ []) 0 []

  -- Prepare the turn and read the stream to its end, with a number of rounds that its loop runs for at
  -- most. An error of the preparation comes before any event.
  unfoldable pub stream_turn_within :
      ℕ → ChatTurnRequest → Exec (Emitting St W) ChatError (Unit {0})
  unfolding turn_stream
  stream_turn_within fuel request = do
    context ← in_world (prepare_turn platform chat request)
    turn_stream fuel context

  -- One round more than tools may be run is enough.
  unfoldable pub stream_turn : ChatTurnRequest → Exec (Emitting St W) ChatError (Unit {0})
  unfolding stream_turn_within
  stream_turn = stream_turn_within (suc chat.policy.max_tool_round_trips)
