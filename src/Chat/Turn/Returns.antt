-- ===== src/Chat/Turn/Returns.antt =====
-- Every turn comes to an end.
use fiddlesticks.Base.{
  ℕ, zero, suc, ◌+◌, ◌<◌, String, Bool, true, Option, none, some, List, [], ◌∷◌, ◌≡◌, ◌≢◌, refl,
  sym, arith,
}
use fiddlesticks.Exec.{no_return}
use fiddlesticks.Exec.Returns.{
  Returns, returns_rules, Returns-lift, Returns-bind, Returns-if, Returns-on_part,
  Returns-catch_into, map_err_ne,
}
use fiddlesticks.Common.{SessionId}
use fiddlesticks.Provider.Model.{Message, ToolCall, ToolResult, ModelResponse, ProviderId}
use fiddlesticks.Provider.Request.{ModelRequest, ModelRequestBuilder, validate, build}
use fiddlesticks.Provider.Resilience.{backoff_for_attempt}
use fiddlesticks.Provider.Resilience.Returns.{execute_with_retry-returns}
use fiddlesticks.Tooling.Types.{ToolRuntime, ToolExecutionContext}
use fiddlesticks.Chat.Types.{ChatSession, ChatTurnRequest}
use fiddlesticks.Chat.Service.{
  Platform, World, ChatService, TurnContext, has_value, prepare_turn, collect_output, build_request,
  request_builder, invalid_model_request, complete_with_retry, execute_tool, run_tools,
}
use fiddlesticks.Chat.Turn.{
  run_turn_within, turn_round, turn_loop, begin_turn, run_turn, ask_again, should_run_tools,
  finish_turn,
}

validate-returns : (r : ModelRequest) → validate r ≢ no_return
unfolding validate
validate-returns r = ground arith

build-returns : (b : ModelRequestBuilder) → build b ≢ no_return
unfolding build
build-returns b = ground (arith, validate-returns b)

pub build_request-returns :
    (model : String) (messages : List Message) (temperature max_tokens : Option ℕ) (stream : Bool)
    (results : List ToolResult)
    → build_request model messages temperature max_tokens stream results ≢ no_return
unfolding build_request
build_request-returns model messages temperature max_tokens stream results =
    let b = request_builder model messages temperature max_tokens stream results in
    map_err_ne invalid_model_request (build b) (build-returns b)

-- What a chat service calls comes back, and the backoff is computed without a panic.
pub record Responsive {St W : Type 0} (platform : Platform W) (chat : ChatService St W)
    : Type 0 where
  pub completes : (r : ModelRequest) → Returns (chat.provider.complete r)
  pub loads : (id : SessionId) → Returns (chat.store.load_messages id)
  pub appends : (id : SessionId) (ms : List Message) → Returns (chat.store.append_messages id ms)
  pub executes :
      (t : ToolRuntime W)
      → chat.tool_runtime ≡ some t
      → (c : ToolCall) (x : ToolExecutionContext) → Returns (t.execute c x)
  pub no_panic :
      (attempt : ℕ)
      → backoff_for_attempt platform.f64 chat.policy.provider_retry_policy attempt ≢ none

module _ {St W : Type 0} (platform : Platform W) (chat : ChatService St W)
    (responsive : Responsive platform chat) where
  pub complete-Returns :
      (id : ProviderId) (r : ModelRequest) → Returns (complete_with_retry platform chat id r)
  unfolding complete_with_retry
  complete-Returns id r = Returns-catch_into _ _ (
      Returns-on_part _ _ _ (record {
        at =
            execute_with_retry-returns platform.f64 id "complete" chat.policy.provider_retry_policy
              chat.provider_hooks _ platform.sleep (λ a. (responsive.completes r).at)
              responsive.no_panic;
      }))

  pub tool-Returns :
      (tools : Option (ToolRuntime W)) (id : SessionId) (call : ToolCall)
      → tools ≡ chat.tool_runtime
      → has_value tools ≡ true
      → Returns (execute_tool platform chat tools id call)
  unfolding execute_tool
  tool-Returns none id call e h = cc
  tool-Returns (some t) id call e h = search (returns_rules, responsive.executes t (sym e))

  pub tools-Returns :
      (id : SessionId) (calls : List ToolCall)
      → has_value chat.tool_runtime ≡ true
      → Returns (run_tools platform chat id calls)
  unfolding run_tools
  tools-Returns id [] h = search returns_rules
  tools-Returns id (call ∷ calls) h =
      search
        (returns_rules, tool-Returns chat.tool_runtime id call refl h, tools-Returns id calls h)

  -- Where tools are run there is a runtime, so its `expect` does not panic, and a round is left.
  should_run_lem :
      (calls : List ToolCall) (n : ℕ)
      → should_run_tools platform chat calls n ≡ true
      → (has_value chat.tool_runtime ≡ true) × (n < chat.policy.max_tool_round_trips)
  unfolding should_run_tools
  should_run_lem calls n h = ground arith

  ask_again-Returns :
      (context : TurnContext) (conversation : List Message) (calls : List ToolCall)
      → has_value chat.tool_runtime ≡ true
      → Returns (ask_again platform chat context conversation calls)
  unfolding ask_again
  ask_again-Returns context conversation calls h = Returns-bind _ _ (tools-Returns _ calls h) (λ rs.
      Returns-bind _ _ (Returns-lift _ (build_request-returns _ _ _ _ _ rs))
        (λ r. complete-Returns _ r))

  finish-Returns :
      (session : ChatSession) (persisted : List Message) (text : String) (calls : List ToolCall)
      (response : ModelResponse) (limit : Bool)
      → Returns (finish_turn platform chat session persisted text calls response limit)
  unfolding finish_turn
  finish-Returns session persisted text calls response limit =
      search (returns_rules, responsive.appends)

  loop-Returns :
      (fuel : ℕ) (context : TurnContext) (conversation persisted : List Message) (n : ℕ)
      (response : ModelResponse)
      → chat.policy.max_tool_round_trips < fuel + n
      → 0 < fuel
      → Returns (turn_loop platform chat fuel context conversation persisted n response)
  unfolding turn_loop turn_round
  loop-Returns zero context conversation persisted n response h pos = absurd (omega arith)
  loop-Returns (suc fuel) context conversation persisted n response h pos =
      Returns-if _ _ _
        (λ e.
          let (has, less) = should_run_lem (collect_output response.output).1 n e in
          Returns-bind _ _ (ask_again-Returns context _ _ has)
            (λ r. loop-Returns fuel context _ _ (n + 1) r (omega arith) (omega arith)))
        (λ e. finish-Returns context.session _ _ _ response _)

  begin-Returns :
      (context : TurnContext)
      → Returns (begin_turn platform chat (suc chat.policy.max_tool_round_trips) context)
  unfolding begin_turn
  begin-Returns context =
      Returns-bind _ _ (Returns-lift _ (build_request-returns _ _ _ _ _ [])) (λ first.
        Returns-bind _ _ (complete-Returns _ first) (λ response.
          loop-Returns (suc chat.policy.max_tool_round_trips) context context.conversation_messages
            (context.user_message ∷ []) 0 response (omega arith) (omega arith)))

  pub prepare-Returns : (request : ChatTurnRequest) → Returns (prepare_turn platform chat request)
  unfolding prepare_turn
  prepare-Returns request = search (returns_rules, responsive.loads)

  run-Returns : (request : ChatTurnRequest) → Returns (run_turn platform chat request)
  unfolding run_turn run_turn_within
  run-Returns request = search (returns_rules, prepare-Returns, begin-Returns)

  -- If the provider, the store and the tools come back from each call, and the backoff is computed
  -- without a panic, so does every turn, with a result or an error.
  pub run_turn-returns :
      (request : ChatTurnRequest) (w : World St W)
      → (run_turn platform chat request w).0 ≢ no_return
  run_turn-returns request w = (run-Returns request).at w
