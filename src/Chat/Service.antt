-- ===== src/Chat/Service.antt =====
-- fchat/src/service.rs: the policy, the service and its builder, and the parts of a turn that the
-- plain and the streaming form share.
pub mod Prepare
use fiddlesticks.Base.{
  ℕ, String, Bool, true, false, not, Option, none, some, List, [], ◌∷◌, ◌++◌, is_blank, is_empty,
  text_append, if◌then◌else◌,
}
use fiddlesticks.Exec.{Result, Exec, map_err, pure, raise, lift, catch_into, on_part, ◌>>=◌}
use fiddlesticks.Common.{SessionId}
use fiddlesticks.Provider.Error.{ProviderError}
use fiddlesticks.Provider.Model.{
  Message, Role, message, OutputItem, message_item, tool_call_item, ToolCall, ToolResult,
  ProviderId, ModelResponse,
}
use fiddlesticks.Provider.Request.{
  ModelRequest, ModelRequestBuilder, builder, add_messages, set_temperature, set_max_tokens,
  streaming, set_tool_results, build,
}
use fiddlesticks.Provider.Stream.{ModelProvider}
use fiddlesticks.Provider.Resilience.{
  F64, RetryPolicy, default_policy, ProviderOperationHooks, noop_operation_hooks,
  execute_with_retry,
}
use fiddlesticks.Tooling.Types.{ToolRuntime, new_context}
use fiddlesticks.Chat.Error.{
  ChatError, ChatErrorKind, ChatErrorPhase, new, with_phase, of_provider_error, of_tool_error,
}
use fiddlesticks.Chat.Types.{ChatSession, ChatTurnRequest}
use fiddlesticks.Chat.Store.{ConversationStore}

pub record ChatPolicy : Type 0 where
  pub max_tool_round_trips : ℕ
  pub default_temperature : Option ℕ
  pub default_max_tokens : Option ℕ
  pub provider_retry_policy : RetryPolicy

abbrev pub default_chat_policy : ChatPolicy
default_chat_policy = record {
  max_tool_round_trips = 4;
  default_temperature = none;
  default_max_tokens = none;
  provider_retry_policy = default_policy;
}

-- The timer that the service waits on, and the float arithmetic of the retry policy.
pub record Platform (W : Type 0) : Type 0 where
  pub f64 : F64
  pub sleep : ℕ → W → W

-- The state that a turn runs on: that of the conversation store, and all the rest.
pub record World (St W : Type 0) : Type 0 where
  pub store : St
  pub env : W

module _ {St W E A : Type 0} where
  abbrev pub in_store : Exec St E A → Exec (World St W) E A
  in_store = on_part (λ w. w.store) (λ s w. record w { store = s })

  abbrev pub in_env : Exec W E A → Exec (World St W) E A
  in_env = on_part (λ w. w.env) (λ e w. record w { env = e })

-- `ChatServiceBuilder` has the same fields, and its `build` keeps them.
pub record ChatService (St W : Type 0) : Type 0 where
  pub provider : ModelProvider W
  pub store : ConversationStore St
  pub tool_runtime : Option (ToolRuntime W)
  pub provider_hooks : ProviderOperationHooks W
  pub policy : ChatPolicy

module _ {St W : Type 0} where
  unfoldable pub new_service : ModelProvider W → ConversationStore St → ChatService St W
  new_service provider store = record {
    provider = provider;
    store = store;
    tool_runtime = none;
    provider_hooks = noop_operation_hooks;
    policy = default_chat_policy;
  }

  unfoldable pub with_tool_runtime : ToolRuntime W → ChatService St W → ChatService St W
  with_tool_runtime runtime c = record c { tool_runtime = some runtime }

  unfoldable pub with_provider_operation_hooks :
      ProviderOperationHooks W → ChatService St W → ChatService St W
  with_provider_operation_hooks hooks c = record c { provider_hooks = hooks }

  unfoldable pub with_max_tool_round_trips : ℕ → ChatService St W → ChatService St W
  with_max_tool_round_trips n c = record c { policy = record c.policy { max_tool_round_trips = n } }

  unfoldable pub with_policy : ChatPolicy → ChatService St W → ChatService St W
  with_policy p c = record c { policy = p }

pub record TurnContext : Type 0 where
  pub session : ChatSession
  pub user_message : Message
  pub conversation_messages : List Message
  pub temperature : Option ℕ
  pub max_tokens : Option ℕ

-- `Option::or`
abbrev pub option_or : Option ℕ → Option ℕ → Option ℕ
option_or none d = d
option_or (some x) d = some x

-- The system prompt, if there is one, as the first message.
abbrev pub system_messages : Option String → List Message
system_messages none = []
system_messages (some prompt) = message Role.system prompt ∷ []

unfoldable pub empty_input : ChatError
unfolding new
empty_input = new ChatErrorKind.invalid_request "user_input must not be empty"

abbrev pub turn_context : ChatPolicy → ChatTurnRequest → List Message → TurnContext
turn_context policy request prior =
    let user_message = message Role.user request.user_input in
    record {
      session = request.session;
      user_message = user_message;
      conversation_messages =
          system_messages request.session.system_prompt ++ (prior ++ user_message ∷ []);
      temperature = option_or request.options.temperature policy.default_temperature;
      max_tokens = option_or request.options.max_tokens policy.default_max_tokens;
    }

set_option :
    Option ℕ
    → (ModelRequestBuilder → ℕ → ModelRequestBuilder)
    → ModelRequestBuilder
    → ModelRequestBuilder
set_option none set b = b
set_option (some x) set b = set b x

unfoldable pub request_builder :
    String → List Message → Option ℕ → Option ℕ → Bool → List ToolResult → ModelRequestBuilder
unfolding set_option builder add_messages set_temperature set_max_tokens streaming set_tool_results
request_builder model messages temperature max_tokens stream tool_results =
    let b = add_messages (builder model) messages in
    let b1 = set_option temperature set_temperature b in
    let b2 = set_option max_tokens set_max_tokens b1 in
    let b3 = if stream then streaming b2 true else b2 in
    if not (is_empty tool_results) then set_tool_results b3 tool_results else b3

abbrev pub invalid_model_request : ProviderError → ChatError
unfolding with_phase of_provider_error
invalid_model_request e = with_phase ChatErrorPhase.request_validation (of_provider_error e)

unfoldable pub build_request :
    String
    → List Message
    → Option ℕ
    → Option ℕ
    → Bool
    → List ToolResult
    → Result ChatError ModelRequest
unfolding request_builder build
build_request model messages temperature max_tokens stream tool_results =
    map_err invalid_model_request
      (build (request_builder model messages temperature max_tokens stream tool_results))

-- `text.push_str` for the content of an assistant message.
unfoldable pub assistant_text : Role → String → String
assistant_text Role.assistant content = content
assistant_text _ content = ""

-- The loop of `collect_output`, on the text and the calls so far.
unfoldable pub collect_into : String → List ToolCall → List OutputItem → String × List ToolCall
unfolding assistant_text
collect_into text calls [] = (text, calls)
collect_into text calls (message_item m ∷ items) =
    collect_into (text_append text (assistant_text m.role m.content)) calls items
collect_into text calls (tool_call_item c ∷ items) = collect_into text (calls ++ c ∷ []) items

unfoldable pub collect_output : List OutputItem → String × List ToolCall
unfolding collect_into
collect_output items = collect_into "" [] items

abbrev pub has_value {ℓ} : {A : Type ℓ} → Option A → Bool
has_value none = false
has_value (some a) = true

module _ {St W : Type 0} (platform : Platform W) (chat : ChatService St W) where
  unfoldable pub prepare_turn : ChatTurnRequest → Exec (World St W) ChatError TurnContext
  unfolding with_phase empty_input
  prepare_turn request = if is_blank request.user_input then raise empty_input else do
    prior ←
        catch_into (with_phase ChatErrorPhase.storage)
          (in_store (chat.store.load_messages request.session.id))
    pure (turn_context chat.policy request prior)

  unfoldable pub complete_with_retry :
      ProviderId → ModelRequest → Exec (World St W) ChatError ModelResponse
  unfolding with_phase of_provider_error
  complete_with_retry provider_id request =
      catch_into (λ e. with_phase ChatErrorPhase.provider (of_provider_error e))
        (in_env (
          execute_with_retry platform.f64 provider_id "complete" chat.policy.provider_retry_policy
            chat.provider_hooks (λ _. chat.provider.complete request) platform.sleep))

  -- The `expect` panics without a runtime.
  unfoldable pub execute_tool :
      Option (ToolRuntime W) → SessionId → ToolCall → Exec (World St W) ChatError ToolResult
  unfolding with_phase of_tool_error new_context
  execute_tool none session_id call = lift Result.no_return
  execute_tool (some runtime) session_id call = do
    result ←
        catch_into (λ e. with_phase ChatErrorPhase.tooling (of_tool_error e))
          (in_env (runtime.execute call (new_context session_id)))
    pure (record { tool_call_id = result.tool_call_id; output = result.output })

  -- Each tool call in turn; the first error ends the loop.
  unfoldable pub run_tools :
      SessionId → List ToolCall → Exec (World St W) ChatError (List ToolResult)
  unfolding execute_tool
  run_tools session_id [] = pure []
  run_tools session_id (call ∷ calls) = do
    result ← execute_tool chat.tool_runtime session_id call
    results ← run_tools session_id calls
    pure (result ∷ results)
