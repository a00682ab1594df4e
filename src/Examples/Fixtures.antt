-- ===== src/Examples/Fixtures.antt =====
-- A provider that asks for a tool at first, tools that echo, a clock, and sessions for the examples.
use fiddlesticks.Base.{
  ℕ, ◌+◌, Bool, none, some, List, [], ◌∷◌, leb, eqb, if◌then◌else◌, to_decimal, arith,
}
use fiddlesticks.Base.Map
use fiddlesticks.Exec.{ok}
use fiddlesticks.Provider.Model.{
  Role, message, ToolCall, ToolDefinition, OutputItem, message_item, tool_call_item, StopReason,
  default_usage, ModelResponse, ProviderId,
}
use fiddlesticks.Provider.Stream.{StreamEvent, response_complete, ModelProvider}
use fiddlesticks.Provider.Resilience.{F64, backoff_for_attempt, noop_operation_hooks}
use fiddlesticks.Tooling.Types.{Tool, ToolRuntime, ToolExecutionContext}
use fiddlesticks.Tooling.Runtime.{Timing}
use fiddlesticks.Chat.Types.{ChatSession, ChatTurnRequest, ChatEvent}
use fiddlesticks.Chat.Store.{
  InMemoryConversationStore, in_memory_store, load_messages, append_messages,
}
use fiddlesticks.Chat.Service.{Platform, World, ChatService, default_chat_policy}
use fiddlesticks.Chat.Streaming.Turn.{Emitting}
use fiddlesticks.Chat.Turn.Returns.{Responsive}

-- What is outside the store: how often the provider was asked.
abbrev pub Env : Type 0
Env = ℕ

abbrev pub f64 : F64
f64 = record {
  as_secs_f64 = λ d. d;
  mul = λ a b. a;
  powi = λ a b. a;
  min = λ a b. if leb a b then a else b;
  from_secs_f64 = λ x. some x;
}

abbrev pub platform : Platform Env
platform = record { f64 = f64; sleep = λ d n. n }

abbrev pub timing : {W : Type 0} → (W → ℕ) → Timing W
timing now = record {
  now = now;
  race = λ limit m w. let (r, w') = m w in (some r, w');
  debug_duration = to_decimal;
}

abbrev pub call : ToolCall
call = record { id = "call-1"; name = "echo"; arguments = "{}" }

abbrev pub echo_definition : ToolDefinition
echo_definition = record { name = "echo"; description = "says it again"; input_schema = "{}" }

abbrev pub echo : {W : Type 0} → Tool W
echo = record { definition = echo_definition; invoke = λ arguments context w. (ok arguments, w) }

abbrev pub context : ToolExecutionContext
context = record { session_id = "session-1"; trace_id = none; metadata = Map.empty }

abbrev pub echo_runtime : ToolRuntime Env
echo_runtime = record {
  execute = λ c x n. (ok (record { tool_call_id = c.id; output = c.arguments }), n);
}

abbrev pub response : List OutputItem → ModelResponse
response items = record {
  provider = ProviderId.open_ai;
  model = "model-1";
  output = items;
  stop_reason = StopReason.end_turn;
  usage = default_usage;
}

abbrev pub answer : List OutputItem
answer = message_item (message Role.assistant "done") ∷ []

-- A call of a tool at first, and an answer afterwards.
abbrev pub reply : ℕ → ModelResponse
reply n = response (if eqb n 0 then tool_call_item call ∷ [] else answer)

abbrev pub provider : ModelProvider Env
provider = record {
  id = ProviderId.open_ai;
  complete = λ r n. (ok (reply n), n + 1);
  stream = λ r n. (
    ok (ok (StreamEvent.text_delta "done") ∷ ok (response_complete (response answer)) ∷ []),
    n + 1,
  );
}

abbrev pub chat : ChatService InMemoryConversationStore Env
chat = record {
  provider = provider;
  store = in_memory_store;
  tool_runtime = some echo_runtime;
  provider_hooks = noop_operation_hooks;
  policy = default_chat_policy;
}

abbrev pub chat_session : ChatSession
chat_session = record {
  id = "session-1";
  provider = ProviderId.open_ai;
  model = "model-1";
  system_prompt = some "be brief";
}

abbrev pub turn : Bool → ChatTurnRequest
turn stream = record {
  session = chat_session;
  user_input = "hello";
  options = record { temperature = none; max_tokens = none; stream = stream };
}

abbrev pub world : World InMemoryConversationStore Env
world = record { store = Map.empty; env = 0 }

abbrev pub emitting : Emitting InMemoryConversationStore Env
emitting = record { world = world; events = [] }

abbrev pub reader : ChatEvent → Env → Env
reader e n = n

pub responsive : Responsive platform chat
unfolding backoff_for_attempt load_messages append_messages
responsive = record {
  completes = λ r. record { at = λ w h. ground arith };
  loads = λ id. record { at = λ w h. ground arith };
  appends = λ id ms. record { at = λ w h. ground arith };
  executes = λ t e c x. record { at = λ w h. ground arith };
  no_panic = λ attempt h. ground arith;
}
