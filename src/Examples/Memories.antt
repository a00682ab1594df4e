-- ===== src/Examples/Memories.antt =====
-- A harness on the memory backend in memory, for the examples.
use fiddlesticks.Base.{String, false, none, some, [], ◌∷◌, string_eq}
use fiddlesticks.Base.Map
use fiddlesticks.Chat.Service.{ChatService, World}
use fiddlesticks.Memory.Types.{FeatureRecord, SessionManifest}
use fiddlesticks.Memory.InMemory.{
  InMemoryMemoryBackend, SessionState, default_session, put_session, in_memory_backend,
}
use fiddlesticks.Memory.Adapter.{memory_conversation_store}
use fiddlesticks.Harness.Types.{InitializerRequest, TaskIterationRequest, bounded_batch_policy}
use fiddlesticks.Harness.Features.{first_pending}
use fiddlesticks.Harness.Service.{
  HarnessPlatform, Harness, noop_harness_hooks, noop_health_checker, accept_all,
}
use fiddlesticks.Examples.Fixtures.{Env, platform, provider, echo_runtime, chat_session}
use fiddlesticks.Provider.Resilience.{noop_operation_hooks}
use fiddlesticks.Chat.Service.{default_chat_policy}

abbrev pub service : ChatService InMemoryMemoryBackend Env
service = record {
  provider = provider;
  store = memory_conversation_store in_memory_backend;
  tool_runtime = some echo_runtime;
  provider_hooks = noop_operation_hooks;
  policy = default_chat_policy;
}

abbrev pub with_clock : HarnessPlatform Env
with_clock = record { chat = platform; now = λ n. n }

abbrev pub harness : Harness InMemoryMemoryBackend Env
harness = record {
  memory = in_memory_backend;
  chat = some service;
  health_checker = noop_health_checker;
  validator = accept_all;
  feature_selector = first_pending;
  hooks = noop_harness_hooks;
  run_policy = bounded_batch_policy 2;
  schema_version = 1;
  harness_version = "v0";
}

abbrev pub feature : String → FeatureRecord
feature id = record {
  id = id;
  category = "functional";
  description = "does it";
  steps = "run it" ∷ [];
  passes = false;
}

abbrev pub manifest : SessionManifest
manifest = record {
  session_id = "session-1";
  schema_version = 1;
  harness_version = "v0";
  active_branch = "main";
  current_objective = "build it";
  last_known_good_commit = none;
  init_plan = none;
  metadata = Map.empty;
}

abbrev pub state : SessionState
state = record default_session {
  manifest = some manifest;
  feature_list = feature "a" ∷ feature "b" ∷ feature "c" ∷ [];
}

abbrev pub nothing_stored : InMemoryMemoryBackend
nothing_stored = Map.empty

abbrev pub fresh : World InMemoryMemoryBackend Env
fresh = record { store = nothing_stored; env = 0 }

abbrev pub started_world : World InMemoryMemoryBackend Env
started_world = record { store = put_session nothing_stored "session-1" state; env = 0 }

abbrev pub start_request : InitializerRequest
start_request = record {
  session_id = "session-1";
  run_id = "run-1";
  active_branch = "main";
  current_objective = "build it";
  init_plan = none;
  feature_list = [];
  progress_summary = "";
}

abbrev pub iteration : TaskIterationRequest
iteration = record {
  session = chat_session;
  run_id = "run-2";
  stream = false;
  prompt_override = none;
}
