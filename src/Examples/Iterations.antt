-- ===== src/Examples/Iterations.antt =====
-- A harness on the memory backend in memory: its initializer and a task iteration.
use fiddlesticks.Base.{
  ◌≤◌, false, not, none, some, [], ◌∷◌, ◌≡◌, ◌↔◌, string_eq, ◌&&◌, if◌then◌else◌, is_empty, All,
}
use fiddlesticks.Exec.{ok}
use fiddlesticks.Chat.Store.{StoreLaws}
use fiddlesticks.Memory.InMemory.{
  InMemoryMemoryBackend, in_memory_backend, session, initialize_session_if_missing, has_manifest,
  push_some,
}
use fiddlesticks.Memory.InMemory.Sessions.{initialize_session_lem}
use fiddlesticks.Memory.Laws.{in_memory-MemoryLaws, memory_conversation_store-StoreLaws}
use fiddlesticks.Memory.Adapter.{memory_conversation_store}
use fiddlesticks.Harness.Types.{bounded_batch_policy, validate, max_features_per_run_limit}
use fiddlesticks.Harness.Types.Policy.{Limited, validate_iff}
use fiddlesticks.Harness.Features.{validate_feature_list}
use fiddlesticks.Harness.Features.Validation.{Startable, Distinct, validate_feature_list_iff}
use fiddlesticks.Harness.Initializer.{run_initializer}
use fiddlesticks.Harness.Initializer.Stored.{Stored, run_initializer-Stored}
use fiddlesticks.Harness.Iteration.{run_task_iteration_inner}
use fiddlesticks.Base.{arith}
use fiddlesticks.Harness.Iteration.Exact.{Exact, run_task_iteration_inner-Exact}
use fiddlesticks.Harness.Iteration.Gate.{Sound, run_task_iteration_inner-Sound}
use fiddlesticks.Harness.Run.{run_task_iteration}
use fiddlesticks.Harness.Run.Closed.{Closed, run_task_iteration-Closed}
use fiddlesticks.Harness.Types.{RuntimeRunRequest}
use fiddlesticks.Harness.Run.{run}
use fiddlesticks.Harness.Service.{HarnessBuilder, new_builder, build}
use fiddlesticks.Harness.Service.Built.{Built, build-Built}
use fiddlesticks.Harness.Run.Outcome.{Ran, run-Ran}
use fiddlesticks.Examples.Fixtures.{Env, chat_session, provider, echo_runtime}
use fiddlesticks.Examples.Memories.{
  service, with_clock, harness, feature, manifest, state, nothing_stored, fresh, started_world,
  start_request, iteration,
}

run_task_iteration_inner-Sound_example :
    let r = run_task_iteration_inner with_clock harness service none 3 iteration started_world in
    Sound with_clock harness service none in_memory-MemoryLaws iteration r.0 r.1
run_task_iteration_inner-Sound_example =
    run_task_iteration_inner-Sound with_clock harness service none in_memory-MemoryLaws iteration 3
      started_world

run_task_iteration-Closed_example :
    let r = run_task_iteration with_clock harness none 3 iteration started_world in
    Closed with_clock harness none in_memory-MemoryLaws iteration r.0 r.1
run_task_iteration-Closed_example =
    run_task_iteration-Closed with_clock harness none in_memory-MemoryLaws iteration 3 started_world

run_initializer-Stored_example :
    let r = run_initializer with_clock harness start_request fresh in
    Stored with_clock harness in_memory-MemoryLaws start_request 0 nothing_stored r.0 r.1.store
run_initializer-Stored_example =
    run_initializer-Stored with_clock harness in_memory-MemoryLaws start_request fresh

validate_feature_list_iff_example : (validate_feature_list state.feature_list ≡ ok tt) ↔ (
    (is_empty state.feature_list ≡ false)
    × All Startable state.feature_list
    × Distinct state.feature_list)
validate_feature_list_iff_example = validate_feature_list_iff state.feature_list

validate_iff_example :
    (validate (bounded_batch_policy 2) ≡ ok tt)
    ↔ ((1 ≤ 1) × Limited 2 (max_features_per_run_limit (bounded_batch_policy 2)))
validate_iff_example = validate_iff (bounded_batch_policy 2)

memory_conversation_store-StoreLaws_example :
    StoreLaws (memory_conversation_store in_memory_backend)
memory_conversation_store-StoreLaws_example =
    memory_conversation_store-StoreLaws in_memory_backend in_memory-MemoryLaws

initialize_session_lem_example :
    let r =
      initialize_session_if_missing "session-1" manifest
        (feature "a" ∷ [])
        none
        none
        nothing_stored in
    let s = session nothing_stored "session-1" in
    (r.0 ≡ ok (not (has_manifest s.manifest)))
    × (session r.1 "session-1" ≡ (
        if string_eq.beq "session-1" "session-1" && not (has_manifest s.manifest)
        then record s {
          manifest = some manifest;
          feature_list = feature "a" ∷ [];
          progress = push_some s.progress none;
          checkpoints = push_some s.checkpoints none;
        }
        else session nothing_stored "session-1"))
initialize_session_lem_example =
    initialize_session_lem nothing_stored "session-1" "session-1" manifest (feature "a" ∷ []) none
      none

abbrev run_request : RuntimeRunRequest
run_request = record {
  session = chat_session;
  run_id = "run-1";
  current_objective = "build it";
  stream = false;
  prompt_override = none;
  init_plan = none;
  feature_list = [];
  active_branch = "main";
  progress_summary = none;
}

run-Ran_example :
    let r = run with_clock harness none 3 run_request started_world in
    Ran with_clock harness none in_memory-MemoryLaws run_request 3 started_world.store r.0 r.1
run-Ran_example = run-Ran with_clock harness none in_memory-MemoryLaws run_request 3 started_world

run_task_iteration_inner-Exact_example :
    let r = run_task_iteration_inner with_clock harness service none 3 iteration started_world in
    Exact r.0 r.1
run_task_iteration_inner-Exact_example =
    run_task_iteration_inner-Exact with_clock harness service none iteration 3 started_world
      (omega arith)

abbrev builder : HarnessBuilder InMemoryMemoryBackend Env
unfolding new_builder
builder = record (new_builder in_memory_backend) {
  provider = some provider;
  tool_runtime = some echo_runtime;
  run_policy = bounded_batch_policy 2;
}

build-Built_example : Built builder (build builder)
build-Built_example = build-Built builder
