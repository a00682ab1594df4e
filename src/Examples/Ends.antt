-- ===== src/Examples/Ends.antt =====
-- A harness whose initializer is run twice, and an iteration that comes to an end.
use fiddlesticks.Base
use fiddlesticks.Base.{
  ℕ, suc, ◌<◌, String, Bool, true, false, Option, none, some, [], ◌∷◌, ◌≡◌, ◌≢◌, refl, arith,
}
use fiddlesticks.Base.Map
use fiddlesticks.Exec.{Result, ok, err, no_return, catch_into, ◌>>=◌}
use fiddlesticks.Exec.Returns.{map_err_ne}
use fiddlesticks.Provider.Resilience.{backoff_for_attempt}
use fiddlesticks.Chat.Turn.Returns as Turns
use fiddlesticks.Chat.Turn.Returns.{run_turn-returns}
use fiddlesticks.Chat.Service.{World}
use fiddlesticks.Memory.InMemory.{
  session, put_session, is_initialized, initialize_session_if_missing, load_bootstrap_state,
  update_feature_pass, record_run_checkpoint, append_progress_entry, load_transcript_messages,
  append_transcript_messages, InMemoryMemoryBackend, feature_not_found,
}
use fiddlesticks.Memory.InMemory.Features.{find_feature, update_feature_pass-Updates}
use fiddlesticks.Memory.Error.{MemoryError}
use fiddlesticks.Memory.Types.{FeatureRecord}
use fiddlesticks.Harness.Types.{RunPolicy, bounded_batch_policy}
use fiddlesticks.Memory.Laws.{in_memory-MemoryLaws}
use fiddlesticks.Harness.Error.{of_chat_error}
use fiddlesticks.Harness.Types.{
  InitializerRequest, InitializerResult, task_iteration, max_features_per_run_limit,
}
use fiddlesticks.Harness.Features.{validate_feature_list, starter_feature_list}
use fiddlesticks.Harness.Initializer.{run_initializer, manifest_to_store}
use fiddlesticks.Harness.Iteration.{execute_turn, turn_request_for}
use fiddlesticks.Harness.Iteration.Returns.{Responsive}
use fiddlesticks.Harness.Run.{select_phase, run_task_iteration}
use fiddlesticks.Harness.Run.Phase.{run_initializer-once}
use fiddlesticks.Harness.Run.Returns.{run_task_iteration-returns}
use fiddlesticks.Examples.Fixtures.{Env, platform}
use fiddlesticks.Examples.Memories.{
  service, with_clock, harness, fresh, started_world, start_request, iteration,
}

service_responsive : Turns.Responsive platform service
unfolding backoff_for_attempt load_transcript_messages append_transcript_messages catch_into
service_responsive = record {
  completes = λ r. record { at = λ w h. ground arith };
  loads = λ id. record { at = λ w h. ground arith };
  appends = λ id ms. record { at = λ w h. ground arith };
  executes = λ t e c x. record { at = λ w h. ground arith };
  no_panic = λ attempt h. ground arith;
}

-- An update of a feature comes back.
update-returns :
    (id feature_id : String) (passes : Bool) (b : InMemoryMemoryBackend)
    → (update_feature_pass id feature_id passes b).0 ≢ no_return
update-returns id feature_id passes b =
    rw (update_feature_pass-Updates id feature_id passes b).0
      (settled (find_feature feature_id (session b id).feature_list))
  where
    settled :
        (o : Option FeatureRecord)
        → (elim o as (λ x. Result MemoryError (Unit {0})) [
          | none ↦ err (feature_not_found feature_id)
          | some f ↦ ok tt
        ])
          ≢ no_return
    settled none h = ground arith
    settled (some f) h = ground arith

pub iteration_responsive :
    (p : RunPolicy)
    → Responsive with_clock (record harness { run_policy = p }) service none iteration
unfolding execute_turn turn_request_for catch_into load_bootstrap_state record_run_checkpoint
    append_progress_entry
iteration_responsive p = record {
  turns = λ f objective. record {
    at = λ w. map_err_ne of_chat_error _ (run_turn-returns platform service service_responsive _ w);
  };
  checks = λ id plan. record { at = λ w h. ground arith };
  validates = λ f r. record { at = λ w h. ground arith };
  loads = λ id. record { at = λ w h. ground arith };
  updates = λ id feature_id passes. record { at = λ w. update-returns id feature_id passes w };
  records = λ id c. record { at = λ w h. ground arith };
  appends = λ id e. record { at = λ w h. ground arith };
}

run_task_iteration-returns_example :
    (run_task_iteration with_clock harness none 3 iteration started_world).0 ≢ no_return
unfolding max_features_per_run_limit
run_task_iteration-returns_example =
    run_task_iteration-returns with_clock harness service none iteration
      (iteration_responsive (bounded_batch_policy 2)) 2 3 started_world refl refl (omega arith)

abbrev first_result : InitializerResult
first_result = record {
  session_id = "session-1";
  created = true;
  schema_version = 1;
  harness_version = "v0";
  feature_count = 6;
}

first_run : (run_initializer with_clock harness start_request fresh).0 ≡ ok first_result
unfolding run_initializer manifest_to_store initialize_session_if_missing load_bootstrap_state
    session put_session Map.get Map.insert Map.empty validate_feature_list starter_feature_list
    ◌>>=◌ Base.is_blank
first_run = refl

abbrev later_request : InitializerRequest
later_request = record start_request { run_id = "run-3"; current_objective = "build more" }

abbrev later_result : InitializerResult
later_result = record first_result { created = false }

abbrev after_first : World InMemoryMemoryBackend Env
after_first = (run_initializer with_clock harness start_request fresh).1

then_task : (select_phase with_clock harness none "session-1" after_first).0 ≡ ok task_iteration
unfolding select_phase is_initialized run_initializer manifest_to_store
    initialize_session_if_missing load_bootstrap_state session put_session Map.get Map.insert
    Map.empty validate_feature_list starter_feature_list ◌>>=◌ Base.is_blank
then_task = refl

second_run : (run_initializer with_clock harness later_request after_first).0 ≡ ok later_result
unfolding run_initializer manifest_to_store initialize_session_if_missing load_bootstrap_state
    session put_session Map.get Map.insert Map.empty validate_feature_list starter_feature_list
    ◌>>=◌ Base.is_blank
second_run = refl

run_initializer-once_example :
    (task_iteration ≡ task_iteration)
    × (later_result.created ≡ false)
    × ((j : String)
        → in_memory-MemoryLaws.read
            (run_initializer with_clock harness later_request after_first).1.store
            j
          ≡ in_memory-MemoryLaws.read after_first.store j)
run_initializer-once_example =
    run_initializer-once with_clock harness none in_memory-MemoryLaws start_request later_request
      fresh first_result later_result task_iteration refl first_run then_task second_run
