-- ===== src/Examples/Batches.antt =====
-- A harness without a limit on the features of a run.
use fiddlesticks.Base.{
  ◌<◌, String, Bool, true, false, none, List, ◌≡◌, ◌≢◌, refl, arith, ap, ◌∙◌, string_eq,
  if◌then◌else◌,
}
use fiddlesticks.Base.Map
use fiddlesticks.Exec.{no_return, catch_into}
use fiddlesticks.Exec.Keeps.{Keeps}
use fiddlesticks.Common.{SessionId}
use fiddlesticks.Provider.Model.{Message}
use fiddlesticks.Chat.Turn.Views.{run_turn-Keeps}
use fiddlesticks.Memory.Types.{FeatureRecord}
use fiddlesticks.Memory.InMemory.{
  InMemoryMemoryBackend, SessionState, session, put_session, append_transcript_messages,
}
use fiddlesticks.Memory.Laws.{in_memory-MemoryLaws, add_messages}
use fiddlesticks.Harness.Types.{unlimited_batch_policy}
use fiddlesticks.Harness.Service.{Harness}
use fiddlesticks.Harness.Features.Validation.{Distinct}
use fiddlesticks.Harness.Features.Pending.{pending}
use fiddlesticks.Harness.Iteration.{execute_turn, turn_request_for, run_task_iteration_inner}
use fiddlesticks.Harness.Iteration.Unlimited.{run_task_iteration_inner-returns}
use fiddlesticks.Harness.Iteration.Passed.{stored}
use fiddlesticks.Examples.Fixtures.{Env, platform}
use fiddlesticks.Examples.Memories.{service, with_clock, harness, started_world, iteration}
use fiddlesticks.Examples.Ends.{iteration_responsive}

abbrev batch_harness : Harness InMemoryMemoryBackend Env
batch_harness = record harness { run_policy = unlimited_batch_policy }

abbrev features_of : InMemoryMemoryBackend → List FeatureRecord
features_of b = (in_memory-MemoryLaws.read b "session-1").feature_list

load-Keeps : (id : SessionId) → Keeps features_of (service.store.load_messages id)
unfolding catch_into
load-Keeps id = record {
  at = λ b. ap (λ s. s.feature_list) (in_memory-MemoryLaws.transcript_keeps b id "session-1");
}

append-Keeps :
    (id : SessionId) (ms : List Message) → Keeps features_of (service.store.append_messages id ms)
unfolding catch_into append_transcript_messages
append-Keeps id ms = record {
  at = λ b.
      ap (λ s. s.feature_list) (in_memory-MemoryLaws.messages_add b id "session-1" ms)
      ∙ untouched (string_eq.beq id "session-1") (in_memory-MemoryLaws.read b "session-1");
}
  where
    untouched :
        (t : Bool) (s : SessionState)
        → (if t then add_messages ms s else s).feature_list ≡ s.feature_list
    untouched true s = refl
    untouched false s = refl

turns_keep :
    (f : FeatureRecord) (objective : String)
    → Keeps (stored in_memory-MemoryLaws iteration) (
        execute_turn with_clock batch_harness service none (turn_request_for iteration f objective))
unfolding execute_turn turn_request_for catch_into
turns_keep f objective = record {
  at = λ w. (run_turn-Keeps platform service features_of load-Keeps append-Keeps _).at w;
}

started-Distinct : Distinct (stored in_memory-MemoryLaws iteration started_world)
unfolding in_memory-MemoryLaws session put_session Map.get Map.insert Map.empty
started-Distinct = ((refl, (refl, tt)), ((refl, tt), (tt, tt)))

started_pending : pending (stored in_memory-MemoryLaws iteration started_world) < 4
unfolding in_memory-MemoryLaws session put_session Map.get Map.insert Map.empty
started_pending = omega arith

run_task_iteration_inner-returns_example :
    (run_task_iteration_inner with_clock batch_harness service none 4 iteration started_world).0
    ≢ no_return
run_task_iteration_inner-returns_example =
    run_task_iteration_inner-returns with_clock batch_harness service none in_memory-MemoryLaws
      iteration turns_keep (λ fs. refl) (omega arith) (iteration_responsive unlimited_batch_policy)
      4 started_world started-Distinct started_pending
