-- ===== src/Harness/Run/Returns.antt =====
-- `run_task_iteration` of fharness/src/harness.rs comes to an end.
use fiddlesticks.Base.{ℕ, ◌<◌, String, ◌≡◌, ◌≢◌, Option, none, some, arith, subst}
use fiddlesticks.Exec.{no_return, Exec}
use fiddlesticks.Exec.Returns.{
  Returns, returns_rules, Returns-bind, Returns-on_result, Returns-pure, Returns-raise,
}
use fiddlesticks.Chat.Types.{ChatEvent}
use fiddlesticks.Chat.Service.{World, ChatService}
use fiddlesticks.Memory.Types.{
  RunStatus, RunCheckpoint, ProgressEntry, started, failed, new_progress,
}
use fiddlesticks.Harness.Error.{HarnessError}
use fiddlesticks.Harness.Types.{
  TaskIterationRequest, TaskIterationResult, max_features_per_run_limit,
}
use fiddlesticks.Harness.Service.{HarnessPlatform, Harness, in_memory, with_phase_hooks}
use fiddlesticks.Harness.Iteration.{run_task_iteration_inner}
use fiddlesticks.Harness.Iteration.Returns.{Responsive, inner-Returns}
use fiddlesticks.Harness.Run.{
  handoff_of, record_final_handoff, hand_off, iterate_with, run_task_iteration,
}

module _ {B W : Type 0} (platform : HarnessPlatform W) (h : Harness B W) (chat : ChatService B W)
    (observer : Option (ChatEvent → W → W)) (request : TaskIterationRequest)
    (responsive : Responsive platform h chat observer request) where
  checkpoint-Returns :
      (c : RunCheckpoint)
      → Returns (in_memory {W = W} (h.memory.record_run_checkpoint request.session.id c))
  checkpoint-Returns c = search (returns_rules, responsive.records)

  progress-Returns :
      (e : ProgressEntry)
      → Returns (in_memory {W = W} (h.memory.append_progress_entry request.session.id e))
  progress-Returns e = search (returns_rules, responsive.appends)

  record_final_handoff-Returns :
      (started_at : ℕ) (status : RunStatus) (note : String)
      → Returns (record_final_handoff platform h observer request started_at status note)
  unfolding record_final_handoff
  record_final_handoff-Returns started_at status note = record {
    at = λ w.
        (Returns-bind _ _ (checkpoint-Returns _) (λ u. record {
          at = λ w'.
              (progress-Returns (new_progress (platform.now w'.env) request.run_id note)).at w';
        })).at
          w;
  }

  hand_off-Returns :
      (started_at : ℕ) (m : Exec (World B W) HarnessError TaskIterationResult)
      → Returns m
      → Returns (hand_off platform h observer request started_at m)
  unfolding hand_off
  hand_off-Returns started_at m k =
      Returns-on_result _ _ _ k
        (λ v.
          Returns-bind _ _
            (record_final_handoff-Returns started_at (handoff_of v).0 (handoff_of v).1)
            (λ u. Returns-pure v))
        (λ e.
          Returns-bind _ _ (record_final_handoff-Returns started_at failed _)
            (λ u. Returns-raise e))

  iterate_with-Returns :
      (rounds : ℕ) (o : Option (ChatService B W))
      → o ≡ some chat
      → Returns (run_task_iteration_inner platform h chat observer rounds request)
      → Returns (iterate_with platform h observer o rounds request)
  unfolding iterate_with
  iterate_with-Returns rounds none e k = cc
  iterate_with-Returns rounds (some c) e k =
      let same : chat ≡ c = some_inj e in
      record {
        at = λ w.
            (Returns-bind _ _ (checkpoint-Returns (started (platform.now w.env) request.run_id))
                (λ u. hand_off-Returns (platform.now w.env) _ (
                  subst
                    (λ (x : ChatService B W).
                      Returns (run_task_iteration_inner platform h x observer rounds request))
                    same k))).at
              w;
      }
    where
      some_inj : {A : Type 0} {a b : A} → some a ≡ some b → b ≡ a
      some_inj h = ground arith

  -- With a chat service, a limit on the features of a run and more rounds than that limit, and if
  -- what it calls comes back, every task iteration comes to an end, with a result or an error.
  pub run_task_iteration-returns :
      (limit rounds : ℕ) (w : World B W)
      → h.chat ≡ some chat
      → max_features_per_run_limit h.run_policy ≡ some limit
      → limit < rounds
      → (run_task_iteration platform h observer rounds request w).0 ≢ no_return
  unfolding run_task_iteration with_phase_hooks
  run_task_iteration-returns limit rounds w there bounded enough =
      (iterate_with-Returns rounds h.chat there (
          inner-Returns platform h chat observer request responsive limit bounded rounds enough)).at
        _
