-- ===== src/Harness/Run.antt =====
-- `run`, `select_phase` and `run_task_iteration` of fharness/src/harness.rs.
pub mod Closed
pub mod Phase
pub mod Outcome
pub mod Returns
use fiddlesticks.Base.{
  ℕ, String, Bool, true, false, Option, none, some, List, [], ◌∷◌, length, is_empty, concat,
  to_decimal, if◌then◌else◌,
}
use fiddlesticks.Exec.{
  Result, ok, err, no_return, Exec, map_err, pure, raise, lift, ok_or, on_result, ◌>>=◌, ◌>>◌,
}
use fiddlesticks.Common.{SessionId}
use fiddlesticks.Chat.Types.{ChatEvent}
use fiddlesticks.Chat.Service.{World, ChatService}
use fiddlesticks.Memory.Types.{RunStatus, succeeded, failed, started, new_progress}
use fiddlesticks.Harness.Error.{HarnessError, HarnessErrorKind, new, to_string}
use fiddlesticks.Harness.Types.{
  InitializerRequest, TaskIterationRequest, TaskIterationResult, HarnessPhase, initializer,
  task_iteration, RuntimeRunOutcome, initializer_outcome, task_iteration_outcome, RuntimeRunRequest,
  new_initializer, with_active_branch, with_init_plan, with_feature_list, with_progress_summary,
  new_task_iteration, enable_streaming, with_prompt_override,
}
use fiddlesticks.Harness.Service.{HarnessPlatform, Harness, in_memory, with_phase_hooks}
use fiddlesticks.Harness.Initializer.{run_initializer}
use fiddlesticks.Harness.Iteration.{run_task_iteration_inner}

abbrev or_unknown : Option String → String
or_unknown none = "unknown"
or_unknown (some s) = s

-- The status and the note of the final checkpoint.
unfoldable pub handoff_of : TaskIterationResult → RunStatus × String
handoff_of v =
    let processed = to_decimal v.processed_feature_count in
    let validated = to_decimal (length v.validated_feature_ids) in
    if v.no_pending_features
    then (
      succeeded,
      concat (
          "All required features pass=true in feature_list; completion gate satisfied (processed="
          ∷ processed ∷ ", validated=" ∷ validated ∷ ")" ∷ []),
    )
    else if v.validated
    then (
      succeeded,
      concat (
          "Validated " ∷ validated ∷ " feature(s) this run (processed=" ∷ processed
          ∷ "); remaining required features still pending" ∷ []),
    )
    else (
      failed,
      concat (
          "Feature '"
          ∷ or_unknown v.selected_feature_id
          ∷ "' was not validated; processed="
          ∷ processed
          ∷ " validated="
          ∷ validated
          ∷ " and left failing for next run"
          ∷ []),
    )

abbrev pub if_some : {A : Type 0} → Option String → (String → A → A) → A → A
if_some none f a = a
if_some (some s) f a = f s a

-- The initializer's request that `run_with_observer` makes.
unfoldable pub initializer_of : RuntimeRunRequest → InitializerRequest
unfolding new_initializer with_active_branch with_init_plan with_feature_list with_progress_summary
initializer_of r =
    let i =
      with_active_branch r.active_branch
        (new_initializer r.session.id r.run_id r.current_objective) in
    let i1 : InitializerRequest = elim r.init_plan [ none ↦ i | some p ↦ with_init_plan p i ] in
    let i2 = if is_empty r.feature_list then i1 else with_feature_list r.feature_list i1 in
    if_some r.progress_summary with_progress_summary i2

unfoldable pub task_iteration_of : RuntimeRunRequest → TaskIterationRequest
unfolding new_task_iteration enable_streaming with_prompt_override
task_iteration_of r =
    let t = new_task_iteration r.session r.run_id in
    let t1 = if r.stream then enable_streaming t else t in
    if_some r.prompt_override with_prompt_override t1

module _ {B W : Type 0} (platform : HarnessPlatform W) (h : Harness B W)
    (observer : Option (ChatEvent → W → W)) where
  unfoldable pub select_phase : SessionId → Exec (World B W) HarnessError HarnessPhase
  select_phase id = do
    there ← in_memory (h.memory.is_initialized id)
    pure (if there then task_iteration else initializer)

  unfoldable pub record_final_handoff :
      TaskIterationRequest → ℕ → RunStatus → String → Exec (World B W) HarnessError (Unit {0})
  record_final_handoff request started_at status note w =
      (in_memory (
            h.memory.record_run_checkpoint request.session.id (record {
              run_id = request.run_id;
              started_at = started_at;
              completed_at = some (platform.now w.env);
              status = status;
              note = some note;
            }))
          >> (λ w'.
              in_memory
                (h.memory.append_progress_entry request.session.id
                  (new_progress (platform.now w'.env) request.run_id note))
                w'))
        w

  unfoldable pub hand_off :
      TaskIterationRequest
      → ℕ
      → Exec (World B W) HarnessError TaskIterationResult
      → Exec (World B W) HarnessError TaskIterationResult
  unfolding record_final_handoff handoff_of
  hand_off request started_at m =
      on_result m
        (λ v.
          let (status, note) = handoff_of v in
          record_final_handoff request started_at status note >> pure v)
        (λ e.
          record_final_handoff request started_at failed
            (concat ("Run failed: " ∷ to_string e ∷ []))
          >> raise e)

  unfoldable pub iterate_with :
      Option (ChatService B W)
      → ℕ
      → TaskIterationRequest
      → Exec (World B W) HarnessError TaskIterationResult
  unfolding hand_off
  iterate_with none rounds request =
      raise (new HarnessErrorKind.not_ready "chat service is not configured in harness")
  iterate_with (some chat) rounds request = λ w.
      let started_at = platform.now w.env in
      (in_memory
            (h.memory.record_run_checkpoint request.session.id (started started_at request.run_id))
          >> hand_off request started_at
              (run_task_iteration_inner platform h chat observer rounds request))
        w

  -- `run_task_iteration_with_observer`; `rounds` bounds the rounds of the loop over features.
  unfoldable pub run_task_iteration :
      ℕ → TaskIterationRequest → Exec (World B W) HarnessError TaskIterationResult
  unfolding iterate_with with_phase_hooks
  run_task_iteration rounds request =
      with_phase_hooks platform h task_iteration request.session.id request.run_id
        (iterate_with h.chat rounds request)

  run_phase : ℕ → RuntimeRunRequest → HarnessPhase → Exec (World B W) HarnessError RuntimeRunOutcome
  unfolding run_task_iteration
  run_phase rounds request initializer = do
    r ← run_initializer platform h (initializer_of request)
    pure (initializer_outcome r)
  run_phase rounds request task_iteration = do
    r ← run_task_iteration rounds (task_iteration_of request)
    pure (task_iteration_outcome r)

  -- `run_with_observer`
  unfoldable pub run : ℕ → RuntimeRunRequest → Exec (World B W) HarnessError RuntimeRunOutcome
  unfolding select_phase run_phase
  run rounds request = do phase ← select_phase request.session.id; run_phase rounds request phase
