-- ===== src/Harness/Iteration.antt =====
-- `run_task_iteration_inner` and `execute_turn` of fharness/src/harness.rs.
pub mod Claims
pub mod Counted
pub mod Exact
pub mod Gate
pub mod Returns
pub mod Passed
pub mod Unlimited
use fiddlesticks.Base.{
  ℕ, zero, suc, ◌+◌, ◌-◌, String, Bool, true, false, not, ◌&&◌, ◌||◌, Option, none, some, List, [],
  ◌∷◌, ◌++◌, eqb, ltb, leb, length, if◌then◌else◌,
}
use fiddlesticks.Exec.{
  Result, ok, err, no_return, Exec, pure, raise, lift, ok_or, found_or, catch_into, on_result,
  ◌>>=◌, ◌>>◌,
}
use fiddlesticks.Common.{SessionId}
use fiddlesticks.Chat.Error.{ChatError}
use fiddlesticks.Chat.Types.{
  ChatSession, ChatTurnRequest, ChatTurnResult, ChatEvent, turn_complete, new_request, streaming,
  build,
}
use fiddlesticks.Chat.Service.{World, ChatService, in_env}
use fiddlesticks.Chat.Turn.{run_turn}
use fiddlesticks.Chat.Streaming.Turn.{Emitting, stream_turn}
use fiddlesticks.Memory.Types.{SessionManifest, FeatureRecord}
use fiddlesticks.Harness.Error.{HarnessError, HarnessErrorKind, new, of_chat_error}
use fiddlesticks.Harness.Types.{
  TaskIterationRequest, TaskIterationResult, max_features_per_run_limit,
}
use fiddlesticks.Harness.Features.{all_required_features_passed, build_feature_prompt}
use fiddlesticks.Harness.Service.{HarnessPlatform, Harness, in_memory}
use fiddlesticks.Harness.Initializer.{plan_or_default}

-- `final_result`: that of the last `TurnComplete` event.
unfoldable pub final_result : Option ChatTurnResult → List ChatEvent → Option ChatTurnResult
final_result found [] = found
final_result found (turn_complete r ∷ es) = final_result (some r) es
final_result found (e ∷ es) = final_result found es

abbrev pub no_turn_complete : HarnessError
no_turn_complete = new HarnessErrorKind.chat "stream ended without TurnComplete event"

abbrev pub observe : {W : Type 0} → Option (ChatEvent → W → W) → ChatEvent → W → W
observe none e w = w
observe (some observer) e w = observer e w

-- The local variables of the loop over features.
pub record Progress : Type 0 where
  pub processed : List String
  pub validated : List String
  pub selected : Option String
  pub last_message : Option String

abbrev pub no_progress : Progress
no_progress = record { processed = []; validated = []; selected = none; last_message = none }

-- How a loop ends: it goes on to what follows it, or the function returns.
pub data Flow : Type 0 where
  proceed : Progress → Flow
  finished : TaskIterationResult → Flow

abbrev pub result_of :
    TaskIterationRequest → Progress → Bool → Bool → Option String → TaskIterationResult
result_of request p validated no_pending_features assistant_message = record {
  session_id = request.session.id;
  selected_feature_id = p.selected;
  processed_feature_ids = p.processed;
  validated_feature_ids = p.validated;
  processed_feature_count = length p.processed;
  validated = validated;
  no_pending_features = no_pending_features;
  used_stream = request.stream;
  assistant_message = assistant_message;
}

abbrev pub prompt_for : TaskIterationRequest → FeatureRecord → String → String
prompt_for request feature objective = elim request.prompt_override [
  | none ↦ build_feature_prompt feature objective
  | some p ↦ p
]

unfoldable pub turn_request_for : TaskIterationRequest → FeatureRecord → String → ChatTurnRequest
unfolding new_request streaming build
turn_request_for request feature objective =
    let b = new_request request.session (prompt_for request feature objective) in
    if request.stream then build (streaming true b) else build b

-- `selected_feature_id` and `processed_feature_ids` once a feature is picked.
abbrev pub pick : Progress → FeatureRecord → Progress
pick p f = record p { processed = p.processed ++ f.id ∷ []; selected = some f.id }

-- The feature passed with this message.
abbrev pub pass : Progress → FeatureRecord → String → Progress
pass p f m = record p { validated = p.validated ++ f.id ∷ []; last_message = some m }

-- `while match limit { Some(limit) => processed.len() < limit, None => true }`
unfoldable pub within_limit : Option ℕ → Progress → Bool
within_limit none p = true
within_limit (some limit) p = ltb (length p.processed) limit

module _ {B W : Type 0} (platform : HarnessPlatform W) (h : Harness B W) (chat : ChatService B W)
    (observer : Option (ChatEvent → W → W)) where
  read_events : Result ChatError (Unit {0}) → Emitting B W → Result HarnessError ChatTurnResult
  unfolding final_result
  read_events (ok u) g = found_or no_turn_complete (final_result none g.events)
  read_events (err e) g = err (of_chat_error e)
  read_events no_return g = no_return

  -- The events of a stream go to the observer one by one.
  unfoldable pub execute_turn : ChatTurnRequest → Exec (World B W) HarnessError ChatTurnResult
  unfolding read_events
  execute_turn request w =
      if request.options.stream
      then (let (r, g) =
            stream_turn platform.chat chat (observe observer) request
              (record { world = w; events = [] }) in
          (read_events r g, g.world))
      else catch_into of_chat_error (run_turn platform.chat chat request) w

  module _ (request : TaskIterationRequest) (objective : String) (feature : FeatureRecord) where
    -- The turn failed.
    on_chat_error :
        Exec (World B W) HarnessError Flow
        → ℕ
        → ℕ
        → HarnessError
        → Exec (World B W) HarnessError Flow
    on_chat_error again turns_used retries e =
        if h.run_policy.fail_fast.on_chat_error
          || eqb retries 0
          || leb h.run_policy.max_turns_per_run turns_used
        then raise e
        else again

    -- The validator has judged the turn.
    on_verdict :
        Exec (World B W) HarnessError Flow
        → Progress
        → ℕ
        → ℕ
        → String
        → Bool
        → Exec (World B W) HarnessError Flow
    on_verdict again p turns_used retries message true = do
      in_memory (h.memory.update_feature_pass request.session.id feature.id true)
      pure (proceed (pass p feature message))
    on_verdict again p turns_used retries message false =
        if h.run_policy.fail_fast.on_validation_failure
          || eqb retries 0
          || leb h.run_policy.max_turns_per_run turns_used
        then pure (finished (result_of request p false false (some message)))
        else again

    -- One turn on the feature; `again` is the next round of the loop.
    unfoldable pub one_turn :
        (Progress → Exec (World B W) HarnessError Flow)
        → Progress
        → ℕ
        → ℕ
        → Exec (World B W) HarnessError Flow
    unfolding on_chat_error on_verdict
    one_turn again p turns_used retries =
        on_result (execute_turn (turn_request_for request feature objective))
          (λ result. do
            validated ← in_env (h.validator feature result)
            on_verdict (again (record p { last_message = some result.assistant_message })) p
                turns_used retries result.assistant_message validated)
          (λ e. on_chat_error (again p) turns_used retries e)

    -- `while turns_used < self.run_policy.max_turns_per_run`
    unfoldable pub turns_loop : ℕ → Progress → ℕ → ℕ → Exec (World B W) HarnessError Flow
    unfolding one_turn
    turns_loop zero p turns_used retries = lift no_return
    turns_loop (suc fuel) p turns_used retries =
        if ltb turns_used h.run_policy.max_turns_per_run
        then one_turn (λ p'. turns_loop fuel p' (turns_used + 1) (retries - 1)) p (turns_used + 1)
            retries
        else pure (proceed p)

  module _ (request : TaskIterationRequest) (objective : String) where
    -- Work on one feature.
    unfoldable pub work_on : Progress → FeatureRecord → Exec (World B W) HarnessError Flow
    unfolding turns_loop
    work_on p f =
        turns_loop request objective f (suc h.run_policy.max_turns_per_run) (pick p f) 0
          h.run_policy.retry_budget

    -- Pick a feature of the list and work on it.
    unfoldable pub next_feature : Progress → List FeatureRecord → Exec (World B W) HarnessError Flow
    unfolding work_on
    next_feature p fs =
        if all_required_features_passed fs
        then pure (finished (result_of request p true true p.last_message))
        else (do
          f ←
              ok_or
                (new HarnessErrorKind.validation
                  "feature selector returned no work before required features reached passes=true")
                (h.feature_selector fs)
          work_on p f)

    -- One round of the outer loop.
    unfoldable pub feature_round : Progress → Exec (World B W) HarnessError Flow
    unfolding next_feature
    feature_round p = do
      bootstrap ← in_memory (h.memory.load_bootstrap_state request.session.id)
      next_feature p bootstrap.feature_list

    -- After the outer loop.
    unfoldable pub conclude : Progress → Exec (World B W) HarnessError TaskIterationResult
    conclude p = do
      bootstrap ← in_memory (h.memory.load_bootstrap_state request.session.id)
      pure (
          result_of request p true (all_required_features_passed bootstrap.feature_list)
            p.last_message)

    abbrev pub follow :
        (Progress → Exec (World B W) HarnessError TaskIterationResult)
        → Flow
        → Exec (World B W) HarnessError TaskIterationResult
    follow again (proceed p) = again p
    follow again (finished r) = pure r

    unfoldable pub feature_loop : ℕ → Progress → Exec (World B W) HarnessError TaskIterationResult
    unfolding feature_round conclude within_limit
    feature_loop zero p = lift no_return
    feature_loop (suc fuel) p =
        if within_limit (max_features_per_run_limit h.run_policy) p
        then (feature_round p >>= follow (λ p'. feature_loop fuel p'))
        else conclude p

  -- `let Err(error) = health_checker.run(..) && fail_fast.on_health_check_error`
  pub check_health :
      TaskIterationRequest → SessionManifest → Exec (World B W) HarnessError (Unit {0})
  check_health request manifest =
      on_result (in_env (h.health_checker request.session.id (plan_or_default manifest.init_plan)))
        pure (λ e. if h.run_policy.fail_fast.on_health_check_error then raise e else pure tt)

  -- `rounds` bounds the rounds of the loop over features, which the code itself bounds by the limit
  -- of the policy, and in the unlimited mode not at all.
  unfoldable pub run_task_iteration_inner :
      ℕ → TaskIterationRequest → Exec (World B W) HarnessError TaskIterationResult
  unfolding check_health feature_loop
  run_task_iteration_inner rounds request = do
    bootstrap ← in_memory (h.memory.load_bootstrap_state request.session.id)
    manifest ←
        ok_or (new HarnessErrorKind.not_ready "session is not initialized; run initializer first")
          bootstrap.manifest
    check_health request manifest
    if all_required_features_passed bootstrap.feature_list
        then pure (result_of request no_progress true true none)
        else feature_loop request manifest.current_objective rounds no_progress
