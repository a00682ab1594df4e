-- ===== src/Harness/Types.antt =====
-- fharness/src/types.rs: requests, results and the run policy.
pub mod Policy
use fiddlesticks.Base.{
  ℕ, zero, String, Bool, true, false, not, Option, none, some, List, [], eqb, if◌then◌else◌,
}
use fiddlesticks.Exec.{Result, ok, err}
use fiddlesticks.Common.{SessionId}
use fiddlesticks.Chat.Types.{ChatSession}
use fiddlesticks.Memory.Types.{FeatureRecord, InitPlan}
use fiddlesticks.Harness.Error.{HarnessError, HarnessErrorKind, new}

pub record InitializerRequest : Type 0 where
  pub session_id : SessionId
  pub run_id : String
  pub active_branch : String
  pub current_objective : String
  pub init_plan : Option InitPlan
  pub feature_list : List FeatureRecord
  pub progress_summary : String

unfoldable pub new_initializer : SessionId → String → String → InitializerRequest
new_initializer session_id run_id current_objective = record {
  session_id = session_id;
  run_id = run_id;
  active_branch = "feature/initializer";
  current_objective = current_objective;
  init_plan = none;
  feature_list = [];
  progress_summary = "Initializer scaffold created";
}

unfoldable pub with_active_branch : String → InitializerRequest → InitializerRequest
with_active_branch b r = record r { active_branch = b }

unfoldable pub with_init_plan : InitPlan → InitializerRequest → InitializerRequest
with_init_plan p r = record r { init_plan = some p }

unfoldable pub with_feature_list : List FeatureRecord → InitializerRequest → InitializerRequest
with_feature_list fs r = record r { feature_list = fs }

unfoldable pub with_progress_summary : String → InitializerRequest → InitializerRequest
with_progress_summary s r = record r { progress_summary = s }

pub record InitializerResult : Type 0 where
  pub session_id : SessionId
  pub created : Bool
  pub schema_version : ℕ
  pub harness_version : String
  pub feature_count : ℕ

pub record TaskIterationRequest : Type 0 where
  pub session : ChatSession
  pub run_id : String
  pub stream : Bool
  pub prompt_override : Option String

unfoldable pub new_task_iteration : ChatSession → String → TaskIterationRequest
new_task_iteration session run_id = record {
  session = session;
  run_id = run_id;
  stream = false;
  prompt_override = none;
}

unfoldable pub enable_streaming : TaskIterationRequest → TaskIterationRequest
enable_streaming r = record r { stream = true }

unfoldable pub with_prompt_override : String → TaskIterationRequest → TaskIterationRequest
with_prompt_override p r = record r { prompt_override = some p }

pub record TaskIterationResult : Type 0 where
  pub session_id : SessionId
  pub selected_feature_id : Option String
  pub processed_feature_ids : List String
  pub validated_feature_ids : List String
  pub processed_feature_count : ℕ
  pub validated : Bool
  pub no_pending_features : Bool
  pub used_stream : Bool
  pub assistant_message : Option String

pub data HarnessPhase : Type 0 where
  initializer task_iteration : HarnessPhase

pub data RuntimeRunOutcome : Type 0 where
  initializer_outcome : InitializerResult → RuntimeRunOutcome
  task_iteration_outcome : TaskIterationResult → RuntimeRunOutcome

pub record RuntimeRunRequest : Type 0 where
  pub session : ChatSession
  pub run_id : String
  pub current_objective : String
  pub stream : Bool
  pub prompt_override : Option String
  pub init_plan : Option InitPlan
  pub feature_list : List FeatureRecord
  pub active_branch : String
  pub progress_summary : Option String

unfoldable pub new_run : ChatSession → String → String → RuntimeRunRequest
new_run session run_id current_objective = record {
  session = session;
  run_id = run_id;
  current_objective = current_objective;
  stream = false;
  prompt_override = none;
  init_plan = none;
  feature_list = [];
  active_branch = "feature/initializer";
  progress_summary = none;
}

pub record FailFastPolicy : Type 0 where
  pub on_health_check_error : Bool
  pub on_chat_error : Bool
  pub on_validation_failure : Bool

abbrev pub default_fail_fast : FailFastPolicy
default_fail_fast = record {
  on_health_check_error = true;
  on_chat_error = false;
  on_validation_failure = true;
}

pub data RunPolicyMode : Type 0 where
  strict_incremental bounded_batch unlimited_batch : RunPolicyMode

pub record RunPolicy : Type 0 where
  pub mode : RunPolicyMode
  pub max_turns_per_run : ℕ
  pub max_features_per_run : ℕ
  pub retry_budget : ℕ
  pub fail_fast : FailFastPolicy

abbrev pub default_run_policy : RunPolicy
default_run_policy = record {
  mode = strict_incremental;
  max_turns_per_run = 1;
  max_features_per_run = 1;
  retry_budget = 0;
  fail_fast = default_fail_fast;
}

abbrev pub bounded_batch_policy : ℕ → RunPolicy
bounded_batch_policy n = record default_run_policy {
  mode = bounded_batch;
  max_features_per_run = n;
}

abbrev pub unlimited_batch_policy : RunPolicy
unlimited_batch_policy = record default_run_policy { mode = unlimited_batch }

abbrev invalid : String → Result HarnessError (Unit {0})
invalid m = err (new HarnessErrorKind.invalid_request m)

validate_mode : RunPolicyMode → ℕ → Result HarnessError (Unit {0})
validate_mode strict_incremental n =
    if not (eqb n 1)
    then invalid "run policy strict mode requires max_features_per_run = 1"
    else ok tt
validate_mode bounded_batch n =
    if eqb n 0
    then invalid "run policy bounded-batch mode requires max_features_per_run >= 1"
    else ok tt
validate_mode unlimited_batch n = ok tt

unfoldable pub validate : RunPolicy → Result HarnessError (Unit {0})
unfolding validate_mode
validate p =
    if eqb p.max_turns_per_run 0
    then invalid "run policy requires max_turns_per_run >= 1"
    else validate_mode p.mode p.max_features_per_run

limit_of : RunPolicyMode → ℕ → Option ℕ
limit_of strict_incremental n = some 1
limit_of bounded_batch n = some n
limit_of unlimited_batch n = none

unfoldable pub max_features_per_run_limit : RunPolicy → Option ℕ
unfolding limit_of
max_features_per_run_limit p = limit_of p.mode p.max_features_per_run
