-- ===== src/Memory/Types.antt =====
-- fmemory/src/types.rs. A `SystemTime` is a number, read from the clock by the caller.
use fiddlesticks.Base.{ℕ, String, Bool, Option, none, List, []}
use fiddlesticks.Base.Map
use fiddlesticks.Common.{SessionId, MetadataMap}

pub record FeatureRecord : Type 0 where
  pub id : String
  pub category : String
  pub description : String
  pub steps : List String
  pub passes : Bool

pub record ProgressEntry : Type 0 where
  pub run_id : String
  pub summary : String
  pub created_at : ℕ

-- `ProgressEntry::new`, at the time `now`.
abbrev pub new_progress : ℕ → String → String → ProgressEntry
new_progress now run_id summary = record { run_id = run_id; summary = summary; created_at = now }

pub data InitShell : Type 0 where
  bash sh pwsh cmd : InitShell

-- `InitCommand` and `InitShellScript` are the fields of their cases.
pub data InitStep : Type 0 where
  command : (program : String) (args : List String) → InitStep
  shell : InitShell → (script : String) → InitStep

pub record InitPlan : Type 0 where
  pub steps : List InitStep

pub record SessionManifest : Type 0 where
  pub session_id : SessionId
  pub schema_version : ℕ
  pub harness_version : String
  pub active_branch : String
  pub current_objective : String
  pub last_known_good_commit : Option String
  pub init_plan : Option InitPlan
  pub metadata : MetadataMap

abbrev pub default_schema_version : ℕ
default_schema_version = 1

abbrev pub default_harness_version : String
default_harness_version = "v0"

unfoldable pub new_manifest : SessionId → String → String → SessionManifest
new_manifest session_id active_branch current_objective = record {
  session_id = session_id;
  schema_version = default_schema_version;
  harness_version = default_harness_version;
  active_branch = active_branch;
  current_objective = current_objective;
  last_known_good_commit = none;
  init_plan = none;
  metadata = Map.empty;
}

unfoldable pub with_harness_version : String → SessionManifest → SessionManifest
with_harness_version v m = record m { harness_version = v }

unfoldable pub with_schema_version : ℕ → SessionManifest → SessionManifest
with_schema_version v m = record m { schema_version = v }

pub data RunStatus : Type 0 where
  in_progress succeeded failed : RunStatus

pub record RunCheckpoint : Type 0 where
  pub run_id : String
  pub started_at : ℕ
  pub completed_at : Option ℕ
  pub status : RunStatus
  pub note : Option String

-- `RunCheckpoint::started`, at the time `now`.
abbrev pub started : ℕ → String → RunCheckpoint
started now run_id = record {
  run_id = run_id;
  started_at = now;
  completed_at = none;
  status = in_progress;
  note = none;
}

pub record BootstrapState : Type 0 where
  pub manifest : Option SessionManifest
  pub feature_list : List FeatureRecord
  pub recent_progress : List ProgressEntry
  pub checkpoints : List RunCheckpoint

abbrev pub default_bootstrap : BootstrapState
default_bootstrap = record {
  manifest = none;
  feature_list = [];
  recent_progress = [];
  checkpoints = [];
}
