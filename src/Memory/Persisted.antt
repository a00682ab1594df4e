-- ===== src/Memory/Persisted.antt =====
-- fmemory/src/backends/filesystem.rs: the records in which a session is kept in a file.
pub mod Fields
pub mod Conversions
pub mod RoundTrip
use Prim.Native.Nat.{◌/◌, ◌%◌}
use fiddlesticks.Base.{
  ℕ, ◌+◌, ◌-◌, ◌*◌, ◌^◌, String, Bool, Option, none, some, List, [], ◌∷◌, if◌then◌else◌, ◌==◌, ltb,
  string_eq, concat, to_decimal, map,
}
use fiddlesticks.Exec.{collect_map, Result, ok, err, and_then}
use fiddlesticks.Common.{SessionId, MetadataMap}
use fiddlesticks.Provider.Model.{Message, message, Role, system, user, assistant, tool}
use fiddlesticks.Memory.Error.{MemoryError, MemoryErrorKind, new}
use fiddlesticks.Memory.Types.{
  FeatureRecord, ProgressEntry, InitShell, bash, sh, pwsh, cmd, InitStep, InitPlan, SessionManifest,
  RunStatus, in_progress, succeeded, failed, RunCheckpoint, BootstrapState,
}

-- An `i64`; `negsuc n` is -(n + 1).
pub data I64 : Type 0 where
  pos negsuc : ℕ → I64

-- `as i64`
unfoldable pub as_i64 : ℕ → I64
as_i64 n = let m = n % 2 ^ 64 in if ltb m (2 ^ 63) then pos m else negsuc (2 ^ 64 - m - 1)

-- `Display`
show : I64 → String
show (pos n) = to_decimal n
show (negsuc n) = concat ("-" ∷ to_decimal (n + 1) ∷ [])

pub record PersistedFeatureRecord : Type 0 where
  pub id : String
  pub category : String
  pub description : String
  pub steps : List String
  pub passes : Bool

-- `Command { program, args }` and `Shell { shell, script }`
pub data PersistedInitStep : Type 0 where
  command : (program : String) (args : List String) → PersistedInitStep
  shell : (shell script : String) → PersistedInitStep

pub record PersistedInitPlan : Type 0 where
  pub steps : List PersistedInitStep

pub record PersistedManifest : Type 0 where
  pub schema_version : ℕ
  pub harness_version : String
  pub active_branch : String
  pub current_objective : String
  pub last_known_good_commit : Option String
  pub init_plan : Option PersistedInitPlan
  pub metadata : MetadataMap

pub record PersistedProgressEntry : Type 0 where
  pub run_id : String
  pub summary : String
  pub created_at_secs : I64
  pub created_at_nanos : I64

pub record PersistedRunCheckpoint : Type 0 where
  pub run_id : String
  pub started_at_secs : I64
  pub started_at_nanos : I64
  pub completed_at_secs : Option I64
  pub completed_at_nanos : Option I64
  pub status : String
  pub note : Option String

pub record PersistedMessage : Type 0 where
  pub role : String
  pub content : String

pub record PersistedState : Type 0 where
  pub manifest : Option PersistedManifest
  pub feature_list : List PersistedFeatureRecord
  pub recent_progress : List PersistedProgressEntry
  pub checkpoints : List PersistedRunCheckpoint
  pub transcript : List PersistedMessage

abbrev pub default_persisted : PersistedState
default_persisted = record {
  manifest = none;
  feature_list = [];
  recent_progress = [];
  checkpoints = [];
  transcript = [];
}
