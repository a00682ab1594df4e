-- ===== src/Memory/Backend.antt =====
-- The trait `MemoryBackend` of fmemory/src/backend.rs, and what a backend promises.
use fiddlesticks.Base.{String, Bool, Option, List, string_eq}
use fiddlesticks.Exec.{Exec}
use fiddlesticks.Common.{SessionId}
use fiddlesticks.Provider.Model.{Message}
use fiddlesticks.Memory.Error.{MemoryError}
use fiddlesticks.Memory.Types.{
  SessionManifest, FeatureRecord, ProgressEntry, RunCheckpoint, BootstrapState,
}

pub record MemoryBackend (B : Type 0) : Type 0 where
  pub is_initialized : SessionId → Exec B MemoryError Bool
  pub initialize_session_if_missing :
      SessionId
      → SessionManifest
      → List FeatureRecord
      → Option ProgressEntry
      → Option RunCheckpoint
      → Exec B MemoryError Bool
  pub load_bootstrap_state : SessionId → Exec B MemoryError BootstrapState
  pub save_manifest : SessionId → SessionManifest → Exec B MemoryError (Unit {0})
  pub append_progress_entry : SessionId → ProgressEntry → Exec B MemoryError (Unit {0})
  pub replace_feature_list : SessionId → List FeatureRecord → Exec B MemoryError (Unit {0})
  pub update_feature_pass : SessionId → String → Bool → Exec B MemoryError (Unit {0})
  pub record_run_checkpoint : SessionId → RunCheckpoint → Exec B MemoryError (Unit {0})
  pub load_transcript_messages : SessionId → Exec B MemoryError (List Message)
  pub append_transcript_messages : SessionId → List Message → Exec B MemoryError (Unit {0})
