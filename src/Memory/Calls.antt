-- ===== src/Memory/Calls.antt =====
-- The calls of a memory backend of fmemory/src/backend.rs, as data.
use fiddlesticks.Base.{String, Bool, Option, List}
use fiddlesticks.Exec.{Result}
use fiddlesticks.Common.{SessionId}
use fiddlesticks.Provider.Model.{Message}
use fiddlesticks.Memory.Error.{MemoryError}
use fiddlesticks.Memory.Types.{
  SessionManifest, FeatureRecord, ProgressEntry, RunCheckpoint, BootstrapState,
}
use fiddlesticks.Memory.Backend.{MemoryBackend}

-- One call for each method of the trait.
pub data Call : Type 0 where
  is_initialized : SessionId → Call
  initialize :
      SessionId
      → SessionManifest
      → List FeatureRecord
      → Option ProgressEntry
      → Option RunCheckpoint
      → Call
  load_bootstrap : SessionId → Call
  save_manifest : SessionId → SessionManifest → Call
  append_progress : SessionId → ProgressEntry → Call
  replace_features : SessionId → List FeatureRecord → Call
  update_pass : SessionId → String → Bool → Call
  record_checkpoint : SessionId → RunCheckpoint → Call
  load_transcript : SessionId → Call
  append_transcript : SessionId → List Message → Call

pub data Answer : Type 0 where
  flag : Result MemoryError Bool → Answer
  bootstrap : Result MemoryError BootstrapState → Answer
  done : Result MemoryError (Unit {0}) → Answer
  messages : Result MemoryError (List Message) → Answer

abbrev pub answer :
    {A B : Type 0} → (Result MemoryError A → Answer) → Result MemoryError A × B → Answer × B
answer f (r, b) = (f r, b)

abbrev pub perform : {B : Type 0} → MemoryBackend B → Call → B → Answer × B
perform m (is_initialized id) b = answer flag (m.is_initialized id b)
perform m (initialize id manifest features progress checkpoint) b =
    answer flag (m.initialize_session_if_missing id manifest features progress checkpoint b)
perform m (load_bootstrap id) b = answer bootstrap (m.load_bootstrap_state id b)
perform m (save_manifest id manifest) b = answer done (m.save_manifest id manifest b)
perform m (append_progress id entry) b = answer done (m.append_progress_entry id entry b)
perform m (replace_features id features) b = answer done (m.replace_feature_list id features b)
perform m (update_pass id feature_id passes) b =
    answer done (m.update_feature_pass id feature_id passes b)
perform m (record_checkpoint id checkpoint) b =
    answer done (m.record_run_checkpoint id checkpoint b)
perform m (load_transcript id) b = answer messages (m.load_transcript_messages id b)
perform m (append_transcript id ms) b = answer done (m.append_transcript_messages id ms b)
