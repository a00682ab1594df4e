-- ===== src/Memory/Persisted/Conversions.antt =====
-- fmemory/src/backends/filesystem.rs: the conversions of the records of a session.
use fiddlesticks.Base.{ℕ, Option, none, some, [], ◌∷◌, string_eq, map}
use fiddlesticks.Exec.{collect_map, Result, ok, err, and_then}
use fiddlesticks.Common.{SessionId}
use fiddlesticks.Provider.Model.{Message, message}
use fiddlesticks.Memory.Error.{MemoryError}
use fiddlesticks.Memory.Types.{
  FeatureRecord, ProgressEntry, InitStep, InitPlan, SessionManifest, RunCheckpoint, BootstrapState,
}
use fiddlesticks.Memory.Persisted.{
  PersistedInitPlan, PersistedRunCheckpoint, PersistedMessage, PersistedManifest,
  PersistedProgressEntry, PersistedState, I64, PersistedInitStep, PersistedFeatureRecord,
}
use fiddlesticks.Memory.Persisted.Fields.{
  run_status_from_str, init_shell_from_str, role_from_str, init_shell_to_string, role_to_string,
  decode_system_time, storage, run_status_to_string, encode_system_time,
}

-- `map(f).transpose()`
abbrev pub transpose_map {ℓ} : {E A B : Type ℓ} → (A → Result E B) → Option A → Result E (Option B)
transpose_map f none = ok none
transpose_map f (some x) = and_then (f x) (λ y. ok (some y))

unfoldable pub from_feature_record : FeatureRecord → PersistedFeatureRecord
from_feature_record f = record {
  id = f.id;
  category = f.category;
  description = f.description;
  steps = f.steps;
  passes = f.passes;
}

unfoldable pub into_feature_record : PersistedFeatureRecord → FeatureRecord
into_feature_record f = record {
  id = f.id;
  category = f.category;
  description = f.description;
  steps = f.steps;
  passes = f.passes;
}

unfoldable pub from_init_step : InitStep → Result MemoryError PersistedInitStep
from_init_step (InitStep.command program args) = ok (PersistedInitStep.command program args)
from_init_step (InitStep.shell s script) =
    ok (PersistedInitStep.shell (init_shell_to_string s) script)

unfoldable pub into_init_step : PersistedInitStep → Result MemoryError InitStep
into_init_step (PersistedInitStep.command program args) = ok (InitStep.command program args)
into_init_step (PersistedInitStep.shell s script) =
    and_then (init_shell_from_str s) (λ k. ok (InitStep.shell k script))

unfoldable pub from_init_plan : InitPlan → Result MemoryError PersistedInitPlan
from_init_plan plan =
    and_then (collect_map from_init_step plan.steps) (λ steps. ok (record { steps = steps }))

unfoldable pub into_init_plan : PersistedInitPlan → Result MemoryError InitPlan
into_init_plan plan =
    and_then (collect_map into_init_step plan.steps) (λ steps. ok (record { steps = steps }))

-- The session's id is not kept: it is known from the name of the file.
unfoldable pub from_manifest : SessionManifest → Result MemoryError PersistedManifest
from_manifest m = and_then (transpose_map from_init_plan m.init_plan) (λ plan. ok (record {
  schema_version = m.schema_version;
  harness_version = m.harness_version;
  active_branch = m.active_branch;
  current_objective = m.current_objective;
  last_known_good_commit = m.last_known_good_commit;
  init_plan = plan;
  metadata = m.metadata;
}))

unfoldable pub into_manifest : SessionId → PersistedManifest → Result MemoryError SessionManifest
into_manifest session_id m = and_then (transpose_map into_init_plan m.init_plan) (λ plan.
    ok (record {
      session_id = session_id;
      schema_version = m.schema_version;
      harness_version = m.harness_version;
      active_branch = m.active_branch;
      current_objective = m.current_objective;
      last_known_good_commit = m.last_known_good_commit;
      init_plan = plan;
      metadata = m.metadata;
    }))

unfoldable pub from_entry : ProgressEntry → Result MemoryError PersistedProgressEntry
from_entry e = and_then (encode_system_time e.created_at) (λ (secs, nanos). ok (record {
  run_id = e.run_id;
  summary = e.summary;
  created_at_secs = secs;
  created_at_nanos = nanos;
}))

unfoldable pub into_entry : PersistedProgressEntry → Result MemoryError ProgressEntry
into_entry e =
    and_then (decode_system_time e.created_at_secs e.created_at_nanos)
      (λ t. ok (record { run_id = e.run_id; summary = e.summary; created_at = t }))

-- The seconds and the nanoseconds of a time that may be missing.
unfoldable pub encode_completed : Option ℕ → Result MemoryError (Option I64 × Option I64)
encode_completed none = ok (none, none)
encode_completed (some t) =
    and_then (encode_system_time t) (λ (secs, nanos). ok (some secs, some nanos))

unfoldable pub decode_completed : Option I64 → Option I64 → Result MemoryError (Option ℕ)
decode_completed none none = ok none
decode_completed (some secs) (some nanos) =
    and_then (decode_system_time secs nanos) (λ t. ok (some t))
decode_completed none (some nanos) =
    err (storage ("checkpoint completed timestamp must include both seconds and nanos" ∷ []))
decode_completed (some secs) none =
    err (storage ("checkpoint completed timestamp must include both seconds and nanos" ∷ []))

unfoldable pub from_checkpoint : RunCheckpoint → Result MemoryError PersistedRunCheckpoint
unfolding encode_completed
from_checkpoint c = and_then (encode_system_time c.started_at) λ (secs, nanos).
    and_then (encode_completed c.completed_at) λ (done_secs, done_nanos). ok (record {
      run_id = c.run_id;
      started_at_secs = secs;
      started_at_nanos = nanos;
      completed_at_secs = done_secs;
      completed_at_nanos = done_nanos;
      status = run_status_to_string c.status;
      note = c.note;
    })

unfoldable pub into_checkpoint : PersistedRunCheckpoint → Result MemoryError RunCheckpoint
unfolding decode_completed
into_checkpoint c =
    and_then (decode_completed c.completed_at_secs c.completed_at_nanos) λ completed_at.
      and_then (decode_system_time c.started_at_secs c.started_at_nanos) λ started_at.
        and_then (run_status_from_str c.status) λ status. ok (record {
          run_id = c.run_id;
          started_at = started_at;
          completed_at = completed_at;
          status = status;
          note = c.note;
        })

unfoldable pub from_message : Message → PersistedMessage
from_message m = record { role = role_to_string m.role; content = m.content }

unfoldable pub into_message : PersistedMessage → Result MemoryError Message
into_message m = and_then (role_from_str m.role) (λ role. ok (message role m.content))

unfoldable pub into_bootstrap_state : SessionId → PersistedState → Result MemoryError BootstrapState
into_bootstrap_state session_id s =
    and_then (transpose_map (into_manifest session_id) s.manifest) λ manifest.
      and_then (collect_map into_entry s.recent_progress) λ progress.
        and_then (collect_map into_checkpoint s.checkpoints) λ checkpoints. ok (record {
          manifest = manifest;
          feature_list = map into_feature_record s.feature_list;
          recent_progress = progress;
          checkpoints = checkpoints;
        })
