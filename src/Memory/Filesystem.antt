-- ===== src/Memory/Filesystem.antt =====
-- `FilesystemMemoryBackend` of fmemory/src/backends/filesystem.rs. A poisoned lock is not modelled: no
-- method panics while it holds the lock.
pub mod Hex
pub mod Files
pub mod Saves
pub mod Collects
pub mod Stands
pub mod Held
pub mod Agrees
pub mod Branches
pub mod Refines
pub mod Losses
use fiddlesticks.Base.{
  String, Bool, true, false, Option, none, some, List, [], ◌∷◌, ◌++◌, map, if◌then◌else◌, ◌==◌,
  string_eq, concat, text_append, is_empty_text,
}
use fiddlesticks.Base.Map.{is_some}
use fiddlesticks.Exec.{
  collect_map, Result, ok, err, map_err, and_then, Exec, lift, pure, raise, ok_or, catch_into,
  ◌>>=◌, ◌>>◌,
}
use fiddlesticks.Common.{SessionId}
use fiddlesticks.Provider.Model.{Message}
use fiddlesticks.Memory.Error.{MemoryError, MemoryErrorKind, new}
use fiddlesticks.Memory.Types.{
  SessionManifest, FeatureRecord, ProgressEntry, RunCheckpoint, BootstrapState, default_bootstrap,
}
use fiddlesticks.Memory.Backend.{MemoryBackend}
use fiddlesticks.Memory.Persisted.{
  PersistedState, PersistedFeatureRecord, PersistedProgressEntry, PersistedRunCheckpoint,
  PersistedManifest, default_persisted,
}
use fiddlesticks.Memory.Persisted.Conversions.{
  from_feature_record, from_manifest, from_entry, from_checkpoint, from_message, into_message,
  into_bootstrap_state,
}
use Hex.{as_bytes, hex_encode}
use Files.{Disk, FilePath}

-- `serde_json` on the state of a session.
pub record Json (Bytes : Type 0) : Type 0 where
  pub to_vec_pretty : PersistedState → Result String Bytes
  pub from_slice : Bytes → Result String PersistedState

-- `MemoryError::storage(format!("...: {error}"))`
abbrev pub storage_error : String → String → MemoryError
storage_error what error = new MemoryErrorKind.storage (concat (what ∷ ": " ∷ error ∷ []))

-- `Path::join`, with the separator of Unix.
abbrev pub join_path : String → String → String
join_path root name = concat (root ∷ "/" ∷ name ∷ [])

-- `Path::with_extension`: a name that is only a dot and an extension counts as a name without one.
unfoldable pub with_extension : String → FilePath → FilePath
with_extension extension p =
    if is_empty_text p.stem
    then record p { stem = text_append "." p.extension; extension = extension }
    else record p { extension = extension }

-- `Path::parent`: a file stands in a directory.
abbrev pub parent : FilePath → Option String
parent p = some p.directory

unfoldable pub session_path : String → SessionId → FilePath
session_path root id = record {
  directory = join_path root "sessions";
  stem = hex_encode (as_bytes id);
  extension = "json";
}

-- `find(|f| f.id == feature_id)` and the assignment to the one found; `none` if none is.
unfoldable pub persisted_pass :
    String → Bool → List PersistedFeatureRecord → Option (List PersistedFeatureRecord)
persisted_pass feature_id passes [] = none
persisted_pass feature_id passes (f ∷ fs) =
    let rest = persisted_pass feature_id passes fs in
    if f.id == feature_id
    then some (record f { passes = passes } ∷ fs)
    else elim rest [ none ↦ none | some gs ↦ some (f ∷ gs) ]

-- `if let Some(x) = extra { xs.push(convert(x)?) }`
abbrev pub push_converted :
    {A B : Type 0} → (A → Result MemoryError B) → List B → Option A → Result MemoryError (List B)
push_converted convert xs none = ok xs
push_converted convert xs (some x) = and_then (convert x) (λ y. ok (xs ++ y ∷ []))

module _ {D Bytes : Type 0} (disk : Disk D Bytes) where
  -- `path.exists()` in a condition
  unfoldable pub when_exists :
      {A : Type 0} → FilePath → Exec D MemoryError A → Exec D MemoryError A → Exec D MemoryError A
  when_exists path m n d = if disk.exists path d then m d else n d

  -- `FilesystemMemoryBackend::new`; the backend is then its `root`.
  unfoldable pub new_backend : String → Exec D MemoryError String
  new_backend root = do
    catch_into (storage_error "failed to create filesystem backend root")
        (disk.create_dir_all (join_path root "sessions"))
    pure root

  unfoldable pub write_atomic : FilePath → Bytes → Exec D MemoryError (Unit {0})
  write_atomic path bytes = do
    directory ←
        ok_or (new MemoryErrorKind.storage "session state file missing parent directory")
          (parent path)
    catch_into (storage_error "failed to create parent directory") (disk.create_dir_all directory)
    let tmp = with_extension "json.tmp" path
    catch_into (storage_error "failed to write temporary state file") (disk.write tmp bytes)
    when_exists path
        (catch_into (storage_error "failed to replace existing state file") (disk.remove_file path))
        (pure tt)
    catch_into (storage_error "failed to finalize state file") (disk.rename tmp path)

module _ {D Bytes : Type 0} (disk : Disk D Bytes) (json : Json Bytes) (root : String) where
  unfoldable pub read_state : FilePath → Exec D MemoryError (Option PersistedState)
  read_state path = do
    bytes ← catch_into (storage_error "failed to read session state file") (disk.read path)
    state ←
        lift (map_err (storage_error "failed to deserialize session state") (json.from_slice bytes))
    pure (some state)

  unfoldable pub load_state : SessionId → Exec D MemoryError (Option PersistedState)
  load_state id =
      let path = session_path root id in when_exists disk path (read_state path) (pure none)

  unfoldable pub save_state : SessionId → PersistedState → Exec D MemoryError (Unit {0})
  save_state id state = do
    bytes ←
        lift
          (map_err (storage_error "failed to serialize session state") (json.to_vec_pretty state))
    write_atomic disk (session_path root id) bytes

  -- `load_state(id)?.unwrap_or_default()`
  abbrev pub or_default : Option PersistedState → PersistedState
  or_default none = default_persisted
  or_default (some s) = s

  unfoldable pub load_or_default : SessionId → Exec D MemoryError PersistedState
  load_or_default id = do s ← load_state id; pure (or_default s)

  abbrev pub has_manifest : Option PersistedState → Bool
  has_manifest none = false
  has_manifest (some s) = is_some s.manifest

  unfoldable pub is_initialized : SessionId → Exec D MemoryError Bool
  is_initialized id = do s ← load_state id; pure (has_manifest s)

  -- The session that was not there yet, and its save.
  unfoldable pub fill_state :
      SessionId
      → SessionManifest
      → List FeatureRecord
      → Option ProgressEntry
      → Option RunCheckpoint
      → PersistedState
      → Exec D MemoryError Bool
  fill_state id manifest features progress checkpoint s = do
    kept ← lift (from_manifest manifest)
    entries ← lift (push_converted from_entry s.recent_progress progress)
    checkpoints ← lift (push_converted from_checkpoint s.checkpoints checkpoint)
    save_state id (record s {
      manifest = some kept;
      feature_list = map from_feature_record features;
      recent_progress = entries;
      checkpoints = checkpoints;
    })
    pure true

  unfoldable pub initialize_session_if_missing :
      SessionId
      → SessionManifest
      → List FeatureRecord
      → Option ProgressEntry
      → Option RunCheckpoint
      → Exec D MemoryError Bool
  initialize_session_if_missing id manifest features progress checkpoint = do
    s ← load_or_default id
    let fill = fill_state id manifest features progress checkpoint s
    if is_some s.manifest then pure false else fill

  unfoldable pub bootstrap_or_default :
      SessionId → Option PersistedState → Result MemoryError BootstrapState
  bootstrap_or_default id none = ok default_bootstrap
  bootstrap_or_default id (some s) = into_bootstrap_state id s

  unfoldable pub load_bootstrap_state : SessionId → Exec D MemoryError BootstrapState
  load_bootstrap_state id = do s ← load_state id; lift (bootstrap_or_default id s)

  unfoldable pub save_manifest : SessionId → SessionManifest → Exec D MemoryError (Unit {0})
  save_manifest id manifest = do
    s ← load_or_default id
    kept ← lift (from_manifest manifest)
    save_state id (record s { manifest = some kept })

  unfoldable pub append_progress_entry : SessionId → ProgressEntry → Exec D MemoryError (Unit {0})
  append_progress_entry id entry = do
    s ← load_or_default id
    kept ← lift (from_entry entry)
    save_state id (record s { recent_progress = s.recent_progress ++ kept ∷ [] })

  unfoldable pub replace_feature_list :
      SessionId → List FeatureRecord → Exec D MemoryError (Unit {0})
  replace_feature_list id features = do
    s ← load_or_default id
    save_state id (record s { feature_list = map from_feature_record features })

  -- What is done with the search for the feature.
  unfoldable pub save_pass :
      SessionId
      → String
      → PersistedState
      → Option (List PersistedFeatureRecord)
      → Exec D MemoryError (Unit {0})
  save_pass id feature_id s none = raise (
      new MemoryErrorKind.not_found
        (text_append "feature '" (text_append feature_id "' not found")))
  save_pass id feature_id s (some features) = save_state id (record s { feature_list = features })

  unfoldable pub update_feature_pass : SessionId → String → Bool → Exec D MemoryError (Unit {0})
  update_feature_pass id feature_id passes = do
    s ← load_or_default id
    save_pass id feature_id s (persisted_pass feature_id passes s.feature_list)

  unfoldable pub record_run_checkpoint : SessionId → RunCheckpoint → Exec D MemoryError (Unit {0})
  record_run_checkpoint id checkpoint = do
    s ← load_or_default id
    kept ← lift (from_checkpoint checkpoint)
    save_state id (record s { checkpoints = s.checkpoints ++ kept ∷ [] })

  unfoldable pub messages_or_empty : Option PersistedState → Result MemoryError (List Message)
  messages_or_empty none = ok []
  messages_or_empty (some s) = collect_map into_message s.transcript

  unfoldable pub load_transcript_messages : SessionId → Exec D MemoryError (List Message)
  load_transcript_messages id = do s ← load_state id; lift (messages_or_empty s)

  unfoldable pub append_transcript_messages :
      SessionId → List Message → Exec D MemoryError (Unit {0})
  append_transcript_messages id messages = do
    s ← load_or_default id
    save_state id (record s { transcript = s.transcript ++ map from_message messages })

  abbrev pub filesystem_backend : MemoryBackend D
  filesystem_backend = record {
    is_initialized = is_initialized;
    initialize_session_if_missing = initialize_session_if_missing;
    load_bootstrap_state = load_bootstrap_state;
    save_manifest = save_manifest;
    append_progress_entry = append_progress_entry;
    replace_feature_list = replace_feature_list;
    update_feature_pass = update_feature_pass;
    record_run_checkpoint = record_run_checkpoint;
    load_transcript_messages = load_transcript_messages;
    append_transcript_messages = append_transcript_messages;
  }
