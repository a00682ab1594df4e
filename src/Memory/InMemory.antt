-- ===== src/Memory/InMemory.antt =====
-- `InMemoryMemoryBackend` of fmemory/src/backend.rs. A poisoned lock is not modelled: no method
-- panics while it holds the lock.
pub mod Sessions
pub mod Features
use fiddlesticks.Base.{
  String, Bool, true, false, Option, none, some, List, [], ◌∷◌, ◌++◌, if◌then◌else◌, ◌==◌,
  string_eq, text_append,
}
use fiddlesticks.Base.Map
use fiddlesticks.Base.Map.{HashMap}
use fiddlesticks.Exec.{Result, ok, err, Exec}
use fiddlesticks.Common.{SessionId}
use fiddlesticks.Provider.Model.{Message}
use fiddlesticks.Memory.Error.{MemoryError, MemoryErrorKind, new}
use fiddlesticks.Memory.Types.{
  SessionManifest, FeatureRecord, ProgressEntry, RunCheckpoint, BootstrapState, default_bootstrap,
}
use fiddlesticks.Memory.Backend.{MemoryBackend}

pub record SessionState : Type 0 where
  pub manifest : Option SessionManifest
  pub feature_list : List FeatureRecord
  pub progress : List ProgressEntry
  pub checkpoints : List RunCheckpoint
  pub transcript : List Message

abbrev pub default_session : SessionState
default_session = record {
  manifest = none;
  feature_list = [];
  progress = [];
  checkpoints = [];
  transcript = [];
}

abbrev pub InMemoryMemoryBackend : Type 0
InMemoryMemoryBackend = HashMap SessionId SessionState

abbrev pub or_default : Option SessionState → SessionState
or_default none = default_session
or_default (some s) = s

-- What is stored of a session: nothing at all reads as an empty session.
unfoldable pub session : InMemoryMemoryBackend → SessionId → SessionState
session b id = or_default (Map.get b id)

-- `*sessions.entry(id).or_default() = s`
unfoldable pub put_session :
    InMemoryMemoryBackend → SessionId → SessionState → InMemoryMemoryBackend
put_session b id s = Map.insert b id s

abbrev pub has_manifest : Option SessionManifest → Bool
has_manifest none = false
has_manifest (some m) = true

abbrev pub initialized : Option SessionState → Bool
initialized none = false
initialized (some s) = has_manifest s.manifest

unfoldable pub is_initialized : SessionId → Exec InMemoryMemoryBackend MemoryError Bool
is_initialized id b = (ok (initialized (Map.get b id)), b)

-- `if let Some(x) = extra { xs.push(x) }`
abbrev pub push_some {ℓ} : {A : Type ℓ} → List A → Option A → List A
push_some xs none = xs
push_some xs (some x) = xs ++ x ∷ []

-- `entry` adds an empty session also where the manifest is there already, and changes nothing else.
unfoldable pub initialize_session_if_missing :
    SessionId
    → SessionManifest
    → List FeatureRecord
    → Option ProgressEntry
    → Option RunCheckpoint
    → Exec InMemoryMemoryBackend MemoryError Bool
initialize_session_if_missing id manifest features progress checkpoint b =
    let s = session b id in
    if has_manifest s.manifest then (ok false, put_session b id s) else (
      ok true,
      put_session b id (record s {
        manifest = some manifest;
        feature_list = features;
        progress = push_some s.progress progress;
        checkpoints = push_some s.checkpoints checkpoint;
      }),
    )

abbrev pub bootstrap_of : Option SessionState → BootstrapState
bootstrap_of none = default_bootstrap
bootstrap_of (some s) = record {
  manifest = s.manifest;
  feature_list = s.feature_list;
  recent_progress = s.progress;
  checkpoints = s.checkpoints;
}

unfoldable pub load_bootstrap_state :
    SessionId → Exec InMemoryMemoryBackend MemoryError BootstrapState
load_bootstrap_state id b = (ok (bootstrap_of (Map.get b id)), b)

unfoldable pub save_manifest :
    SessionId → SessionManifest → Exec InMemoryMemoryBackend MemoryError (Unit {0})
save_manifest id m b =
    let s = session b id in (ok tt, put_session b id (record s { manifest = some m }))

unfoldable pub append_progress_entry :
    SessionId → ProgressEntry → Exec InMemoryMemoryBackend MemoryError (Unit {0})
append_progress_entry id e b =
    let s = session b id in (ok tt, put_session b id (record s { progress = s.progress ++ e ∷ [] }))

unfoldable pub replace_feature_list :
    SessionId → List FeatureRecord → Exec InMemoryMemoryBackend MemoryError (Unit {0})
replace_feature_list id features b =
    let s = session b id in (ok tt, put_session b id (record s { feature_list = features }))

abbrev pub cons_some : FeatureRecord → Option (List FeatureRecord) → Option (List FeatureRecord)
cons_some f none = none
cons_some f (some fs) = some (f ∷ fs)

-- `iter_mut().find(|f| f.id == feature_id)`, with `passes` set on the feature found; `none` if none is.
unfoldable pub set_passes : String → Bool → List FeatureRecord → Option (List FeatureRecord)
set_passes feature_id passes [] = none
set_passes feature_id passes (f ∷ fs) =
    if f.id == feature_id
    then some (record f { passes = passes } ∷ fs)
    else cons_some f (set_passes feature_id passes fs)

abbrev pub feature_not_found : String → MemoryError
feature_not_found feature_id =
    new MemoryErrorKind.not_found (text_append "feature '" (text_append feature_id "' not found"))

update_found :
    Option (List FeatureRecord)
    → SessionId
    → String
    → Exec InMemoryMemoryBackend MemoryError (Unit {0})
update_found none id feature_id b =
    (err (feature_not_found feature_id), put_session b id (session b id))
update_found (some features) id feature_id b =
    (ok tt, put_session b id (record (session b id) { feature_list = features }))

unfoldable pub update_feature_pass :
    SessionId → String → Bool → Exec InMemoryMemoryBackend MemoryError (Unit {0})
unfolding update_found
update_feature_pass id feature_id passes b =
    update_found (set_passes feature_id passes (session b id).feature_list) id feature_id b

unfoldable pub record_run_checkpoint :
    SessionId → RunCheckpoint → Exec InMemoryMemoryBackend MemoryError (Unit {0})
record_run_checkpoint id c b =
    let s = session b id in
    (ok tt, put_session b id (record s { checkpoints = s.checkpoints ++ c ∷ [] }))

abbrev pub transcript_of : Option SessionState → List Message
transcript_of none = []
transcript_of (some s) = s.transcript

unfoldable pub load_transcript_messages :
    SessionId → Exec InMemoryMemoryBackend MemoryError (List Message)
load_transcript_messages id b = (ok (transcript_of (Map.get b id)), b)

unfoldable pub append_transcript_messages :
    SessionId → List Message → Exec InMemoryMemoryBackend MemoryError (Unit {0})
append_transcript_messages id ms b =
    let s = session b id in (ok tt, put_session b id (record s { transcript = s.transcript ++ ms }))

abbrev pub in_memory_backend : MemoryBackend InMemoryMemoryBackend
in_memory_backend = record {
  is_initialized = is_initialized;
  initialize_session_if_missing = initialize_session_if_missing;
  load_bootstrap_state = load_bootstrap_state;
  save_manifest = save_manifest;
  append_progress_entry = append_progress_entry;
  replace_feature_list = replace_feature_list;
  update_feature_pass = update_feature_pass;
  record_run_checkpoint = record_run_checkpoint;
  load_transcript_messages = load_transcript_messages;
  append_transcript_messages = append_transcript_messages;
}
