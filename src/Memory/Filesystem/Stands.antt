-- ===== src/Memory/Filesystem/Stands.antt =====
-- What the file of a session of fmemory/src/backends/filesystem.rs stands for: a session as the
-- backend in memory keeps it.
use fiddlesticks.Memory.Filesystem.Collects.{append_reads, one_reads}
use fiddlesticks.Base.{
  Bool, true, Option, none, some, List, [], ◌∷◌, ◌++◌, map, ◌≡◌, refl, ◌==◌, string_eq, arith,
  Bool-cases, Option-cases, inl, inr, String,
}
use fiddlesticks.Base.Map.{is_some}
use fiddlesticks.Exec.{collect_map, Result, ok, err, no_return, and_then}
use fiddlesticks.Common.{SessionId}
use fiddlesticks.Provider.Model.{Message}
use fiddlesticks.Memory.Error.{MemoryError}
use fiddlesticks.Memory.Types.{FeatureRecord, SessionManifest, ProgressEntry, RunCheckpoint}
use fiddlesticks.Memory.InMemory.{
  SessionState, default_session, has_manifest, push_some, set_passes,
}
use fiddlesticks.Memory.Laws.{bootstrap_of_session}
use fiddlesticks.Memory.Persisted.{
  PersistedState, PersistedManifest, PersistedFeatureRecord, default_persisted,
}
use fiddlesticks.Memory.Persisted.Conversions.{
  transpose_map, from_feature_record, into_feature_record, into_manifest, into_entry,
  into_checkpoint, from_message, into_message, into_bootstrap_state, from_entry, from_checkpoint,
}
use fiddlesticks.Memory.Persisted.RoundTrip.{Kept, feature_lem, message_lem}
use fiddlesticks.Memory.Filesystem.{push_converted, persisted_pass}

-- Each part of the state is read back as that part of the session.
pub record Stands (id : SessionId) (p : PersistedState) (s : SessionState) : Type 0 where
  pub manifest : transpose_map (into_manifest id) p.manifest ≡ ok s.manifest
  pub features : map into_feature_record p.feature_list ≡ s.feature_list
  pub progress : collect_map into_entry p.recent_progress ≡ ok s.progress
  pub checkpoints : collect_map into_checkpoint p.checkpoints ≡ ok s.checkpoints
  pub transcript : collect_map into_message p.transcript ≡ ok s.transcript

pub default-Stands : (id : SessionId) → Stands id default_persisted default_session
unfolding collect_map
default-Stands id = record {
  manifest = refl;
  features = refl;
  progress = refl;
  checkpoints = refl;
  transcript = refl;
}

messages_read : (ms : List Message) → collect_map into_message (map from_message ms) ≡ ok ms
unfolding collect_map
messages_read [] = refl
messages_read (m ∷ ms) = rw (message_lem m, messages_read ms) refl

features_read :
    (fs : List FeatureRecord) → map into_feature_record (map from_feature_record fs) ≡ fs
features_read [] = refl
features_read (f ∷ fs) = rw (feature_lem f, features_read fs) refl

some_of :
    {B : Type 0} (r : Result MemoryError B) (q : Option B)
    → and_then r (λ y. ok (some y)) ≡ ok q
    → true ≡ is_some q
some_of (ok b) q h = ground arith
some_of (err e) q h = cc
some_of no_return q h = cc

transposed :
    {A B : Type 0} (f : A → Result MemoryError B) (o : Option A) (q : Option B)
    → transpose_map f o ≡ ok q
    → is_some o ≡ is_some q
transposed f none q h = ground arith
transposed f (some a) q h = some_of (f a) q h

module _ (id : SessionId) (p : PersistedState) (s : SessionState) (h : Stands id p s) where
  pub manifest_there : is_some p.manifest ≡ has_manifest s.manifest
  manifest_there = transposed (into_manifest id) p.manifest s.manifest h.manifest

  pub reads_bootstrap : into_bootstrap_state id p ≡ ok (bootstrap_of_session s)
  unfolding into_bootstrap_state
  reads_bootstrap = rw (h.manifest, h.progress, h.checkpoints, h.features) refl

  pub progress-Stands :
      (e : ProgressEntry) (k : Kept from_entry into_entry e)
      → Stands id
          (record p { recent_progress = p.recent_progress ++ k.0 ∷ [] })
          (record s { progress = s.progress ++ e ∷ [] })
  progress-Stands e (kept, written, read) = record {
    manifest = h.manifest;
    features = h.features;
    checkpoints = h.checkpoints;
    transcript = h.transcript;
    progress =
        append_reads into_entry p.recent_progress (kept ∷ []) s.progress (e ∷ []) h.progress
          (one_reads into_entry kept e read);
  }

  pub checkpoint-Stands :
      (c : RunCheckpoint) (k : Kept from_checkpoint into_checkpoint c)
      → Stands id
          (record p { checkpoints = p.checkpoints ++ k.0 ∷ [] })
          (record s { checkpoints = s.checkpoints ++ c ∷ [] })
  checkpoint-Stands c (kept, written, read) = record {
    manifest = h.manifest;
    features = h.features;
    progress = h.progress;
    transcript = h.transcript;
    checkpoints =
        append_reads into_checkpoint p.checkpoints (kept ∷ []) s.checkpoints (c ∷ []) h.checkpoints
          (one_reads into_checkpoint kept c read);
  }

  pub messages-Stands :
      (ms : List Message)
      → Stands id
          (record p { transcript = p.transcript ++ map from_message ms })
          (record s { transcript = s.transcript ++ ms })
  messages-Stands ms = record {
    manifest = h.manifest;
    features = h.features;
    progress = h.progress;
    checkpoints = h.checkpoints;
    transcript =
        append_reads into_message p.transcript (map from_message ms) s.transcript ms h.transcript
          (messages_read ms);
  }

  pub features-Stands :
      (fs : List FeatureRecord)
      → Stands id
          (record p { feature_list = map from_feature_record fs })
          (record s { feature_list = fs })
  features-Stands fs = record {
    manifest = h.manifest;
    progress = h.progress;
    checkpoints = h.checkpoints;
    transcript = h.transcript;
    features = features_read fs;
  }

  -- Features that are read back as they stand.
  pub passed-Stands :
      (fs : List PersistedFeatureRecord)
      → Stands id
          (record p { feature_list = fs })
          (record s { feature_list = map into_feature_record fs })
  passed-Stands fs = record {
    manifest = h.manifest;
    features = refl;
    progress = h.progress;
    checkpoints = h.checkpoints;
    transcript = h.transcript;
  }

  pub manifest-Stands :
      (m : SessionManifest) (kept : PersistedManifest)
      → into_manifest id kept ≡ ok m
      → Stands id (record p { manifest = some kept }) (record s { manifest = some m })
  manifest-Stands m kept read = record {
    features = h.features;
    progress = h.progress;
    checkpoints = h.checkpoints;
    transcript = h.transcript;
    manifest = rw read refl;
  }

abbrev mapped : {A B : Type 0} → (A → B) → Option A → Option B
mapped f none = none
mapped f (some a) = some (f a)

-- The search for a feature finds in the file what it finds in the session.
pub pass_reads :
    (k : String) (b : Bool) (fs : List PersistedFeatureRecord)
    → set_passes k b (map into_feature_record fs)
      ≡ mapped (map into_feature_record) (persisted_pass k b fs)
unfolding set_passes persisted_pass into_feature_record
pass_reads k b [] = refl
pass_reads k b (f ∷ fs) = elim (Bool-cases (f.id == k)) [
  | inl e ↦ rw e refl
  | inr e ↦ elim (Option-cases (persisted_pass k b fs)) [
    | inl gone ↦ rw (e, pass_reads k b fs, gone) refl
    | inr (gs, there) ↦ rw (e, pass_reads k b fs, there) refl
  ]
]

abbrev pub KeptIf :
    {A B : Type 0} → (A → Result MemoryError B) → (B → Result MemoryError A) → Option A → Type 0
KeptIf to from none = Unit
KeptIf to from (some x) = Kept to from x

-- An entry that is added if it is given.
pub push_reads :
    {A B : Type 0} (to : A → Result MemoryError B) (from : B → Result MemoryError A) (x : Option A)
    (ys : List B) (xs : List A)
    → KeptIf to from x
    → collect_map from ys ≡ ok xs
    → (zs : List B) × (push_converted to ys x ≡ ok zs) × (collect_map from zs ≡ ok (push_some xs x))
push_reads to from none ys xs k h = (ys, refl, h)
push_reads to from (some x) ys xs (y, written, read) h = (
  ys ++ y ∷ [],
  rw written refl,
  append_reads from ys (y ∷ []) xs (x ∷ []) h (one_reads from y x read),
)
