-- ===== src/Memory/Filesystem/Agrees.antt =====
-- Each call of the backend of fmemory/src/backends/filesystem.rs beside the same call of the backend
-- in memory.
use fiddlesticks.Base.{String, List, ◌≡◌, ◌⊎◌, inl, inr, refl, ap}
use fiddlesticks.Exec.{Result, ok, err, no_return, Exec, ◌>>=◌, lift}
use fiddlesticks.Common.{SessionId}
use fiddlesticks.Provider.Model.{Message}
use fiddlesticks.Memory.Error.{MemoryError}
use fiddlesticks.Memory.Types.{FeatureRecord, SessionManifest, ProgressEntry, RunCheckpoint}
use fiddlesticks.Memory.InMemory as InMemory
use fiddlesticks.Memory.InMemory.{
  InMemoryMemoryBackend, SessionState, session, put_session, push_some,
}
use fiddlesticks.Memory.Persisted.{PersistedState}
use fiddlesticks.Memory.Persisted.RoundTrip.{
  InRange, InRange?, entry-Kept, checkpoint-Kept, manifest-Kept,
}
use fiddlesticks.Memory.Filesystem as Filesystem
use fiddlesticks.Memory.Filesystem.{Json, load_state, load_or_default, save_state}
use fiddlesticks.Memory.Filesystem.Files.{Accessible, Disk, DiskLaws}
use fiddlesticks.Memory.Filesystem.Saves.{Ends, bind-Ends}
use fiddlesticks.Memory.Filesystem.Stands.{
  Stands, progress-Stands, checkpoint-Stands, messages-Stands, features-Stands, manifest-Stands,
}
use fiddlesticks.Memory.Filesystem.Held.{
  JsonLaws, StorageFails, Represents, Same, StandsFor, load_or_default-Ends, save-Ends,
}

module _ {D Bytes : Type 0} (disk : Disk D Bytes) (laws : DiskLaws disk)
    (accessible : Accessible disk laws) (json : Json Bytes) (json_laws : JsonLaws json)
    (root : String) where
  -- The two calls give the same, and the disk stands for the memory after them; or the disk failed.
  abbrev pub Agreed :
      {A : Type 0}
      → Result MemoryError A × InMemoryMemoryBackend
      → Result MemoryError A × D
      → Type 0
  Agreed (r, b) (q, d) =
      ((q ≡ r) × Represents disk laws accessible json json_laws root d b) ⊎ StorageFails q

  -- A call that gives a value of its own, or fails with the disk.
  pub Agreed-Ends :
      {A : Type 0} (G : A → D → Type 0) (a : A) (b : InMemoryMemoryBackend)
      (r : Result MemoryError A × D)
      → ((x : A) (d : D)
          → G x d
          → (x ≡ a) × Represents disk laws accessible json json_laws root d b)
      → Ends G r
      → Agreed (ok a, b) r
  Agreed-Ends G a b (ok x, d) f h = let (same, rep) = f x d h in inl (ap ok same, rep)
  Agreed-Ends G a b (err e, d) f h = inr h
  Agreed-Ends G a b (no_return, d) f h = absurd h

  abbrev pub After : InMemoryMemoryBackend → {A : Type 0} → A → D → Type 0
  After b u d = Represents disk laws accessible json json_laws root d b

  -- A conversion that succeeds is no step of its own.
  pub kept_then :
      {K A : Type 0} (H : A → D → Type 0) (r : Result MemoryError K) (k : K)
      (g : K → Exec D MemoryError A) (d : D)
      → r ≡ ok k
      → Ends H (g k d)
      → Ends H ((lift r >>= g) d)
  unfolding ◌>>=◌ lift
  kept_then H r k g d e h = rw e h

  -- A call that loads the session, changes it and saves it.
  pub change_agrees :
      (d : D) (b : InMemoryMemoryBackend) (id : SessionId) (s : SessionState)
      (f : PersistedState → Exec D MemoryError (Unit {0}))
      → Represents disk laws accessible json json_laws root d b
      → ((p : PersistedState) (d' : D)
          → Stands id p (session b id)
          → Same disk laws accessible json json_laws root d d'
          → Ends (After (put_session b id s)) (f p d'))
      → Agreed (ok tt, put_session b id s) ((load_or_default disk json root id >>= f) d)
  change_agrees d b id s f rep h =
      Agreed-Ends (After (put_session b id s)) tt (put_session b id s) _
        (λ u d' after. (refl, after))
        (bind-Ends (Ends (After (put_session b id s))) f
          (StandsFor disk laws accessible json json_laws root d id (session b id)) _ d (λ e d' k. k)
          (load_or_default-Ends disk laws accessible json json_laws root d b id rep)
          (λ p d' (stands, same). h p d' stands same))

  pub append_progress_agrees :
      (d : D) (b : InMemoryMemoryBackend) (id : SessionId) (e : ProgressEntry)
      → Represents disk laws accessible json json_laws root d b
      → InRange e.created_at
      → Agreed
          (InMemory.append_progress_entry id e b)
          (Filesystem.append_progress_entry disk json root id e d)
  unfolding InMemory.append_progress_entry Filesystem.append_progress_entry
  append_progress_agrees d b id e rep range =
      let k = entry-Kept e range in
      change_agrees d b id _ _ rep λ p d' stands same. kept_then (After _) _ k.0 _ d' k.1 (
        save-Ends disk laws accessible json json_laws root d d' b id _ _ rep same
          (progress-Stands id p (session b id) stands e k))

  pub record_checkpoint_agrees :
      (d : D) (b : InMemoryMemoryBackend) (id : SessionId) (c : RunCheckpoint)
      → Represents disk laws accessible json json_laws root d b
      → InRange c.started_at
      → InRange? c.completed_at
      → Agreed
          (InMemory.record_run_checkpoint id c b)
          (Filesystem.record_run_checkpoint disk json root id c d)
  unfolding InMemory.record_run_checkpoint Filesystem.record_run_checkpoint
  record_checkpoint_agrees d b id c rep start completed =
      let k = checkpoint-Kept c start completed in
      change_agrees d b id _ _ rep λ p d' stands same. kept_then (After _) _ k.0 _ d' k.1 (
        save-Ends disk laws accessible json json_laws root d d' b id _ _ rep same
          (checkpoint-Stands id p (session b id) stands c k))

  pub save_manifest_agrees :
      (d : D) (b : InMemoryMemoryBackend) (id : SessionId) (m : SessionManifest)
      → Represents disk laws accessible json json_laws root d b
      → m.session_id ≡ id
      → Agreed (InMemory.save_manifest id m b) (Filesystem.save_manifest disk json root id m d)
  unfolding InMemory.save_manifest Filesystem.save_manifest
  save_manifest_agrees d b id m rep own =
      let (kept, written, read) = manifest-Kept id m own in
      change_agrees d b id _ _ rep λ p d' stands same. kept_then (After _) _ kept _ d' written (
        save-Ends disk laws accessible json json_laws root d d' b id _ _ rep same
          (manifest-Stands id p (session b id) stands m kept read))

  pub replace_features_agrees :
      (d : D) (b : InMemoryMemoryBackend) (id : SessionId) (fs : List FeatureRecord)
      → Represents disk laws accessible json json_laws root d b
      → Agreed
          (InMemory.replace_feature_list id fs b)
          (Filesystem.replace_feature_list disk json root id fs d)
  unfolding InMemory.replace_feature_list Filesystem.replace_feature_list
  replace_features_agrees d b id fs rep = change_agrees d b id _ _ rep λ p d' stands same.
      save-Ends disk laws accessible json json_laws root d d' b id _ _ rep same
        (features-Stands id p (session b id) stands fs)

  pub append_transcript_agrees :
      (d : D) (b : InMemoryMemoryBackend) (id : SessionId) (ms : List Message)
      → Represents disk laws accessible json json_laws root d b
      → Agreed
          (InMemory.append_transcript_messages id ms b)
          (Filesystem.append_transcript_messages disk json root id ms d)
  unfolding InMemory.append_transcript_messages Filesystem.append_transcript_messages
  append_transcript_agrees d b id ms rep = change_agrees d b id _ _ rep λ p d' stands same.
      save-Ends disk laws accessible json json_laws root d d' b id _ _ rep same
        (messages-Stands id p (session b id) stands ms)
