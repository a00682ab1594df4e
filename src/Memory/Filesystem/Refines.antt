-- ===== src/Memory/Filesystem/Refines.antt =====
-- The backend of fmemory/src/backends/filesystem.rs refines the one in memory, over any sequence of
-- calls.
use fiddlesticks.Base.{String, Option, none, some, List, [], ◌∷◌, ◌≡◌, ◌⊎◌, inl, inr, refl, ap, All}
use fiddlesticks.Base.Map
use fiddlesticks.Exec.{Result}
use fiddlesticks.Memory.Error.{MemoryError}
use fiddlesticks.Memory.Types.{ProgressEntry, RunCheckpoint}
use fiddlesticks.Memory.Backend.{MemoryBackend}
use fiddlesticks.Memory.Calls.{
  Call, is_initialized, initialize, load_bootstrap, save_manifest, append_progress,
  replace_features, update_pass, record_checkpoint, load_transcript, append_transcript, Answer,
  flag, bootstrap, done, messages, answer, perform,
}
use fiddlesticks.Memory.InMemory.{InMemoryMemoryBackend, in_memory_backend, session}
use fiddlesticks.Memory.Persisted.RoundTrip.{InRange, InRange?, entry-Kept, checkpoint-Kept}
use fiddlesticks.Memory.Persisted.Conversions.{
  from_entry, into_entry, from_checkpoint, into_checkpoint,
}
use fiddlesticks.Memory.Filesystem.{Json, filesystem_backend, session_path}
use fiddlesticks.Memory.Filesystem.Files.{Accessible, FilePath, Disk, DiskLaws}
use fiddlesticks.Memory.Filesystem.Held.{JsonLaws, StorageFails, Represents}
use fiddlesticks.Memory.Filesystem.Stands.{KeptIf}
use fiddlesticks.Memory.Filesystem.Agrees.{
  Agreed, append_progress_agrees, record_checkpoint_agrees, save_manifest_agrees,
  replace_features_agrees, append_transcript_agrees,
}
use fiddlesticks.Memory.Filesystem.Branches.{
  is_initialized_agrees, load_bootstrap_agrees, load_transcript_agrees, update_pass_agrees,
  initialize_agrees,
}

abbrev EntryInRange : Option ProgressEntry → Type 0
EntryInRange none = Unit
EntryInRange (some e) = InRange e.created_at

abbrev CheckpointInRange : Option RunCheckpoint → Type 0
CheckpointInRange none = Unit
CheckpointInRange (some c) = InRange c.started_at × InRange? c.completed_at

-- A manifest is stored under its own session's id, and the seconds of every time are an `i64`.
abbrev pub Storable : Call → Type 0
Storable (is_initialized id) = Unit
Storable (initialize id m fs e c) = (m.session_id ≡ id) × EntryInRange e × CheckpointInRange c
Storable (load_bootstrap id) = Unit
Storable (save_manifest id m) = m.session_id ≡ id
Storable (append_progress id e) = InRange e.created_at
Storable (replace_features id fs) = Unit
Storable (update_pass id k b) = Unit
Storable (record_checkpoint id c) = InRange c.started_at × InRange? c.completed_at
Storable (load_transcript id) = Unit
Storable (append_transcript id ms) = Unit

-- The answer is that the storage failed.
abbrev pub DiskFailed : Answer → Type 0
DiskFailed (flag r) = StorageFails r
DiskFailed (bootstrap r) = StorageFails r
DiskFailed (done r) = StorageFails r
DiskFailed (messages r) = StorageFails r

-- Two backends give the same answers, until the first one's storage fails.
abbrev pub SameAnswers :
    {D B : Type 0} → MemoryBackend D → MemoryBackend B → List Call → D → B → Type 0
SameAnswers m n [] d b = Unit
SameAnswers m n (c ∷ cs) d b =
    let (q, d') = perform m c d in
    let (r, b') = perform n c b in ((q ≡ r) × SameAnswers m n cs d' b') ⊎ DiskFailed q

entry_kept : (e : Option ProgressEntry) → EntryInRange e → KeptIf from_entry into_entry e
entry_kept none h = tt
entry_kept (some e) h = entry-Kept e h

checkpoint_kept :
    (c : Option RunCheckpoint) → CheckpointInRange c → KeptIf from_checkpoint into_checkpoint c
checkpoint_kept none h = tt
checkpoint_kept (some c) (start, completed) = checkpoint-Kept c start completed

module _ {D Bytes : Type 0} (disk : Disk D Bytes) (laws : DiskLaws disk)
    (accessible : Accessible disk laws) (json : Json Bytes) (json_laws : JsonLaws json)
    (root : String) where
  abbrev Answered : Answer × InMemoryMemoryBackend → Answer × D → Type 0
  Answered (r, b) (q, d) =
      ((q ≡ r) × Represents disk laws accessible json json_laws root d b) ⊎ DiskFailed q

  abbrev Fails : {A : Type 0} → (Result MemoryError A → Answer) → Type 0
  Fails {A} f = (q : Result MemoryError A) → StorageFails q → DiskFailed (f q)

  answered :
      {A : Type 0} (f : Result MemoryError A → Answer)
      (r : Result MemoryError A × InMemoryMemoryBackend) (q : Result MemoryError A × D)
      → Fails f
      → Agreed disk laws accessible json json_laws root r q
      → Answered (answer f r) (answer f q)
  answered f (r, b) (q, d) fails (inl (same, rep)) = inl (ap f same, rep)
  answered f (r, b) (q, d) fails (inr h) = inr (fails q h)

  call_agrees :
      (c : Call) (d : D) (b : InMemoryMemoryBackend)
      → Storable c
      → Represents disk laws accessible json json_laws root d b
      → Answered (perform in_memory_backend c b) (perform (filesystem_backend disk json root) c d)
  call_agrees (is_initialized id) d b h rep =
      answered flag _ _ (λ q k. k)
        (is_initialized_agrees disk laws accessible json json_laws root d b id rep)
  call_agrees (initialize id m fs e c) d b (own, entry, checkpoint) rep =
      answered flag _ _ (λ q k. k)
        (initialize_agrees disk laws accessible json json_laws root d b id m fs e c rep own
          (entry_kept e entry) (checkpoint_kept c checkpoint))
  call_agrees (load_bootstrap id) d b h rep =
      answered bootstrap _ _ (λ q k. k)
        (load_bootstrap_agrees disk laws accessible json json_laws root d b id rep)
  call_agrees (save_manifest id m) d b h rep =
      answered done _ _ (λ q k. k)
        (save_manifest_agrees disk laws accessible json json_laws root d b id m rep h)
  call_agrees (append_progress id e) d b h rep =
      answered done _ _ (λ q k. k)
        (append_progress_agrees disk laws accessible json json_laws root d b id e rep h)
  call_agrees (replace_features id fs) d b h rep =
      answered done _ _ (λ q k. k)
        (replace_features_agrees disk laws accessible json json_laws root d b id fs rep)
  call_agrees (update_pass id k p) d b h rep =
      answered done _ _ (λ q k. k)
        (update_pass_agrees disk laws accessible json json_laws root d b id k p rep)
  call_agrees (record_checkpoint id c) d b (start, completed) rep =
      answered done _ _ (λ q k. k)
        (record_checkpoint_agrees disk laws accessible json json_laws root d b id c rep start
          completed)
  call_agrees (load_transcript id) d b h rep =
      answered messages _ _ (λ q k. k)
        (load_transcript_agrees disk laws accessible json json_laws root d b id rep)
  call_agrees (append_transcript id ms) d b h rep =
      answered done _ _ (λ q k. k)
        (append_transcript_agrees disk laws accessible json json_laws root d b id ms rep)

  calls_agree :
      (cs : List Call) (d : D) (b : InMemoryMemoryBackend)
      → All Storable cs
      → Represents disk laws accessible json json_laws root d b
      → SameAnswers (filesystem_backend disk json root) in_memory_backend cs d b
  calls_agree [] d b h rep = tt
  calls_agree (c ∷ cs) d b (first, rest) rep = elim (call_agrees c d b first rep) [
    | inl (same, rep') ↦ inl (same, calls_agree cs _ _ rest rep')
    | inr failed ↦ inr failed
  ]

  empty-Represents :
      (d : D)
      → ((p : FilePath) → laws.contents d p ≡ none)
      → Represents disk laws accessible json json_laws root d Map.empty
  unfolding session Map.get Map.empty
  empty-Represents d empty id = rw (empty (session_path root id)) refl

  -- With a file system and a JSON library that keep their laws: from a disk with no files, on which
  -- every file that is there is accessible, every sequence of calls, whose manifests go under their
  -- own session's id and whose times are at the Unix epoch or after it, by a number of seconds that
  -- an `i64` holds, gets from the file backend the answers that the backend in memory gives, errors
  -- included, one by one until a call answers that the storage failed.
  pub filesystem_backend-SameAnswers :
      (cs : List Call) (d : D)
      → All Storable cs
      → ((p : FilePath) → laws.contents d p ≡ none)
      → SameAnswers (filesystem_backend disk json root) in_memory_backend cs d Map.empty
  filesystem_backend-SameAnswers cs d h empty =
      calls_agree cs d Map.empty h (empty-Represents d empty)
