-- ===== src/Memory/Filesystem/Branches.antt =====
-- The calls of fmemory/src/backends/filesystem.rs that only read, or that save on one branch, beside
-- the same calls of the backend in memory.
use fiddlesticks.Base.{
  String, Bool, true, Option, none, some, List, map, ◌≡◌, refl, ap, sym, ◌∙◌, inl, inr, Bool-cases,
  Option-cases,
}
use fiddlesticks.Exec.{Result, ok, Exec, ◌>>=◌, lift, pure, raise}
use fiddlesticks.Common.{SessionId}
use fiddlesticks.Memory.Error.{MemoryError}
use fiddlesticks.Memory.Types.{FeatureRecord, SessionManifest, ProgressEntry, RunCheckpoint}
use fiddlesticks.Memory.InMemory as InMemory
use fiddlesticks.Memory.InMemory.{
  InMemoryMemoryBackend, SessionState, session, put_session, push_some, set_passes, has_manifest,
}
use fiddlesticks.Memory.InMemory.Sessions.{
  load_bootstrap_state_lem, is_initialized_lem, load_transcript_messages_lem,
  session-put_session_self,
}
use fiddlesticks.Memory.Laws.{bootstrap_of_session}
use fiddlesticks.Memory.Persisted.{PersistedState}
use fiddlesticks.Memory.Persisted.Conversions.{
  from_entry, into_entry, from_checkpoint, into_checkpoint, from_feature_record,
}
use fiddlesticks.Memory.Persisted.RoundTrip.{manifest-Kept}
use fiddlesticks.Memory.Filesystem as Filesystem
use fiddlesticks.Memory.Filesystem.{
  Json, load_state, load_or_default, save_state, save_pass, fill_state, bootstrap_or_default,
  messages_or_empty, persisted_pass,
}
use fiddlesticks.Memory.Filesystem.Files.{Accessible, Disk, DiskLaws}
use fiddlesticks.Memory.Filesystem.Saves.{Ends, bind-Ends}
use fiddlesticks.Memory.Filesystem.Stands.{
  Stands, manifest_there, reads_bootstrap, pass_reads, push_reads, KeptIf, features-Stands,
  manifest-Stands, passed-Stands,
}
use fiddlesticks.Memory.Filesystem.Held.{
  JsonLaws, lift-Ends, Represents, Same, Loaded, LoadedAs, StandsFor, Holds-subst, load-Ends,
  load_or_default-Ends, save-Ends,
}
use fiddlesticks.Memory.Filesystem.Agrees.{Agreed, Agreed-Ends, kept_then, After}

module _ {D Bytes : Type 0} (disk : Disk D Bytes) (laws : DiskLaws disk)
    (accessible : Accessible disk laws) (json : Json Bytes) (json_laws : JsonLaws json)
    (root : String) where
  Same-Represents :
      (d d' : D) (b : InMemoryMemoryBackend)
      → Represents disk laws accessible json json_laws root d b
      → Same disk laws accessible json json_laws root d d'
      → Represents disk laws accessible json json_laws root d' b
  Same-Represents d d' b rep same j =
      Holds-subst disk laws accessible json json_laws root j _ _ (session b j) _ (same _) refl
        (rep j)

  -- A call that reads the session.
  read_agrees :
      {A : Type 0} (d : D) (b : InMemoryMemoryBackend) (id : SessionId) (a : A)
      (f : Option PersistedState → Result MemoryError A)
      → Represents disk laws accessible json json_laws root d b
      → ((o : Option PersistedState)
          → LoadedAs disk laws accessible json json_laws root id (session b id) o
          → f o ≡ ok a)
      → Agreed disk laws accessible json json_laws root
          (ok a, b)
          ((load_state disk json root id >>= λ o. lift (f o)) d)
  read_agrees {A} d b id a f rep h =
      let G : A → D → Type 0 =
        λ x d'. (x ≡ a) × Represents disk laws accessible json json_laws root d' b in
      Agreed-Ends disk laws accessible json json_laws root G a b _ (λ x d' g. g)
        (bind-Ends (Ends G) _ (Loaded disk laws accessible json json_laws root d id (session b id))
          _ d (λ e d' k. k) (load-Ends disk laws accessible json json_laws root d b id rep)
          (λ o d' (loaded, same).
            lift-Ends G (f o) a d' (h o loaded) (refl, Same-Represents d d' b rep same)))

  there :
      (id : SessionId) (s : SessionState) (o : Option PersistedState)
      → LoadedAs disk laws accessible json json_laws root id s o
      → ◌≡◌ {A = Result MemoryError Bool}
          (ok (Filesystem.has_manifest disk json root o))
          (ok (has_manifest s.manifest))
  there id s none empty = rw empty refl
  there id s (some p) stands = ap ok (manifest_there id p s stands)

  bootstrap_read :
      (id : SessionId) (s : SessionState) (o : Option PersistedState)
      → LoadedAs disk laws accessible json json_laws root id s o
      → bootstrap_or_default disk json root id o ≡ ok (bootstrap_of_session s)
  unfolding bootstrap_or_default
  bootstrap_read id s none empty = rw empty refl
  bootstrap_read id s (some p) stands = reads_bootstrap id p s stands

  messages_read :
      (id : SessionId) (s : SessionState) (o : Option PersistedState)
      → LoadedAs disk laws accessible json json_laws root id s o
      → messages_or_empty disk json root o ≡ ok s.transcript
  unfolding messages_or_empty
  messages_read id s none empty = rw empty refl
  messages_read id s (some p) stands = stands.transcript

  pub is_initialized_agrees :
      (d : D) (b : InMemoryMemoryBackend) (id : SessionId)
      → Represents disk laws accessible json json_laws root d b
      → Agreed disk laws accessible json json_laws root
          (InMemory.is_initialized id b)
          (Filesystem.is_initialized disk json root id d)
  unfolding Filesystem.is_initialized pure
  is_initialized_agrees d b id rep =
      rw (is_initialized_lem b id)
        (read_agrees d b id (has_manifest (session b id).manifest) _ rep (there id (session b id)))

  pub load_bootstrap_agrees :
      (d : D) (b : InMemoryMemoryBackend) (id : SessionId)
      → Represents disk laws accessible json json_laws root d b
      → Agreed disk laws accessible json json_laws root
          (InMemory.load_bootstrap_state id b)
          (Filesystem.load_bootstrap_state disk json root id d)
  unfolding Filesystem.load_bootstrap_state
  load_bootstrap_agrees d b id rep = rw (load_bootstrap_state_lem b id) (
      read_agrees d b id (bootstrap_of_session (session b id)) _ rep
        (bootstrap_read id (session b id)))

  pub load_transcript_agrees :
      (d : D) (b : InMemoryMemoryBackend) (id : SessionId)
      → Represents disk laws accessible json json_laws root d b
      → Agreed disk laws accessible json json_laws root
          (InMemory.load_transcript_messages id b)
          (Filesystem.load_transcript_messages disk json root id d)
  unfolding Filesystem.load_transcript_messages
  load_transcript_agrees d b id rep =
      rw (load_transcript_messages_lem b id)
        (read_agrees d b id (session b id).transcript _ rep (messages_read id (session b id)))

  -- A loaded state, and how the rest of the call agrees.
  loaded_agrees :
      {A : Type 0} (d : D) (b : InMemoryMemoryBackend) (id : SessionId)
      (r : Result MemoryError A × InMemoryMemoryBackend) (f : PersistedState → Exec D MemoryError A)
      → Represents disk laws accessible json json_laws root d b
      → ((p : PersistedState) (d' : D)
          → Stands id p (session b id)
          → Same disk laws accessible json json_laws root d d'
          → Agreed disk laws accessible json json_laws root r (f p d'))
      → Agreed disk laws accessible json json_laws root r
          ((load_or_default disk json root id >>= f) d)
  loaded_agrees d b id r f rep h =
      bind-Ends (Agreed disk laws accessible json json_laws root r) f
        (StandsFor disk laws accessible json json_laws root d id (session b id)) _ d
        (λ e d' k. inr k) (load_or_default-Ends disk laws accessible json json_laws root d b id rep)
        (λ p d' (stands, same). h p d' stands same)

  self-Represents :
      (d d' : D) (b : InMemoryMemoryBackend) (id : SessionId)
      → Represents disk laws accessible json json_laws root d b
      → Same disk laws accessible json json_laws root d d'
      → Represents disk laws accessible json json_laws root d' (put_session b id (session b id))
  self-Represents d d' b id rep same j =
      Holds-subst disk laws accessible json json_laws root j _ _ (session b j) _ (same _)
        (session-put_session_self b id j) (rep j)

  pub update_pass_agrees :
      (d : D) (b : InMemoryMemoryBackend) (id : SessionId) (k : String) (passes : Bool)
      → Represents disk laws accessible json json_laws root d b
      → Agreed disk laws accessible json json_laws root
          (InMemory.update_feature_pass id k passes b)
          (Filesystem.update_feature_pass disk json root id k passes d)
  unfolding InMemory.update_feature_pass Filesystem.update_feature_pass save_pass raise
  update_pass_agrees d b id k passes rep = loaded_agrees d b id _ _ rep λ p d' stands same.
      let found =
        ap (set_passes k passes) (sym stands.features) ∙ pass_reads k passes p.feature_list in
      elim (Option-cases (persisted_pass k passes p.feature_list)) [
        | inl gone ↦ rw (found, gone) (inl (refl, self-Represents d d' b id rep same))
        | inr (fs, there) ↦
            rw (found, there)
              (Agreed-Ends disk laws accessible json json_laws root
                (After disk laws accessible json json_laws root _) tt _ _
                (λ u d2 after. (refl, after))
                (save-Ends disk laws accessible json json_laws root d d' b id _ _ rep same
                  (passed-Stands id p (session b id) stands fs)))
      ]

  abbrev filled :
      SessionManifest
      → List FeatureRecord
      → Option ProgressEntry
      → Option RunCheckpoint
      → SessionState
      → SessionState
  filled m fs e c s = record s {
    manifest = some m;
    feature_list = fs;
    progress = push_some s.progress e;
    checkpoints = push_some s.checkpoints c;
  }

  abbrev Filled : InMemoryMemoryBackend → Bool → D → Type 0
  Filled b x d = (x ≡ true) × Represents disk laws accessible json json_laws root d b

  -- A session that was not there yet.
  fill-Ends :
      (d d' : D) (b : InMemoryMemoryBackend) (id : SessionId) (m : SessionManifest)
      (fs : List FeatureRecord) (e : Option ProgressEntry) (c : Option RunCheckpoint)
      (p : PersistedState)
      → Represents disk laws accessible json json_laws root d b
      → Same disk laws accessible json json_laws root d d'
      → Stands id p (session b id)
      → m.session_id ≡ id
      → KeptIf from_entry into_entry e
      → KeptIf from_checkpoint into_checkpoint c
      → Ends
          (Filled (put_session b id (filled m fs e c (session b id))))
          (fill_state disk json root id m fs e c p d')
  unfolding fill_state pure
  fill-Ends d d' b id m fs e c p rep same stands own entry checkpoint =
      let s = session b id in
      let (kept, written, read) = manifest-Kept id m own in
      let (es, es_written, es_read) =
        push_reads from_entry into_entry e p.recent_progress s.progress entry stands.progress in
      let (cs, cs_written, cs_read) =
        push_reads from_checkpoint into_checkpoint c p.checkpoints s.checkpoints checkpoint
          stands.checkpoints in
      let stands' : Stands id
          (record p {
            manifest = some kept;
            feature_list = map from_feature_record fs;
            recent_progress = es;
            checkpoints = cs;
          })
          (filled m fs e c s) =
        record {
          manifest = (manifest-Stands id p s stands m kept read).manifest;
          features = (features-Stands id p s stands fs).features;
          progress = es_read;
          checkpoints = cs_read;
          transcript = stands.transcript;
        } in
      let b' = put_session b id (filled m fs e c s) in
      kept_then disk laws accessible json json_laws root (Filled b') _ kept _ d' written (
        kept_then disk laws accessible json json_laws root (Filled b') _ es _ d' es_written (
          kept_then disk laws accessible json json_laws root (Filled b') _ cs _ d' cs_written (
            bind-Ends (Ends (Filled b')) _ (After disk laws accessible json json_laws root b') _ d'
              (λ x d2 k. k)
              (save-Ends disk laws accessible json json_laws root d d' b id _ _ rep same stands')
              (λ u d2 after. lift-Ends (Filled b') (ok true) true d2 refl (refl, after)))))

  pub initialize_agrees :
      (d : D) (b : InMemoryMemoryBackend) (id : SessionId) (m : SessionManifest)
      (fs : List FeatureRecord) (e : Option ProgressEntry) (c : Option RunCheckpoint)
      → Represents disk laws accessible json json_laws root d b
      → m.session_id ≡ id
      → KeptIf from_entry into_entry e
      → KeptIf from_checkpoint into_checkpoint c
      → Agreed disk laws accessible json json_laws root
          (InMemory.initialize_session_if_missing id m fs e c b)
          (Filesystem.initialize_session_if_missing disk json root id m fs e c d)
  unfolding InMemory.initialize_session_if_missing Filesystem.initialize_session_if_missing pure
  initialize_agrees d b id m fs e c rep own entry checkpoint =
      loaded_agrees d b id _ _ rep λ p d' stands same.
        elim (Bool-cases (has_manifest (session b id).manifest)) [
          | inl old ↦
              rw (manifest_there id p (session b id) stands, old)
                (inl (refl, self-Represents d d' b id rep same))
          | inr new ↦
              rw (manifest_there id p (session b id) stands, new)
                (Agreed-Ends disk laws accessible json json_laws root (Filled _) true _ _
                  (λ x d2 h. h)
                  (fill-Ends d d' b id m fs e c p rep same stands own entry checkpoint))
        ]
