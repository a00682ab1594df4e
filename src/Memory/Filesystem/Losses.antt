-- ===== src/Memory/Filesystem/Losses.antt =====
-- A save of fmemory/src/backends/filesystem.rs that is cut short between its last two steps.
use fiddlesticks.Base.{String, true, none, some, ◌≡◌, ◌≢◌, refl, ap, ◌∙◌}
use fiddlesticks.Base.Map.{is_some}
use fiddlesticks.Exec.{Result, ok, err, Exec, ◌>>=◌, catch_into, map_err, lift, pure}
use fiddlesticks.Common.{SessionId}
use fiddlesticks.Memory.Error.{MemoryError}
use fiddlesticks.Memory.Persisted.{PersistedState}
use fiddlesticks.Memory.Filesystem.{
  Json, storage_error, with_extension, session_path, when_exists, write_atomic, load_state,
  save_state,
}
use fiddlesticks.Memory.Filesystem.Files.{
  exists_gives, Accessible, FilePath, file_path_eq, Disk, DiskLaws,
}
use fiddlesticks.Memory.Filesystem.Saves.{tmp_ne_session_path, ne_of_neq}

module _ {D : Type 0} where
  -- A step that succeeds hands the disk on to the next.
  step :
      {E A B : Type 0} (g : E → MemoryError) (m : Exec D E A) (f : A → Exec D MemoryError B) (d : D)
      {a : A}
      → (m d).0 ≡ ok a
      → (catch_into g m >>= f) d ≡ f a (m d).1
  unfolding ◌>>=◌ catch_into
  step g m f d h = rw h refl

  lifted :
      {A B : Type 0} (r : Result MemoryError A) (f : A → Exec D MemoryError B) (d : D) {a : A}
      → r ≡ ok a
      → (lift r >>= f) d ≡ f a d
  unfolding ◌>>=◌ lift
  lifted r f d h = rw h refl

-- A disk on which everything works but renaming.
pub record Stuck {D Bytes : Type 0} (disk : Disk D Bytes) (why : String) : Type 0 where
  pub creates : (s : String) (d : D) → (disk.create_dir_all s d).0 ≡ ok tt
  pub writes : (p : FilePath) (b : Bytes) (d : D) → (disk.write p b d).0 ≡ ok tt
  pub removes : (p : FilePath) (d : D) → (disk.remove_file p d).0 ≡ ok tt
  pub renames_not : (p q : FilePath) (d : D) → (disk.rename p q d).0 ≡ err why

module _ {D Bytes : Type 0} (disk : Disk D Bytes) (laws : DiskLaws disk)
    (accessible : Accessible disk laws) (why : String) (stuck : Stuck disk why) where
  open laws use {contents}

  -- The disk before the renaming.
  abbrev prepared : FilePath → Bytes → D → D
  prepared path bytes d =
      let made = (disk.create_dir_all path.directory d).1 in
      let written = (disk.write (with_extension "json.tmp" path) bytes made).1 in
      (disk.remove_file path written).1

  existing :
      {A : Type 0} (path : FilePath) (m n : Exec D MemoryError (Unit {0}))
      (f : Unit {0} → Exec D MemoryError A) (d : D)
      → disk.exists path d ≡ true
      → (when_exists disk path m n >>= f) d ≡ (m >>= f) d
  unfolding ◌>>=◌ when_exists
  existing path m n f d h = rw h refl

  write_atomic_stuck :
      (path : FilePath) (bytes old : Bytes) (d : D)
      → with_extension "json.tmp" path ≢ path
      → contents d path ≡ some old
      → write_atomic disk path bytes d
        ≡ catch_into
            (storage_error "failed to finalize state file")
            (disk.rename (with_extension "json.tmp" path) path)
            (prepared path bytes d)
  unfolding write_atomic when_exists
  write_atomic_stuck path bytes old d other there =
      let tmp = with_extension "json.tmp" path in
      let made = (disk.create_dir_all path.directory d).1 in
      let written = (disk.write tmp bytes made).1 in
      let kept =
        exists_gives disk laws accessible path written
        ∙ ap is_some (
            laws.write_elsewhere tmp path bytes made (ne_of_neq tmp path other)
            ∙ laws.create_keeps path.directory path d
            ∙ there) in
      lifted _ _ d refl
      ∙ step _ _ _ d (stuck.creates path.directory d)
      ∙ step _ _ _ made (stuck.writes tmp bytes made)
      ∙ existing path _ _ _ written kept
      ∙ step _ _ _ written (stuck.removes path written)

  renamed :
      (tmp path : FilePath) (d : D)
      → (catch_into (storage_error "failed to finalize state file") (disk.rename tmp path) d).0
        ≡ err (storage_error "failed to finalize state file" why)
  unfolding catch_into
  renamed tmp path d = rw (stuck.renames_not tmp path d) refl

  renamed_state :
      (tmp path : FilePath) (d : D)
      → contents
          (catch_into (storage_error "failed to finalize state file") (disk.rename tmp path) d).1
          path
        ≡ contents (disk.rename tmp path d).1 path
  unfolding catch_into
  renamed_state tmp path d = refl

  -- The file is gone, and the save says that it failed.
  write_atomic_loses :
      (path : FilePath) (bytes old : Bytes) (d : D)
      → with_extension "json.tmp" path ≢ path
      → contents d path ≡ some old
      → let (r, d') = write_atomic disk path bytes d in
        (r ≡ err (storage_error "failed to finalize state file" why)) × (contents d' path ≡ none)
  write_atomic_loses path bytes old d other there =
      let tmp = with_extension "json.tmp" path in
      let d3 = prepared path bytes d in
      rw (write_atomic_stuck path bytes old d other there) (
        renamed tmp path d3,
        renamed_state tmp path d3
            ∙ laws.rename_fails tmp path d3 why (stuck.renames_not tmp path d3)
            ∙ laws.remove_takes path _ (stuck.removes path _),
      )

  module _ (json : Json Bytes) (root : String) where
    absent :
        (id : SessionId) (d : D)
        → contents d (session_path root id) ≡ none
        → (load_state disk json root id d).0 ≡ ok none
    unfolding load_state when_exists pure
    absent id d gone = rw (exists_gives disk laws accessible (session_path root id) d, gone) refl

    -- If every file that is there is accessible, and everything works but the last step, the renaming
    -- of the temporary file, then a save of a session that has a file fails, and after it the session is read as one that was never stored.
    pub save_state-loses :
        (id : SessionId) (s : PersistedState) (bytes old : Bytes) (d : D)
        → json.to_vec_pretty s ≡ ok bytes
        → contents d (session_path root id) ≡ some old
        → let (r, d') = save_state disk json root id s d in
          (r ≡ err (storage_error "failed to finalize state file" why))
          × ((load_state disk json root id d').0 ≡ ok none)
    unfolding save_state
    save_state-loses id s bytes old d written there =
        let path = session_path root id in
        let (failed, gone) =
          write_atomic_loses path bytes old d (tmp_ne_session_path root id id) there in
        rw
          (lifted {D = D} _ (write_atomic disk path) d
            (ap (map_err (storage_error "failed to serialize session state")) written))
          (failed, absent id _ gone)
