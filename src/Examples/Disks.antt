-- ===== src/Examples/Disks.antt =====
-- A disk that is a map from paths to files, and the memory backend on it.
use fiddlesticks.Base.{
  ◌+◌, String, true, false, Option, none, some, List, [], ◌∷◌, ◌≡◌, ◌≢◌, refl, sym, ◌∙◌, ◌==◌,
  get-insert, get-remove, get-empty, Option-cases, inl, inr, ==_refl, arith,
}
use fiddlesticks.Base.Map
use fiddlesticks.Base.Map.{HashMap, is_some, contains_key_lem}
use fiddlesticks.Exec.{Result, ok, err, no_return}
use fiddlesticks.Memory.Types.{new_progress}
use fiddlesticks.Memory.InMemory.{in_memory_backend}
use fiddlesticks.Memory.Calls.{Call, initialize, load_bootstrap, append_progress, update_pass}
use fiddlesticks.Memory.Persisted.{PersistedState, default_persisted}
use fiddlesticks.Memory.Filesystem.{
  Json, filesystem_backend, session_path, save_state, load_state, storage_error,
}
use fiddlesticks.Memory.Filesystem.Losses.{Stuck, save_state-loses}
use fiddlesticks.Memory.Persisted.Fields.{unix_epoch}
use fiddlesticks.Memory.Filesystem.Files.{Accessible, FilePath, file_path_eq, Disk, DiskLaws, Reads}
use fiddlesticks.Memory.Filesystem.Held.{JsonLaws}
use fiddlesticks.Memory.Filesystem.Refines.{SameAnswers, filesystem_backend-SameAnswers}
use fiddlesticks.Examples.Memories.{manifest, feature}

abbrev Drive : Type 0
Drive = HashMap FilePath PersistedState

abbrev read_file : Option PersistedState → Result String PersistedState
read_file none = err "no such file"
read_file (some b) = ok b

abbrev move : FilePath → FilePath → Option PersistedState → Drive → Result String (Unit {0}) × Drive
move p q none d = (err "no such file", d)
move p q (some b) d = (ok tt, Map.insert (Map.remove d p) q b)

abbrev drive : Disk Drive PersistedState
drive = record {
  create_dir_all = λ s d. (ok tt, d);
  exists = λ p d. is_some (Map.get d p);
  read = λ p d. (read_file (Map.get d p), d);
  write = λ p b d. (ok tt, Map.insert d p b);
  remove_file = λ p d. (ok tt, Map.remove d p);
  rename = λ p q d. move p q (Map.get d p) d;
}

rename_laws :
    (p q : FilePath) (d : Drive)
    → ((drive.rename p q d).0 ≡ ok tt → Map.get (drive.rename p q d).1 q ≡ Map.get d p)
      × ((e : String)
          → (drive.rename p q d).0 ≡ err e
          → Map.get (drive.rename p q d).1 q ≡ Map.get d q)
      × ((drive.rename p q d).0 ≡ no_return → ⊥)
      × ((r : FilePath)
          → (p == r) ≡ false
          → (q == r) ≡ false
          → Map.get (drive.rename p q d).1 r ≡ Map.get d r)
rename_laws p q d = elim (Option-cases (Map.get d p)) [
  | inl gone ↦ rw gone (λ h. cc, λ e h. refl, λ h. cc, λ r k l. refl)
  | inr (b, there) ↦ rw there (
    λ h. get-insert (Map.remove d p) q q b ∙ rw (==_refl q) refl,
    λ e h. cc,
    λ h. cc,
    λ r k l. get-insert (Map.remove d p) q r b ∙ rw l (get-remove d p r ∙ rw k refl),
  )
]

reads : (o : Option PersistedState) → Reads o (read_file o)
reads none = tt
reads (some b) = refl

ok-ne-no_return : ◌≢◌ {A = Result String (Unit {0})} (ok tt) no_return
ok-ne-no_return h = cc

ok-ne-err : (e : String) → ◌≢◌ {A = Result String (Unit {0})} (ok tt) (err e)
ok-ne-err e h = cc

abbrev drive-DiskLaws : DiskLaws drive
drive-DiskLaws = record {
  contents = λ d p. Map.get d p;
  exists_only = λ p d h. h;
  read_gives = λ p d. reads (Map.get d p);
  read_keeps = λ p q d. refl;
  create_returns = λ s d h. ok-ne-no_return h;
  create_keeps = λ s q d. refl;
  write_returns = λ p b d h. ok-ne-no_return h;
  write_puts = λ p b d h. get-insert d p p b ∙ rw (==_refl p) refl;
  write_elsewhere = λ p q b d k. get-insert d p q b ∙ rw k refl;
  remove_returns = λ p d h. ok-ne-no_return h;
  remove_takes = λ p d h. get-remove d p p ∙ rw (==_refl p) refl;
  remove_fails = λ p d e h. absurd (ok-ne-err e h);
  remove_elsewhere = λ p q d k. get-remove d p q ∙ rw k refl;
  rename_returns = λ p q d. (rename_laws p q d).2;
  rename_moves = λ p q d. (rename_laws p q d).0;
  rename_fails = λ p q d. (rename_laws p q d).1;
  rename_elsewhere = λ p q r d. (rename_laws p q d).3 r;
}

abbrev drive-Accessible : Accessible drive drive-DiskLaws
drive-Accessible = record { found = λ p d h. h }

abbrev json : Json PersistedState
json = record { to_vec_pretty = λ s. ok s; from_slice = λ s. ok s }

json-JsonLaws : JsonLaws json
json-JsonLaws = record { writes_return = λ s h. cc; reads_back = λ s b h. sym h }

abbrev calls : List Call
calls =
    initialize "session-1" manifest (feature "a" ∷ []) none none
    ∷ append_progress "session-1" (new_progress (unix_epoch + 5) "run-1" "started")
    ∷ update_pass "session-1" "z" true
    ∷ load_bootstrap "session-1"
    ∷ []

filesystem_backend-SameAnswers_example :
    SameAnswers (filesystem_backend drive json "/data") in_memory_backend calls Map.empty Map.empty
filesystem_backend-SameAnswers_example =
    filesystem_backend-SameAnswers drive drive-DiskLaws drive-Accessible json json-JsonLaws "/data"
      calls Map.empty ((refl, tt, tt), ((omega arith, omega arith), (tt, (tt, tt))))
      (λ p. get-empty p)

-- The same disk, on which nothing can be renamed.
abbrev stuck_drive : Disk Drive PersistedState
stuck_drive = record drive { rename = λ p q d. (err "busy", d) }

err-ne-no_return : ◌≢◌ {A = Result String (Unit {0})} (err "busy") no_return
err-ne-no_return h = cc

busy_moves :
    (a b : Option PersistedState) → ◌≡◌ {A = Result String (Unit {0})} (err "busy") (ok tt) → a ≡ b
busy_moves a b h = cc

abbrev stuck_drive-DiskLaws : DiskLaws stuck_drive
stuck_drive-DiskLaws = record {
  contents = λ d p. Map.get d p;
  exists_only = drive-DiskLaws.exists_only;
  read_gives = drive-DiskLaws.read_gives;
  read_keeps = drive-DiskLaws.read_keeps;
  create_returns = drive-DiskLaws.create_returns;
  create_keeps = drive-DiskLaws.create_keeps;
  write_returns = drive-DiskLaws.write_returns;
  write_puts = drive-DiskLaws.write_puts;
  write_elsewhere = drive-DiskLaws.write_elsewhere;
  remove_returns = drive-DiskLaws.remove_returns;
  remove_takes = drive-DiskLaws.remove_takes;
  remove_fails = drive-DiskLaws.remove_fails;
  remove_elsewhere = drive-DiskLaws.remove_elsewhere;
  rename_returns = λ p q d h. err-ne-no_return h;
  rename_moves = λ p q d h. busy_moves _ _ h;
  rename_fails = λ p q d e h. refl;
  rename_elsewhere = λ p q r d k l. refl;
}

abbrev stuck_drive-Accessible : Accessible stuck_drive stuck_drive-DiskLaws
stuck_drive-Accessible = record { found = λ p d h. h }

stuck_drive-Stuck : Stuck stuck_drive "busy"
stuck_drive-Stuck = record {
  creates = λ s d. refl;
  writes = λ p b d. refl;
  removes = λ p d. refl;
  renames_not = λ p q d. refl;
}

-- A disk with an empty state for one session.
abbrev stored : Drive
stored = Map.insert Map.empty (session_path "/data" "session-1") default_persisted

stored-there : Map.get stored (session_path "/data" "session-1") ≡ some default_persisted
stored-there =
    get-insert Map.empty _ _ default_persisted
    ∙ rw (==_refl (session_path "/data" "session-1")) refl

save_state-loses_example :
    let (r, d') = save_state stuck_drive json "/data" "session-1" default_persisted stored in
    (r ≡ err (storage_error "failed to finalize state file" "busy"))
    × ((load_state stuck_drive json "/data" "session-1" d').0 ≡ ok none)
save_state-loses_example =
    save_state-loses stuck_drive stuck_drive-DiskLaws stuck_drive-Accessible "busy"
      stuck_drive-Stuck json "/data" "session-1" default_persisted default_persisted
      default_persisted stored refl stored-there
