-- ===== src/Memory/Filesystem/Held.antt =====
-- What a load and a save of fmemory/src/backends/filesystem.rs do, seen from the backend in memory.
use fiddlesticks.Base.{
  String, Option, none, some, ◌≡◌, ◌≢◌, inl, inr, refl, ap, sym, ◌∙◌, ◌==◌, string_eq, arith,
  false≢true, Bool-cases, Option-cases, subst,
}
use fiddlesticks.Exec.{Result, ok, err, no_return, lift, pure, map_err}
use fiddlesticks.Common.{SessionId}
use fiddlesticks.Memory.Error.{MemoryError, MemoryErrorKind}
use fiddlesticks.Memory.InMemory.{
  InMemoryMemoryBackend, SessionState, default_session, session, put_session,
}
use fiddlesticks.Memory.InMemory.Sessions.{session-put_session}
use fiddlesticks.Memory.Persisted.{PersistedState}
use fiddlesticks.Memory.Filesystem.{
  Json, storage_error, session_path, when_exists, read_state, load_state, load_or_default,
  or_default, save_state,
}
use fiddlesticks.Memory.Filesystem.Files.{exists_gives, Accessible, FilePath, Disk, DiskLaws, Reads}
use fiddlesticks.Memory.Filesystem.Saves.{
  Ends, bind-Ends, catch-Ends, caught, Ends-weaken, Replaced, session_path_injective,
  tmp_ne_session_path, write_atomic-Ends,
}
use fiddlesticks.Memory.Filesystem.Stands.{Stands, default-Stands}

-- What is documented of `serde_json`: what it writes of a state it reads back.
pub record JsonLaws {Bytes : Type 0} (json : Json Bytes) : Type 0 where
  pub writes_return : (s : PersistedState) → json.to_vec_pretty s ≢ no_return
  pub reads_back :
      (s : PersistedState) (bytes : Bytes)
      → json.to_vec_pretty s ≡ ok bytes
      → json.from_slice bytes ≡ ok s

abbrev pub StorageFails : {A : Type 0} → Result MemoryError A → Type 0
StorageFails (err e) = e.kind ≡ MemoryErrorKind.storage
StorageFails (ok a) = ⊥
StorageFails no_return = ⊥

Reads-returns :
    {Bytes : Type 0} (o : Option Bytes) (r : Result String Bytes) → Reads o r → r ≢ no_return
Reads-returns none (ok x) h e = h
Reads-returns none (err x) h e = cc
Reads-returns none no_return h e = h
Reads-returns (some b) (ok x) h e = cc
Reads-returns (some b) (err x) h e = cc
Reads-returns (some b) no_return h e = h

Reads-value :
    {Bytes : Type 0} (b x : Bytes) (r : Result String Bytes) → Reads (some b) r → r ≡ ok x → x ≡ b
Reads-value b x (ok y) h e = ground arith
Reads-value b x (err y) h e = cc
Reads-value b x no_return h e = cc

pub lift-Ends :
    {D A : Type 0} (G : A → D → Type 0) (r : Result MemoryError A) (a : A) (d : D)
    → r ≡ ok a
    → G a d
    → Ends G (lift r d)
unfolding lift
lift-Ends G r a d e h = rw e h

module _ {D Bytes : Type 0} (disk : Disk D Bytes) (laws : DiskLaws disk)
    (accessible : Accessible disk laws) (json : Json Bytes) (json_laws : JsonLaws json)
    (root : String) where
  open laws use {contents}

  -- What a file, or its absence, says of a session.
  abbrev pub Holds : SessionId → Option Bytes → SessionState → Type 0
  Holds id none s = s ≡ default_session
  Holds id (some bytes) s = (p : PersistedState) × (json.from_slice bytes ≡ ok p) × Stands id p s

  -- The disk has in its files what the backend in memory has in its map.
  abbrev pub Represents : D → InMemoryMemoryBackend → Type 0
  Represents d b = (id : SessionId) → Holds id (contents d (session_path root id)) (session b id)

  abbrev pub Same : D → D → Type 0
  Same d d' = (q : FilePath) → contents d' q ≡ contents d q

  abbrev pub LoadedAs : SessionId → SessionState → Option PersistedState → Type 0
  LoadedAs id s none = s ≡ default_session
  LoadedAs id s (some p) = Stands id p s

  abbrev pub Loaded : D → SessionId → SessionState → Option PersistedState → D → Type 0
  Loaded d id s o d' = LoadedAs id s o × Same d d'

  read-Ends :
      (d : D) (id : SessionId) (s : SessionState) (bytes : Bytes)
      → contents d (session_path root id) ≡ some bytes
      → Holds id (some bytes) s
      → Ends (Loaded d id s) (read_state disk json root (session_path root id) d)
  unfolding read_state pure
  read-Ends d id s bytes there (p, parsed, stands) =
      let path = session_path root id in
      let reads = subst (λ o. Reads o (disk.read path d).0) there (laws.read_gives path d) in
      bind-Ends (Ends (Loaded d id s)) _ (λ x d'. (x ≡ bytes) × Same d d') _ d (λ e d' k. k)
        (catch-Ends (λ x d'. (x ≡ bytes) × Same d d') _ (disk.read path) d
          (Reads-returns (some bytes) _ reads)
          (λ x read. (Reads-value bytes x _ reads read, λ q. laws.read_keeps path q d)))
        λ x d1 (same_bytes, same).
          bind-Ends (Ends (Loaded d id s)) _ (λ q d'. (q ≡ p) × Same d d') _ d1 (λ e d' k. k)
            (lift-Ends (λ q d'. (q ≡ p) × Same d d') _ p d1 (rw (same_bytes, parsed) refl)
              (refl, same))
            λ q d2 (same_state, same2). (rw same_state stands, same2)

  pub load-Ends :
      (d : D) (b : InMemoryMemoryBackend) (id : SessionId)
      → Represents d b
      → Ends (Loaded d id (session b id)) (load_state disk json root id d)
  unfolding load_state when_exists pure
  load-Ends d b id rep =
      let path = session_path root id in
      rw (exists_gives disk laws accessible path d) (elim (Option-cases (contents d path)) [
        | inl gone ↦ rw gone ((subst (λ o. Holds id o (session b id)) gone (rep id), λ q. refl))
        | inr (bytes, there) ↦ rw there (
            read-Ends d id (session b id) bytes there
              (subst (λ o. Holds id o (session b id)) there (rep id)))
      ])

  -- A state that stands for the session, whether the file is there or not.
  abbrev pub StandsFor : D → SessionId → SessionState → PersistedState → D → Type 0
  StandsFor d id s p d' = Stands id p s × Same d d'

  state_of :
      (d d' : D) (id : SessionId) (s : SessionState) (o : Option PersistedState)
      → Loaded d id s o d'
      → StandsFor d id s (or_default disk json root o) d'
  state_of d d' id s none (empty, same) = (rw empty (default-Stands id), same)
  state_of d d' id s (some p) h = h

  pub load_or_default-Ends :
      (d : D) (b : InMemoryMemoryBackend) (id : SessionId)
      → Represents d b
      → Ends (StandsFor d id (session b id)) (load_or_default disk json root id d)
  unfolding load_or_default pure
  load_or_default-Ends d b id rep =
      bind-Ends (Ends (StandsFor d id (session b id))) _ (Loaded d id (session b id)) _ d
        (λ e d' k. k) (load-Ends d b id rep) (λ o d' h. state_of d d' id (session b id) o h)

  pub Holds-subst :
      (j : SessionId) (o o' : Option Bytes) (s s' : SessionState)
      → o' ≡ o
      → s' ≡ s
      → Holds j o s
      → Holds j o' s'
  Holds-subst j o o' s s' e f h = rw (e, f) h

  put-Represents :
      (d d1 d2 : D) (b : InMemoryMemoryBackend) (id : SessionId) (p : PersistedState)
      (s : SessionState) (bytes : Bytes)
      → Represents d b
      → Same d d1
      → Holds id (some bytes) s
      → Replaced disk laws (session_path root id) bytes d1 tt d2
      → Represents d2 (put_session b id s)
  put-Represents d d1 d2 b id p s bytes rep same holds (put, others) j =
      elim (Bool-cases (id == j)) [
        | inl e ↦
            let is_j = (string_eq.beq_iff id j).0 e in
            Holds-subst j (some bytes) _ s _
              (ap (λ i. contents d2 (session_path root i)) (sym is_j) ∙ put)
              (session-put_session b id j s ∙ rw e refl)
              (subst (λ i. Holds i (some bytes) s) is_j holds)
        | inr e ↦
            let other : session_path root id ≢ session_path root j = λ h.
              false≢true
                (sym e ∙ (string_eq.beq_iff id j).1 (session_path_injective root id j h)) in
            Holds-subst j _ _ (session b j) _
              (others (session_path root j) (tmp_ne_session_path root id j) other
                ∙ same (session_path root j))
              (session-put_session b id j s ∙ rw e refl) (rep j)
      ]

  serialized :
      (G : Bytes → D → Type 0) (p : PersistedState) (d : D)
      → ((bytes : Bytes) → json.to_vec_pretty p ≡ ok bytes → G bytes d)
      → Ends G (
          lift
            (map_err (storage_error "failed to serialize session state") (json.to_vec_pretty p))
            d)
  unfolding lift
  serialized G p d h = caught G _ (json.to_vec_pretty p) d (json_laws.writes_return p) h

  pub save-Ends :
      (d d1 : D) (b : InMemoryMemoryBackend) (id : SessionId) (p : PersistedState)
      (s : SessionState)
      → Represents d b
      → Same d d1
      → Stands id p s
      → Ends (λ u d'. Represents d' (put_session b id s)) (save_state disk json root id p d1)
  unfolding save_state
  save-Ends d d1 b id p s rep same stands =
      let G : Bytes → D → Type 0 = λ bytes d'. (json.to_vec_pretty p ≡ ok bytes) × Same d d' in
      let H : Unit {0} → D → Type 0 = λ u d'. Represents d' (put_session b id s) in
      bind-Ends (Ends H) _ G _ d1 (λ e d' k. k)
        (serialized G p d1 (λ bytes written. (written, same)))
        λ bytes d2 (written, same2).
          Ends-weaken (Replaced disk laws (session_path root id) bytes d2) H _
            (λ u d3 replaced.
              put-Represents d d2 d3 b id p s bytes rep same2
                (p, json_laws.reads_back p bytes written, stands) replaced)
            (write_atomic-Ends disk laws (session_path root id) bytes d2
              (tmp_ne_session_path root id id))
