-- ===== src/Memory/Laws.antt =====
-- What a backend of fmemory/src/backend.rs promises to the harness and to the chat service, and that
-- the one in memory keeps it.
use fiddlesticks.Base.{
  String, none, Bool, true, false, not, Option, some, List, [], ◌∷◌, ◌++◌, ◌≡◌, ◌⊎◌, refl, ap, sym,
  ◌∙◌, if◌then◌else◌, ◌==◌, string_eq, ==_refl, Bool-cases, inl, inr, arith,
}
use fiddlesticks.Exec.{Result, ok, err, no_return, applied, map_err, catch_into}
use fiddlesticks.Common.{SessionId}
use fiddlesticks.Provider.Model.{Message}
use fiddlesticks.Chat.Error.{ChatError}
use fiddlesticks.Chat.Store.{StoreLaws, Loaded}
use fiddlesticks.Memory.Error.{MemoryError}
use fiddlesticks.Memory.Types.{
  SessionManifest, FeatureRecord, ProgressEntry, RunCheckpoint, BootstrapState,
}
use fiddlesticks.Memory.Backend.{MemoryBackend}
use fiddlesticks.Memory.InMemory.{
  InMemoryMemoryBackend, SessionState, session, put_session, in_memory_backend,
  append_progress_entry, record_run_checkpoint, append_transcript_messages, has_manifest, push_some,
  initialize_session_if_missing, set_passes, update_feature_pass,
}
use fiddlesticks.Memory.InMemory.Sessions.{
  session-put_session, session-put_session_self, load_bootstrap_state_lem,
  load_transcript_messages_lem, is_initialized_lem, initialize_session_lem,
}
use fiddlesticks.Memory.Adapter.{memory_conversation_store, memory_error_to_chat_error}

-- A call that succeeds gives this value.
abbrev pub Gives {ℓ} : {E A : Type ℓ} → A → Result E A → Type ℓ
Gives a (ok x) = x ≡ a
Gives a (err e) = Unit
Gives a no_return = Unit

abbrev pub bootstrap_of_session : SessionState → BootstrapState
bootstrap_of_session s = record {
  manifest = s.manifest;
  feature_list = s.feature_list;
  recent_progress = s.progress;
  checkpoints = s.checkpoints;
}

abbrev pub add_progress : ProgressEntry → SessionState → SessionState
add_progress e s = record s { progress = s.progress ++ e ∷ [] }

abbrev pub add_checkpoint : RunCheckpoint → SessionState → SessionState
add_checkpoint c s = record s { checkpoints = s.checkpoints ++ c ∷ [] }

abbrev pub add_messages : List Message → SessionState → SessionState
add_messages ms s = record s { transcript = s.transcript ++ ms }

-- The initial entries, where there is no manifest yet.
abbrev pub fill_in :
    SessionManifest
    → List FeatureRecord
    → Option ProgressEntry
    → Option RunCheckpoint
    → SessionState
    → SessionState
fill_in m fs p c s = if has_manifest s.manifest then s else record s {
  manifest = some m;
  feature_list = fs;
  progress = push_some s.progress p;
  checkpoints = push_some s.checkpoints c;
}

-- The first feature with an id gets the flag.
abbrev pub pass_first : String → Bool → List FeatureRecord → List FeatureRecord
pass_first k p [] = []
pass_first k p (f ∷ fs) = if f.id == k then record f { passes = p } ∷ fs else f ∷ pass_first k p fs

abbrev pub set_pass : String → Bool → SessionState → SessionState
set_pass k p s = record s { feature_list = pass_first k p s.feature_list }

-- One session is changed.
abbrev pub at_session :
    SessionId → SessionId → (SessionState → SessionState) → SessionState → SessionState
at_session id j f s = if id == j then f s else s

-- Each session has a state, empty at first. A load that succeeds gives it and changes nothing; an
-- append that succeeds adds its entries at the end, in one session, and one that fails changes
-- nothing.
pub record MemoryLaws {B : Type 0} (memory : MemoryBackend B) : Type 0 where
  pub read : B → SessionId → SessionState
  pub load_gives :
      (b : B) (id : SessionId)
      → Gives (bootstrap_of_session (read b id)) (memory.load_bootstrap_state id b).0
  pub load_keeps :
      (b : B) (id j : SessionId) → read (memory.load_bootstrap_state id b).1 j ≡ read b j
  pub progress_adds :
      (b : B) (id j : SessionId) (e : ProgressEntry)
      → let (r, b') = memory.append_progress_entry id e b in
        read b' j ≡ applied r (at_session id j (add_progress e)) (read b j)
  pub checkpoint_adds :
      (b : B) (id j : SessionId) (c : RunCheckpoint)
      → let (r, b') = memory.record_run_checkpoint id c b in
        read b' j ≡ applied r (at_session id j (add_checkpoint c)) (read b j)
  pub pass_sets :
      (b : B) (id j : SessionId) (k : String) (p : Bool)
      → let (r, b') = memory.update_feature_pass id k p b in
        read b' j ≡ applied r (at_session id j (set_pass k p)) (read b j)
  pub initialized_gives :
      (b : B) (id : SessionId)
      → Gives (has_manifest (read b id).manifest) (memory.is_initialized id b).0
  pub initialized_keeps :
      (b : B) (id j : SessionId) → read (memory.is_initialized id b).1 j ≡ read b j
  pub initialize_gives :
      (b : B) (id : SessionId) (m : SessionManifest) (fs : List FeatureRecord)
      (p : Option ProgressEntry) (c : Option RunCheckpoint)
      → Gives
          (not (has_manifest (read b id).manifest))
          (memory.initialize_session_if_missing id m fs p c b).0
  pub initialize_fills :
      (b : B) (id j : SessionId) (m : SessionManifest) (fs : List FeatureRecord)
      (p : Option ProgressEntry) (c : Option RunCheckpoint)
      → let (r, b') = memory.initialize_session_if_missing id m fs p c b in
        read b' j ≡ applied r (at_session id j (fill_in m fs p c)) (read b j)
  pub transcript_gives :
      (b : B) (id : SessionId)
      → Gives (read b id).transcript (memory.load_transcript_messages id b).0
  pub transcript_keeps :
      (b : B) (id j : SessionId) → read (memory.load_transcript_messages id b).1 j ≡ read b j
  pub messages_add :
      (b : B) (id j : SessionId) (ms : List Message)
      → let (r, b') = memory.append_transcript_messages id ms b in
        read b' j ≡ applied r (at_session id j (add_messages ms)) (read b j)

-- A change that is written to one session.
pub changed :
    (b : InMemoryMemoryBackend) (id j : SessionId) (f : SessionState → SessionState)
    → session (put_session b id (f (session b id))) j ≡ at_session id j f (session b j)
changed b id j f = session-put_session b id j (f (session b id)) ∙ elim (Bool-cases (id == j)) [
  | inl e ↦ rw (sym ((string_eq.beq_iff id j).0 e)) refl
  | inr e ↦ rw e refl
]

pub filled :
    (b : InMemoryMemoryBackend) (id j : SessionId) (m : SessionManifest) (fs : List FeatureRecord)
    (p : Option ProgressEntry) (c : Option RunCheckpoint)
    → let (r, b') = initialize_session_if_missing id m fs p c b in
      session b' j ≡ applied r (at_session id j (fill_in m fs p c)) (session b j)
filled b id j m fs p c =
    let (given, after) = initialize_session_lem b id j m fs p c in
    rw (given, after)
      (elim (Bool-cases (id == j)) [
        | inl e ↦ rw (sym ((string_eq.beq_iff id j).0 e), ==_refl id) (ground arith)
        | inr e ↦ rw e refl
      ])

-- An update that finds the feature sets its flag.
set_passes-pass_first :
    (k : String) (p : Bool) (fs : List FeatureRecord)
    → (set_passes k p fs ≡ none) ⊎ (set_passes k p fs ≡ some (pass_first k p fs))
unfolding set_passes
set_passes-pass_first k p [] = inl refl
set_passes-pass_first k p (f ∷ fs) = elim (Bool-cases (f.id == k)) [
  | inl e ↦ inr (rw e refl)
  | inr e ↦ elim (set_passes-pass_first k p fs) [
    | inl none_there ↦ inl (rw (e, none_there) refl)
    | inr there ↦ inr (rw (e, there) refl)
  ]
]

pub updated :
    (b : InMemoryMemoryBackend) (id j : SessionId) (k : String) (p : Bool)
    → let (r, b') = update_feature_pass id k p b in
      session b' j ≡ applied r (at_session id j (set_pass k p)) (session b j)
unfolding update_feature_pass
updated b id j k p = elim (set_passes-pass_first k p (session b id).feature_list) [
  | inl none_there ↦ rw none_there (session-put_session_self b id j)
  | inr there ↦ rw there (changed b id j (set_pass k p))
]

unfoldable pub in_memory-MemoryLaws : MemoryLaws in_memory_backend
unfolding append_progress_entry record_run_checkpoint append_transcript_messages
in_memory-MemoryLaws = record {
  read = session;
  load_gives = λ b id. rw load_bootstrap_state_lem refl;
  load_keeps = λ b id j. ap (λ r. session r.1 j) (load_bootstrap_state_lem b id);
  progress_adds = λ b id j e. changed b id j (add_progress e);
  checkpoint_adds = λ b id j c. changed b id j (add_checkpoint c);
  pass_sets = λ b id j k p. updated b id j k p;
  initialized_gives = λ b id. rw is_initialized_lem refl;
  initialized_keeps = λ b id j. ap (λ r. session r.1 j) (is_initialized_lem b id);
  initialize_gives = λ b id m fs p c. rw (initialize_session_lem b id id m fs p c).0 refl;
  initialize_fills = λ b id j m fs p c. filled b id j m fs p c;
  transcript_gives = λ b id. rw load_transcript_messages_lem refl;
  transcript_keeps = λ b id j. ap (λ r. session r.1 j) (load_transcript_messages_lem b id);
  messages_add = λ b id j ms. changed b id j (add_messages ms);
}

module _ {B : Type 0} (memory : MemoryBackend B) (laws : MemoryLaws memory) where
  open laws use {read}

  load_mapped :
      (f : MemoryError → ChatError) (ms : List Message) (r : Result MemoryError (List Message))
      → Gives ms r
      → Loaded ms (map_err f r)
  load_mapped f ms (ok x) h = h
  load_mapped f ms (err e) h = tt
  load_mapped f ms no_return h = tt

  append_mapped :
      (f : MemoryError → ChatError) (r : Result MemoryError (Unit {0})) (t : Bool)
      (ms : List Message) (s s' : SessionState)
      → s' ≡ applied r (λ (x : SessionState). if t then add_messages ms x else x) s
      → s'.transcript ≡ applied (map_err f r) (λ xs. if t then xs ++ ms else xs) s.transcript
  append_mapped f (ok u) true ms s s' h = ap (λ x. x.transcript) h
  append_mapped f (ok u) false ms s s' h = ap (λ x. x.transcript) h
  append_mapped f (err e) t ms s s' h = ap (λ x. x.transcript) h
  append_mapped f no_return t ms s s' h = ap (λ x. x.transcript) h

  -- The adapter makes of a backend that keeps its promises a conversation store that keeps those of
  -- a store.
  pub memory_conversation_store-StoreLaws : StoreLaws (memory_conversation_store memory)
  unfolding catch_into
  memory_conversation_store-StoreLaws = record {
    transcript = λ b j. (read b j).transcript;
    load_returns = λ b id.
        load_mapped memory_error_to_chat_error (read b id).transcript _
          (laws.transcript_gives b id);
    load_keeps = λ b id j. ap (λ s. s.transcript) (laws.transcript_keeps b id j);
    append_adds = λ b id j ms.
        append_mapped memory_error_to_chat_error (memory.append_transcript_messages id ms b).0
          (id == j) ms (read b j) _ (laws.messages_add b id j ms);
  }
