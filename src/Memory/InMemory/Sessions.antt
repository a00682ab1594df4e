-- ===== src/Memory/InMemory/Sessions.antt =====
-- What each operation of the backend in memory does to what is stored, session by session.
use fiddlesticks.Base.{
  Option, some, List, ◌≡◌, refl, if◌then◌else◌, ◌==◌, string_eq, arith, get-insert, Option-cases,
  inl, inr, not, ◌&&◌, Bool-cases,
}
use fiddlesticks.Base.Map
use fiddlesticks.Exec.{ok}
use fiddlesticks.Common.{SessionId}
use fiddlesticks.Memory.Types.{SessionManifest, FeatureRecord, ProgressEntry, RunCheckpoint}
use fiddlesticks.Memory.InMemory.{
  InMemoryMemoryBackend, SessionState, session, put_session, is_initialized,
  initialize_session_if_missing, load_bootstrap_state, load_transcript_messages, has_manifest,
  push_some,
}

pub session-put_session :
    (b : InMemoryMemoryBackend) (id j : SessionId) (s : SessionState)
    → session (put_session b id s) j ≡ (if id == j then s else session b j)
unfolding session put_session
session-put_session b id j s = ground (arith, get-insert b id j s)

-- Writing back what is stored changes nothing that can be read.
pub session-put_session_self :
    (b : InMemoryMemoryBackend) (id j : SessionId)
    → session (put_session b id (session b id)) j ≡ session b j
session-put_session_self b id j =
    ground (arith, session-put_session b id j (session b id), string_eq.beq_iff id j)

-- A load returns what is stored, an empty state for an unknown session.
pub load_bootstrap_state_lem :
    (b : InMemoryMemoryBackend) (id : SessionId)
    → load_bootstrap_state id b ≡ (
      ok (record {
        manifest = (session b id).manifest;
        feature_list = (session b id).feature_list;
        recent_progress = (session b id).progress;
        checkpoints = (session b id).checkpoints;
      }),
      b,
    )
unfolding load_bootstrap_state session
load_bootstrap_state_lem b id = elim (Option-cases (Map.get b id)) [
  | inl e ↦ rw e
  | inr (s, e) ↦ rw e
]

pub is_initialized_lem :
    (b : InMemoryMemoryBackend) (id : SessionId)
    → is_initialized id b ≡ (ok (has_manifest (session b id).manifest), b)
unfolding is_initialized session
is_initialized_lem b id = elim (Option-cases (Map.get b id)) [ inl e ↦ rw e | inr (s, e) ↦ rw e ]

pub load_transcript_messages_lem :
    (b : InMemoryMemoryBackend) (id : SessionId)
    → load_transcript_messages id b ≡ (ok (session b id).transcript, b)
unfolding load_transcript_messages session
load_transcript_messages_lem b id = elim (Option-cases (Map.get b id)) [
  | inl e ↦ rw e
  | inr (s, e) ↦ rw e
]

-- A session that is stored is left alone, and `false` is returned; one that is not stored gets the
-- manifest, the features and the two entries that are given, behind those that are there already,
-- and `true` is returned. Nothing changes in any other session.
pub initialize_session_lem :
    (b : InMemoryMemoryBackend) (id j : SessionId) (m : SessionManifest) (fs : List FeatureRecord)
    (p : Option ProgressEntry) (c : Option RunCheckpoint)
    → let r = initialize_session_if_missing id m fs p c b in
      let s = session b id in
      (r.0 ≡ ok (not (has_manifest s.manifest)))
      × (session r.1 j ≡ (
          if id == j && not (has_manifest s.manifest)
          then record s {
            manifest = some m;
            feature_list = fs;
            progress = push_some s.progress p;
            checkpoints = push_some s.checkpoints c;
          }
          else session b j))
unfolding initialize_session_if_missing
initialize_session_lem b id j m fs p c = elim (Bool-cases (has_manifest (session b id).manifest)) [
  | inl e ↦ rw e (refl, ground (arith, session-put_session_self b id j))
  | inr e ↦ rw e (refl, simp session-put_session (ground arith))
]
