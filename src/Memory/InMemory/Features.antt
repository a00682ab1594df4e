-- ===== src/Memory/InMemory/Features.antt =====
-- `update_feature_pass` of the backend in memory (fmemory/src/backend.rs).
use fiddlesticks.Base.{
  String, Bool, true, false, ◌&&◌, Option, none, some, List, [], ◌∷◌, map, find, ◌≡◌, refl, ap, sym,
  ==_refl, if◌then◌else◌, ◌==◌, string_eq, arith, Bool-cases, inl, inr,
}
use fiddlesticks.Exec.{Result, ok, err}
use fiddlesticks.Common.{SessionId}
use fiddlesticks.Memory.Types.{FeatureRecord}
use fiddlesticks.Memory.Error.{MemoryError}
use fiddlesticks.Memory.InMemory.{
  InMemoryMemoryBackend, session, set_passes, update_found, update_feature_pass, feature_not_found,
  cons_some,
}
use fiddlesticks.Memory.InMemory.Sessions.{session-put_session, session-put_session_self}

-- The first feature with an id, which is the one that an update is about.
abbrev pub find_feature : String → List FeatureRecord → Option FeatureRecord
find_feature id = find (λ f. f.id == id)

abbrev pub ids : List FeatureRecord → List String
ids = map (λ f. f.id)

abbrev pub with_passes : Bool → Option FeatureRecord → Option FeatureRecord
with_passes p none = none
with_passes p (some f) = some (record f { passes = p })

-- An update finds nothing, or gives back the same ids with the flag of the first one set.
abbrev pub Updated : String → Bool → List FeatureRecord → Option (List FeatureRecord) → Type 0
Updated id p fs none = find_feature id fs ≡ none
Updated id p fs (some gs) =
    (ids gs ≡ ids fs)
    × ((k : String)
        → find_feature k gs
          ≡ (if id == k then with_passes p (find_feature k fs) else find_feature k fs))
    × ((f : FeatureRecord) × (find_feature id fs ≡ some f))

later-Updated :
    (id : String) (p : Bool) (f : FeatureRecord) (fs : List FeatureRecord)
    (o : Option (List FeatureRecord))
    → (f.id == id) ≡ false
    → Updated id p fs o
    → Updated id p (f ∷ fs) (cons_some f o)
later-Updated id p f fs none miss h = rw miss h
later-Updated id p f fs (some gs) miss (same, reads, found) = (
  ap (λ l. f.id ∷ l) same,
  (λ k. ground (
    arith,
    reads k,
    string_eq.beq_iff f.id k,
    string_eq.beq_iff id k,
    string_eq.beq_iff f.id id,
  )),
  rw miss found,
)

pub set_passes-Updated :
    (id : String) (p : Bool) (fs : List FeatureRecord) → Updated id p fs (set_passes id p fs)
unfolding set_passes
set_passes-Updated id p [] = refl
set_passes-Updated id p (f ∷ fs) = elim (Bool-cases (f.id == id)) [
  | inl e ↦ rw e (
    refl,
    (λ k.
        ground
          (arith, string_eq.beq_iff f.id id, string_eq.beq_iff f.id k, string_eq.beq_iff id k)),
    (f, rw e),
  )
  | inr e ↦ rw e (later-Updated id p f fs (set_passes id p fs) e (set_passes-Updated id p fs))
]

-- What an update of a feature gives, and every feature that is read afterwards.
abbrev pub Updates :
    SessionId
    → String
    → Bool
    → InMemoryMemoryBackend
    → Result MemoryError (Unit {0})
    → InMemoryMemoryBackend
    → Type 0
Updates id feature_id p b r b' =
    (r ≡ elim (find_feature feature_id (session b id).feature_list) [
      | none ↦ err (feature_not_found feature_id)
      | some f ↦ ok tt
    ])
    × ((j : SessionId) (k : String)
        → find_feature k (session b' j).feature_list ≡ (
            if id == j && feature_id == k
            then with_passes p (find_feature k (session b j).feature_list)
            else find_feature k (session b j).feature_list))
    × ((j : SessionId) → ids (session b' j).feature_list ≡ ids (session b j).feature_list)
    × ((j : SessionId)
        → session b' j ≡ record (session b j) { feature_list = (session b' j).feature_list })

none_either : (t p : Bool) → none ≡ (if t then with_passes p none else none)
none_either true p = refl
none_either false p = refl

-- A feature that is not there is read as before, with a flag set on nothing.
missing_read :
    (id j : SessionId) (feature_id k : String) (p : Bool) (b : InMemoryMemoryBackend)
    → find_feature feature_id (session b id).feature_list ≡ none
    → find_feature k (session b j).feature_list ≡ (
        if id == j && feature_id == k
        then with_passes p (find_feature k (session b j).feature_list)
        else find_feature k (session b j).feature_list)
missing_read id j feature_id k p b h = elim (Bool-cases (id == j)) [
  | inl e ↦ elim (Bool-cases (feature_id == k)) [
    | inl e' ↦
        rw (sym ((string_eq.beq_iff id j).0 e), sym ((string_eq.beq_iff feature_id k).0 e'), h)
          (none_either (id == id && feature_id == feature_id) p)
    | inr e' ↦ rw (e, e') refl
  ]
  | inr e ↦ rw e refl
]

-- In a session whose features are replaced, the reads follow the new features.
updated_read :
    (id j : SessionId) (feature_id k : String) (p : Bool) (b : InMemoryMemoryBackend)
    (gs : List FeatureRecord)
    → find_feature k gs ≡ (
        if feature_id == k
        then with_passes p (find_feature k (session b id).feature_list)
        else find_feature k (session b id).feature_list)
    → find_feature k
        (if id == j then record (session b id) { feature_list = gs } else session b j).feature_list
      ≡ (if id == j && feature_id == k
          then with_passes p (find_feature k (session b j).feature_list)
          else find_feature k (session b j).feature_list)
updated_read id j feature_id k p b gs h = elim (Bool-cases (id == j)) [
  | inl e ↦ rw (sym ((string_eq.beq_iff id j).0 e), ==_refl id) h
  | inr e ↦ rw e refl
]

updated_ids :
    (id j : SessionId) (b : InMemoryMemoryBackend) (gs : List FeatureRecord)
    → ids gs ≡ ids (session b id).feature_list
    → ids
        (if id == j then record (session b id) { feature_list = gs } else session b j).feature_list
      ≡ ids (session b j).feature_list
updated_ids id j b gs h = elim (Bool-cases (id == j)) [
  | inl e ↦ rw (sym ((string_eq.beq_iff id j).0 e), ==_refl id) h
  | inr e ↦ rw e refl
]

updated_rest :
    (id j : SessionId) (b : InMemoryMemoryBackend) (gs : List FeatureRecord)
    → (let s = (if id == j then record (session b id) { feature_list = gs } else session b j) in
        s ≡ record (session b j) { feature_list = s.feature_list })
updated_rest id j b gs = elim (Bool-cases (id == j)) [
  | inl e ↦ rw (sym ((string_eq.beq_iff id j).0 e), ==_refl id) refl
  | inr e ↦ rw e refl
]

update_found-Updates :
    (id : SessionId) (feature_id : String) (p : Bool) (b : InMemoryMemoryBackend)
    (o : Option (List FeatureRecord))
    → Updated feature_id p (session b id).feature_list o
    → Updates id feature_id p b
        (update_found o id feature_id b).0
        (update_found o id feature_id b).1
unfolding update_found
update_found-Updates id feature_id p b none h = (
  rw h refl,
  (λ j k. rw session-put_session_self (missing_read id j feature_id k p b h)),
  (λ j. rw session-put_session_self refl),
  (λ j. rw session-put_session_self refl),
)
update_found-Updates id feature_id p b (some gs) (same, reads, (f, found)) = (
  rw found refl,
  (λ j k. rw session-put_session (updated_read id j feature_id k p b gs (reads k))),
  (λ j. rw session-put_session (updated_ids id j b gs same)),
  (λ j. rw session-put_session (updated_rest id j b gs)),
)

-- An update of a feature fails exactly if the session has no feature with that id, and then changes
-- nothing. Otherwise a read of that feature gives it with the new flag, and a read of any other, by
-- its id, what it gave before; the ids stay in their order, and nothing else of any session changes.
pub update_feature_pass-Updates :
    (id : SessionId) (feature_id : String) (p : Bool) (b : InMemoryMemoryBackend)
    → Updates id feature_id p b
        (update_feature_pass id feature_id p b).0
        (update_feature_pass id feature_id p b).1
unfolding update_feature_pass
update_feature_pass-Updates id feature_id p b =
    update_found-Updates id feature_id p b _
      (set_passes-Updated feature_id p (session b id).feature_list)
