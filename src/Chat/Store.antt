-- ===== src/Chat/Store.antt =====
-- fchat/src/store.rs: the trait `ConversationStore`, what it promises, and the store in memory.
use fiddlesticks.Base.{
  List, [], ◌++◌, Option, none, some, ◌≡◌, refl, if◌then◌else◌, ◌==◌, string_eq, arith, get-insert,
  ap,
}
use fiddlesticks.Base.Map
use fiddlesticks.Base.Map.{HashMap}
use fiddlesticks.Exec.{Result, ok, err, no_return, Exec, applied}
use fiddlesticks.Common.{SessionId}
use fiddlesticks.Provider.Model.{Message}
use fiddlesticks.Chat.Error.{ChatError}

pub record ConversationStore (St : Type 0) : Type 0 where
  pub load_messages : SessionId → Exec St ChatError (List Message)
  pub append_messages : SessionId → List Message → Exec St ChatError (Unit {0})

-- The transcript that a load returns, if it returns one.
abbrev pub Loaded : List Message → Result ChatError (List Message) → Type 0
Loaded ms (ok xs) = xs ≡ ms
Loaded ms (err e) = Unit
Loaded ms no_return = Unit

-- The contract of a store: each session has a transcript; a load returns it and changes nothing; an
-- append that succeeds adds its messages at the end of the session's transcript and touches no other
-- session; one that fails changes nothing.
pub record StoreLaws {St : Type 0} (store : ConversationStore St) : Type 0 where
  pub transcript : St → SessionId → List Message
  pub load_returns :
      (s : St) (id : SessionId) → Loaded (transcript s id) (store.load_messages id s).0
  pub load_keeps :
      (s : St) (id j : SessionId) → transcript (store.load_messages id s).1 j ≡ transcript s j
  pub append_adds :
      (s : St) (id j : SessionId) (ms : List Message)
      → let (r, s') = store.append_messages id ms s in
        transcript s' j ≡ applied r (λ xs. if id == j then xs ++ ms else xs) (transcript s j)

-- A poisoned lock is not modelled: no method panics while it holds the lock.
abbrev pub InMemoryConversationStore : Type 0
InMemoryConversationStore = HashMap SessionId (List Message)

-- `unwrap_or_default`
abbrev pub or_empty : Option (List Message) → List Message
or_empty none = []
or_empty (some ms) = ms

unfoldable pub load_messages : SessionId → Exec InMemoryConversationStore ChatError (List Message)
load_messages id s = (ok (or_empty (Map.get s id)), s)

-- `entry(id).or_default().extend(messages)`
unfoldable pub append_messages :
    SessionId → List Message → Exec InMemoryConversationStore ChatError (Unit {0})
append_messages id ms s = (ok tt, Map.insert s id (or_empty (Map.get s id) ++ ms))

abbrev pub in_memory_store : ConversationStore InMemoryConversationStore
in_memory_store = record { load_messages = load_messages; append_messages = append_messages }

pub append_adds_lem :
    (s : InMemoryConversationStore) (id j : SessionId) (ms : List Message)
    → or_empty (Map.get (append_messages id ms s).1 j)
      ≡ (if id == j then or_empty (Map.get s j) ++ ms else or_empty (Map.get s j))
unfolding append_messages
append_adds_lem s id j ms =
    ground (arith, get-insert s id j (or_empty (Map.get s id) ++ ms), string_eq.beq_iff id j)

-- After an append in memory, a load of the session returns what it returned before and then the new
-- messages, and a load of any other session returns what it returned before.
pub load-append :
    (s : InMemoryConversationStore) (id j : SessionId) (ms : List Message)
    → (load_messages j (append_messages id ms s).1).0
      ≡ ok (if id == j then or_empty (Map.get s j) ++ ms else or_empty (Map.get s j))
unfolding load_messages
load-append s id j ms = ap ok (append_adds_lem s id j ms)

abbrev pub in_memory-StoreLaws : StoreLaws in_memory_store
unfolding load_messages append_messages
in_memory-StoreLaws = record {
  transcript = λ s j. or_empty (Map.get s j);
  load_returns = λ s id. refl;
  load_keeps = λ s id j. refl;
  append_adds = append_adds_lem;
}
