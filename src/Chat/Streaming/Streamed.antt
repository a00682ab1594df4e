-- ===== src/Chat/Streaming/Streamed.antt =====
-- What a streamed turn yields and stores, and the rules for a step that stores nothing.
use fiddlesticks.Base.{
  inl, ℕ, ◌<◌, String, true, List, [], ◌∷◌, ◌++◌, ◌≡◌, sym, ap, subst, ◌∙◌, string_eq, length,
  arith, append_assoc,
}
use fiddlesticks.Exec.{Result, ok, err, no_return, Exec, ◌>>=◌}
use fiddlesticks.Exec.Rules.{bind_rule}
use fiddlesticks.Common.{SessionId}
use fiddlesticks.Provider.Model.{Message, Role, message}
use fiddlesticks.Chat.Error.{ChatError}
use fiddlesticks.Chat.Types.{ChatTurnResult, ChatEvent, turn_complete}
use fiddlesticks.Chat.Store.{StoreLaws}
use fiddlesticks.Chat.Service.{Platform, ChatService}
use fiddlesticks.Chat.Turn.Saved.{Spared, Spared-since, more-Spared, Added, replies_of}
use fiddlesticks.Chat.Streaming.Turn.{Emitting}
use fiddlesticks.Chat.Streaming.Quiet.{quiet, quiet-append, Quiet, Yields}

module _ {St W : Type 0} (platform : Platform W) (chat : ChatService St W)
    (reader : ChatEvent → W → W) (laws : StoreLaws chat.store) where
  open laws use {transcript}

  -- A stream that ends without an error has yielded a `TurnComplete` as its last event and no other,
  -- and has stored the messages that it started from and those of the assistant, the last of them
  -- the result's, at most one for each round. One that ends with an error, or does not end, has
  -- yielded no `TurnComplete` and stored nothing, but for what an append that fails may have left.
  abbrev pub Streamed :
      SessionId
      → List Message
      → ℕ
      → Emitting St W
      → Result ChatError (Unit {0})
      → Emitting St W
      → Type 0
  Streamed id persisted rounds g (ok u) g' =
      (es : List ChatEvent) × (r : ChatTurnResult) × (texts : List String) × (g'.events
        ≡ g.events ++ (es ++ turn_complete r ∷ []))
      × (quiet es ≡ true)
      × (length texts < rounds)
      × Added platform chat laws id (persisted ++ replies_of (texts ++ r.assistant_message ∷ []))
          g.world.store g'.world.store
  Streamed id persisted rounds g (err e) g' =
      (es : List ChatEvent) × (g'.events ≡ g.events ++ es)
      × (quiet es ≡ true)
      × Spared platform chat laws id persisted g.world.store g'.world.store
  Streamed id persisted rounds g no_return g' =
      (es : List ChatEvent) × (g'.events ≡ g.events ++ es)
      × (quiet es ≡ true)
      × Spared platform chat laws id persisted g.world.store g'.world.store

  -- An action that failed has stored nothing.
  pub stopped :
      (id : SessionId) (before : List Message) (g g' : Emitting St W)
      → Yields g g'
      → (es : List ChatEvent) × (g'.events ≡ g.events ++ es)
        × (quiet es ≡ true)
        × Spared platform chat laws id before g.world.store g'.world.store
  stopped id before g g' (es, told, q, kept) =
      (es, told, q, inl (λ j. ap (λ s. transcript s j) kept))

  -- Quiet events in front.
  pub later-Streamed :
      (id : SessionId) (before : List Message) (rounds : ℕ) (g g' : Emitting St W)
      (r : Result ChatError (Unit {0})) (g'' : Emitting St W)
      → Yields g g'
      → Streamed id before rounds g' r g''
      → Streamed id before rounds g r g''
  later-Streamed id before rounds g g' (ok u) g'' (xs, ex, qx, kept)
        (es, r, texts, told, q, bound, added) =
      (
        xs ++ es,
        r,
        texts,
        front g'.events xs es (turn_complete r ∷ []) ex told,
        quiet-append xs es qx q,
        bound,
        subst
            (λ s.
              Added platform chat laws id (before ++ replies_of (texts ++ r.assistant_message ∷ []))
                s g''.world.store)
            kept added,
      )
    where
      front :
          (mid xs es last : List ChatEvent)
          → mid ≡ g.events ++ xs
          → g''.events ≡ mid ++ (es ++ last)
          → g''.events ≡ g.events ++ ((xs ++ es) ++ last)
      front mid xs es last e h =
          h
          ∙ ap (λ l. l ++ (es ++ last)) e
          ∙ append_assoc g.events xs (es ++ last)
          ∙ ap (λ l. g.events ++ l) (sym (append_assoc xs es last))
  later-Streamed id before rounds g g' (err e) g'' (xs, ex, qx, kept) (es, told, q, same) = (
    xs ++ es,
    told ∙ ap (λ l. l ++ es) ex ∙ append_assoc g.events xs es,
    quiet-append xs es qx q,
    Spared-since platform chat laws id before g.world.store g'.world.store g''.world.store
        (λ j. ap (λ s. transcript s j) kept) same,
  )
  later-Streamed id before rounds g g' no_return g'' (xs, ex, qx, kept) (es, told, q, same) = (
    xs ++ es,
    told ∙ ap (λ l. l ++ es) ex ∙ append_assoc g.events xs es,
    quiet-append xs es qx q,
    Spared-since platform chat laws id before g.world.store g'.world.store g''.world.store
        (λ j. ap (λ s. transcript s j) kept) same,
  )

  -- One more text in front, and a round more at least.
  pub more-Streamed :
      (id : SessionId) (before : List Message) (text : String) (rounds more : ℕ) (g : Emitting St W)
      (r : Result ChatError (Unit {0})) (g' : Emitting St W)
      → rounds < more
      → Streamed id (before ++ message Role.assistant text ∷ []) rounds g r g'
      → Streamed id before more g r g'
  more-Streamed id before text rounds more g (ok u) g' lt (es, r, texts, told, q, bound, added) = (
    es,
    r,
    text ∷ texts,
    told,
    q,
    omega arith,
    λ j. rw (← append_assoc before (message Role.assistant text ∷ [])) (added j),
  )
  more-Streamed id before text rounds more g (err e) g' lt (es, told, q, same) =
      (es, told, q, more-Spared platform chat laws id before text g.world.store g'.world.store same)
  more-Streamed id before text rounds more g no_return g' lt (es, told, q, same) =
      (es, told, q, more-Spared platform chat laws id before text g.world.store g'.world.store same)

  -- The rule for a quiet first step.
  pub Quiet-rule :
      {A : Type 0} (id : SessionId) (before : List Message) (rounds : ℕ) (g : Emitting St W)
      (m : Exec (Emitting St W) ChatError A) (f : A → Exec (Emitting St W) ChatError (Unit {0}))
      → Quiet m
      → ((a : A) → Streamed id before rounds (m g).1 (f a (m g).1).0 (f a (m g).1).1)
      → Streamed id before rounds g ((m >>= f) g).0 ((m >>= f) g).1
  Quiet-rule id before rounds g m f k rest =
      bind_rule (Streamed id before rounds g) f m g
        (λ a _. later-Streamed id before rounds g (m g).1 _ _ (k.at g) (rest a))
        (λ e _. stopped id before g (m g).1 (k.at g)) (λ _. stopped id before g (m g).1 (k.at g))
