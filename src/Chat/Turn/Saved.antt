-- ===== src/Chat/Turn/Saved.antt =====
-- What a turn leaves in the conversation store.
use fiddlesticks.Base.{
  ℕ, suc, ◌-◌, ◌<◌, String, ◌≢◌, ◌⊎◌, List, [], ◌∷◌, ◌++◌, map, ◌≡◌, subst, ◌∙◌, if◌then◌else◌,
  ◌==◌, string_eq, inl, inr, length, append_assoc,
}
use fiddlesticks.Exec.{Result, ok, err, no_return, Exec, map_err}
use fiddlesticks.Common.{SessionId}
use fiddlesticks.Provider.Model.{Message, Role, message}
use fiddlesticks.Chat.Error.{ChatError, ChatErrorPhase, with_phase}
use fiddlesticks.Chat.Types.{ChatTurnResult}
use fiddlesticks.Chat.Store.{StoreLaws}
use fiddlesticks.Chat.Service.{Platform, World, ChatService}
use fiddlesticks.Chat.Service.Prepare.{Unchanged}

-- The assistant's messages of a turn: one for each text.
abbrev pub replies_of : List String → List Message
replies_of = map (message Role.assistant)

module _ {St W : Type 0} (platform : Platform W) (chat : ChatService St W)
    (laws : StoreLaws chat.store) where
  open laws use {transcript}

  -- The store after the call has `ms` at the end of the session's transcript, and nothing else new.
  abbrev pub Added : SessionId → List Message → St → St → Type 0
  Added id ms s s' =
      (j : SessionId) → transcript s' j ≡ (if id == j then transcript s j ++ ms else transcript s j)

  -- The append of these messages and some of the assistant's to the session failed, and the store is
  -- as it left it.
  abbrev FailedAppend : SessionId → List Message → St → St → Type 0
  FailedAppend id persisted s s' =
      (texts : List String) × (s1 : St) × Unchanged platform chat laws s s1
      × ((chat.store.append_messages id (persisted ++ replies_of texts) s1).0 ≢ ok tt)
      × (s' ≡ (chat.store.append_messages id (persisted ++ replies_of texts) s1).1)

  -- Nothing is stored, but for what an append that fails itself may have left.
  abbrev pub Spared : SessionId → List Message → St → St → Type 0
  Spared id persisted s s' = Unchanged platform chat laws s s' ⊎ FailedAppend id persisted s s'

  pub Spared-since :
      (id : SessionId) (persisted : List Message) (s s' s'' : St)
      → Unchanged platform chat laws s s'
      → Spared id persisted s' s''
      → Spared id persisted s s''
  Spared-since id persisted s s' s'' u (inl same) = inl (λ j. same j ∙ u j)
  Spared-since id persisted s s' s'' u (inr (texts, s1, same, failed, left)) =
      inr (texts, s1, λ j. same j ∙ u j, failed, left)

  -- One more text in front.
  pub more-Spared :
      (id : SessionId) (before : List Message) (text : String) (s s' : St)
      → Spared id (before ++ message Role.assistant text ∷ []) s s'
      → Spared id before s s'
  more-Spared id before text s s' (inl same) = inl same
  more-Spared id before text s s' (inr (texts, s1, same, failed, left)) =
      let append = λ (ms : List Message). chat.store.append_messages id ms s1 in
      let (failed', left') =
        subst (λ ms. ((append ms).0 ≢ ok tt) × (s' ≡ (append ms).1))
          (append_assoc before (message Role.assistant text ∷ []) (replies_of texts))
          (failed, left) in
      inr (text ∷ texts, s1, same, failed', left')

  -- A turn that succeeds has stored the messages it started from and those of the assistant, the
  -- last of them the result's, at most one for each round; any other has stored nothing, but for what
  -- an append that fails may have left.
  abbrev pub Saved :
      SessionId → List Message → ℕ → St → Result ChatError ChatTurnResult → World St W → Type 0
  Saved id persisted rounds s (ok r) w =
      (texts : List String) × (length texts < rounds)
      × Added id (persisted ++ replies_of (texts ++ r.assistant_message ∷ [])) s w.store
  Saved id persisted rounds s (err e) w = Spared id persisted s w.store
  Saved id persisted rounds s no_return w = Spared id persisted s w.store

  pub not_appended :
      (r : Result ChatError (Unit {0}))
      → ((e : ChatError) → map_err (with_phase ChatErrorPhase.storage) r ≡ err e → r ≢ ok tt)
        × (map_err (with_phase ChatErrorPhase.storage) r ≡ no_return → r ≢ ok tt)
  not_appended (ok u) = (λ e h g. cc, λ h g. cc)
  not_appended (err x) = (λ e h g. cc, λ h g. cc)
  not_appended no_return = (λ e h g. cc, λ h g. cc)

  -- The rounds that the guard of the loop leaves after `n`.
  abbrev left_after : ℕ → ℕ
  left_after n = suc (chat.policy.max_tool_round_trips - n)
