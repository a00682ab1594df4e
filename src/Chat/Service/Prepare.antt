-- ===== src/Chat/Service/Prepare.antt =====
-- What `prepare_turn` of fchat/src/service.rs hands to a turn.
use fiddlesticks.Base.{
  ℕ, String, Option, none, some, [], ◌∷◌, ◌++◌, subst, sym, ◌∙◌, false, List, ◌≡◌, refl, ap,
  Bool-cases, inl, inr, is_blank, arith,
}
use fiddlesticks.Exec.{Result, ok, err, no_return, pure, raise, catch_into, on_part}
use fiddlesticks.Exec.Rules.{bind_rule, ok_of_map_err}
use fiddlesticks.Common.{SessionId}
use fiddlesticks.Provider.Model.{Message, message, Role}
use fiddlesticks.Chat.Error.{ChatError, ChatErrorPhase, with_phase}
use fiddlesticks.Chat.Types.{ChatTurnRequest}
use fiddlesticks.Chat.Store.{StoreLaws, Loaded}
use fiddlesticks.Chat.Service.{
  Platform, World, ChatService, TurnContext, turn_context, prepare_turn, option_or, system_messages,
}

module _ {St W : Type 0} (platform : Platform W) (chat : ChatService St W)
    (laws : StoreLaws chat.store) where
  open laws use {transcript}

  -- The transcripts of the store are what they were.
  abbrev pub Unchanged : St → St → Type 0
  Unchanged s s' = (j : SessionId) → transcript s' j ≡ transcript s j

  -- A turn is prepared from the stored transcript, and nothing is stored yet.
  abbrev pub Contextual : ChatTurnRequest → St → Result ChatError TurnContext → World St W → Type 0
  Contextual request s (ok context) w =
      Unchanged s w.store
      × (is_blank request.user_input ≡ false)
      × (context ≡ turn_context chat.policy request (transcript s request.session.id))
  Contextual request s (err e) w = Unchanged s w.store
  Contextual request s no_return w = Unchanged s w.store

  pub prepare_turn-Contextual :
      (request : ChatTurnRequest) (w : World St W)
      → let r = prepare_turn platform chat request w in Contextual request w.store r.0 r.1
  unfolding prepare_turn raise pure catch_into on_part
  prepare_turn-Contextual request w =
      let load = chat.store.load_messages request.session.id w.store in
      elim (Bool-cases (is_blank request.user_input)) [
        | inl e ↦ rw e (λ j. refl)
        | inr e ↦ rw e (
            bind_rule (Contextual request w.store) _ _ w
              (λ prior h. (
                laws.load_keeps w.store request.session.id,
                e,
                ap (turn_context chat.policy request) (
                    Loaded-ok load.0 (ok_of_map_err (with_phase ChatErrorPhase.storage) load.0 h)
                      (laws.load_returns w.store request.session.id)),
              ))
              (λ x h. laws.load_keeps w.store request.session.id)
              (λ h. laws.load_keeps w.store request.session.id))
      ]
    where
      Loaded-ok :
          (r : Result ChatError (List Message)) {prior ms : List Message}
          → r ≡ ok prior
          → Loaded ms r
          → prior ≡ ms
      Loaded-ok (ok xs) h l = ground arith
      Loaded-ok (err e) h l = cc
      Loaded-ok no_return h l = cc

  -- The value of an option of the request, or else of the policy.
  pub record Chosen (asked default chosen : Option ℕ) : Type 0 where
    pub as_asked : (x : ℕ) → asked ≡ some x → chosen ≡ some x
    pub as_default : asked ≡ none → chosen ≡ default

  -- The messages that a turn starts with.
  pub record Opens (prompt : Option String) (prior : List Message) (input : String)
      (messages : List Message) : Type 0 where
    pub prompted :
        (p : String)
        → prompt ≡ some p
        → messages ≡ message Role.system p ∷ prior ++ message Role.user input ∷ []
    pub unprompted : prompt ≡ none → messages ≡ prior ++ message Role.user input ∷ []

  option_or-Chosen : (asked default : Option ℕ) → Chosen asked default (option_or asked default)
  option_or-Chosen none d = record { as_asked = λ x e. cc; as_default = λ e. refl }
  option_or-Chosen (some y) d = record { as_asked = λ x e. e; as_default = λ e. cc }

  system_messages-Opens :
      (prompt : Option String) (prior : List Message) (input : String)
      → Opens prompt prior input (system_messages prompt ++ (prior ++ message Role.user input ∷ []))
  system_messages-Opens none prior input = record { prompted = λ p e. cc; unprompted = λ e. refl }
  system_messages-Opens (some q) prior input = record {
    prompted = λ p e.
        ap (λ (o : Option String). system_messages o ++ (prior ++ message Role.user input ∷ [])) e;
    unprompted = λ e. cc;
  }

  -- The context of a turn on the request, after the messages that are stored.
  pub record ContextOf (request : ChatTurnRequest) (prior : List Message) (c : TurnContext)
      : Type 0 where
    pub session : c.session ≡ request.session
    pub user_message : c.user_message ≡ message Role.user request.user_input
    pub messages :
        Opens request.session.system_prompt prior request.user_input c.conversation_messages
    pub temperature :
        Chosen request.options.temperature chat.policy.default_temperature c.temperature
    pub max_tokens : Chosen request.options.max_tokens chat.policy.default_max_tokens c.max_tokens

  pub record Prepared (request : ChatTurnRequest) (s : St) (r : Result ChatError TurnContext)
      (w : World St W) : Type 0 where
    pub unchanged : Unchanged s w.store
    pub context :
        (c : TurnContext)
        → r ≡ ok c
        → (is_blank request.user_input ≡ false)
          × ContextOf request (transcript s request.session.id) c

  -- On a store whose loads change no transcript, a turn is prepared only for an input that is not
  -- blank: with the system prompt of the session, then its stored transcript, then the user's
  -- message, and with the request's options or else the policy's. Whatever comes of it, the
  -- transcripts are as before.
  pub prepare_turn-Prepared :
      (request : ChatTurnRequest) (w : World St W)
      → let r = prepare_turn platform chat request w in Prepared request w.store r.0 r.1
  prepare_turn-Prepared request w =
      let r = prepare_turn platform chat request w in
      prepared r.0 (prepare_turn-Contextual request w)
    where
      built :
          (c : TurnContext)
          → c ≡ turn_context chat.policy request (transcript w.store request.session.id)
          → ContextOf request (transcript w.store request.session.id) c
      built c e =
          subst (ContextOf request (transcript w.store request.session.id)) (sym e) (record {
            session = refl;
            user_message = refl;
            messages = system_messages-Opens request.session.system_prompt _ request.user_input;
            temperature =
                option_or-Chosen request.options.temperature chat.policy.default_temperature;
            max_tokens = option_or-Chosen request.options.max_tokens chat.policy.default_max_tokens;
          })

      same_ok :
          {c c' : TurnContext} → ◌≡◌ {A = Result ChatError TurnContext} (ok c) (ok c') → c' ≡ c
      same_ok h = cc

      prepared :
          {w' : World St W} (r : Result ChatError TurnContext)
          → Contextual request w.store r w'
          → Prepared request w.store r w'
      prepared (ok c) (same, asked, e) = record {
        unchanged = same;
        context = λ c' h. (asked, built c' (same_ok h ∙ e));
      }
      prepared (err x) same = record { unchanged = same; context = λ c' h. cc }
      prepared no_return same = record { unchanged = same; context = λ c' h. cc }
