-- ===== src/Chat/Turn/Views.antt =====
-- What of the store a turn of fchat/src/service.rs cannot change.
use fiddlesticks.Base.{ℕ, zero, suc, ◌+◌, String, Bool, List, [], ◌∷◌, ap}
use fiddlesticks.Exec.{Exec, on_part}
use fiddlesticks.Exec.Keeps.{
  Keeps, Keeps-bind, Keeps-if, Keeps-lift, Keeps-raise, Keeps-pure, Keeps-catch_into,
}
use fiddlesticks.Common.{SessionId}
use fiddlesticks.Provider.Model.{Message, ToolCall, ModelResponse}
use fiddlesticks.Chat.Types.{ChatSession, ChatTurnRequest}
use fiddlesticks.Chat.Service.{Platform, World, in_store, ChatService, TurnContext, prepare_turn}
use fiddlesticks.Chat.Turn.{
  run_turn_within, turn_round, turn_loop, begin_turn, run_turn, finish_turn,
}
use fiddlesticks.Chat.Turn.Keeping.{store_of, ask_again-Keeps, complete-Keeps}

module _ {St W T : Type 0} (platform : Platform W) (chat : ChatService St W) (view : St → T)
    (loads_keep : (id : SessionId) → Keeps view (chat.store.load_messages id))
    (appends_keep : (id : SessionId) (ms : List Message)
      → Keeps view (chat.store.append_messages id ms)) where
  abbrev pub seen : World St W → T
  seen w = view w.store

  seen_store : {E A : Type 0} (m : Exec St E A) → Keeps view m → Keeps seen (in_store {W = W} m)
  unfolding on_part
  seen_store m k = record { at = λ w. k.at w.store }

  seen_env : {E A : Type 0} (m : Exec (World St W) E A) → Keeps store_of m → Keeps seen m
  seen_env m k = record { at = λ w. ap view (k.at w) }

  finish-Keeps :
      (session : ChatSession) (persisted : List Message) (text : String) (calls : List ToolCall)
      (response : ModelResponse) (limit : Bool)
      → Keeps seen (finish_turn platform chat session persisted text calls response limit)
  unfolding finish_turn
  finish-Keeps session persisted text calls response limit =
      Keeps-bind _ _ (Keeps-catch_into _ _ (seen_store _ (appends_keep session.id persisted)))
        (λ u. Keeps-pure _)

  loop-Keeps :
      (fuel : ℕ) (context : TurnContext) (conversation persisted : List Message) (n : ℕ)
      (response : ModelResponse)
      → Keeps seen (turn_loop platform chat fuel context conversation persisted n response)
  unfolding turn_loop turn_round
  loop-Keeps zero context conversation persisted n response = Keeps-lift _
  loop-Keeps (suc fuel) context conversation persisted n response =
      Keeps-if _ _ _
        (Keeps-bind _ _ (seen_env _ (ask_again-Keeps platform chat context _ _))
          (λ r. loop-Keeps fuel context _ _ (n + 1) r))
        (finish-Keeps context.session _ _ _ response _)

  -- A turn does not change what loads and appends of transcripts do not change.
  pub run_turn-Keeps : (request : ChatTurnRequest) → Keeps seen (run_turn platform chat request)
  unfolding run_turn run_turn_within begin_turn prepare_turn
  run_turn-Keeps request = Keeps-if _ _ _ (Keeps-raise _) (
      Keeps-bind _ _
        (Keeps-if _ _ _ (Keeps-raise _) (
          Keeps-bind _ _ (Keeps-catch_into _ _ (seen_store _ (loads_keep request.session.id)))
            (λ prior. Keeps-pure _)))
        (λ context. Keeps-bind _ _ (Keeps-lift _) (λ first.
          Keeps-bind _ _ (seen_env _ (complete-Keeps platform chat _ first)) (λ response.
            loop-Keeps (suc chat.policy.max_tool_round_trips) context context.conversation_messages
              (context.user_message ∷ []) 0 response))))
