-- ===== src/Chat/Turn/Limit.antt =====
-- When a turn reports that it stopped at the limit of tool rounds.
use fiddlesticks.Base.{
  ℕ, zero, suc, ◌+◌, Bool, false, not, ◌&&◌, List, [], ◌∷◌, is_empty, ◌≡◌, arith, Bool-cases, inl,
  inr,
}
use fiddlesticks.Exec.{Result, ok, err, no_return, pure, raise, lift}
use fiddlesticks.Exec.Rules.{bind_rule}
use fiddlesticks.Provider.Model.{Message, ToolCall, ModelResponse}
use fiddlesticks.Chat.Error.{ChatError}
use fiddlesticks.Chat.Types.{ChatSession, ChatTurnRequest, ChatTurnResult}
use fiddlesticks.Chat.Service.{
  Platform, World, ChatService, TurnContext, has_value, prepare_turn, collect_output,
  complete_with_retry,
}
use fiddlesticks.Chat.Turn.{
  run_turn_within, turn_round, turn_loop, begin_turn, run_turn, should_run_tools, finish_turn,
  limit_reached,
}

module _ {St W : Type 0} (platform : Platform W) (chat : ChatService St W) where
  -- The flag of a result says that tool calls are left over although there is a runtime for them.
  abbrev pub Flagged : Result ChatError ChatTurnResult → World St W → Type 0
  Flagged (ok r) w =
      r.tool_round_limit_reached ≡ (has_value chat.tool_runtime && not (is_empty r.tool_calls))
  Flagged (err e) w = Unit
  Flagged no_return w = Unit

  finish-Flagged :
      (session : ChatSession) (persisted : List Message) (text : _) (calls : List ToolCall)
      (response : ModelResponse) (limit : Bool) (w : World St W)
      → limit ≡ (has_value chat.tool_runtime && not (is_empty calls))
      → let r = finish_turn platform chat session persisted text calls response limit w in
        Flagged r.0 r.1
  unfolding finish_turn pure
  finish-Flagged session persisted text calls response limit w h =
      bind_rule Flagged _ _ w (λ a e. h) (λ x e. tt) (λ e. tt)

  -- Where no tools are run, either there is nothing to run or the limit is reached.
  limit_exact :
      (calls : List ToolCall) (n : ℕ)
      → should_run_tools platform chat calls n ≡ false
      → limit_reached platform chat calls n ≡ (has_value chat.tool_runtime && not (is_empty calls))
  unfolding should_run_tools limit_reached
  limit_exact calls n h = ground arith

  loop-Flagged :
      (fuel : ℕ) (context : TurnContext) (conversation persisted : List Message) (n : ℕ)
      (response : ModelResponse) (w : World St W)
      → let r = turn_loop platform chat fuel context conversation persisted n response w in
        Flagged r.0 r.1
  unfolding turn_loop turn_round lift
  loop-Flagged zero context conversation persisted n response w = tt
  loop-Flagged (suc fuel) context conversation persisted n response w =
      let calls = (collect_output response.output).1 in
      elim (Bool-cases (should_run_tools platform chat calls n)) [
        | inl e ↦ rw e (
            bind_rule Flagged _ _ w (λ r _. loop-Flagged fuel context _ _ (n + 1) r _) (λ x _. tt)
              (λ _. tt))
        | inr e ↦
            rw e (finish-Flagged context.session _ _ calls response _ w (limit_exact calls n e))
      ]

  begin-Flagged :
      (fuel : ℕ) (context : TurnContext) (w : World St W)
      → let r = begin_turn platform chat fuel context w in Flagged r.0 r.1
  unfolding begin_turn
  begin-Flagged fuel context w =
      let ask = complete_with_retry platform chat context.session.provider in
      bind_rule Flagged _ _ w
        (λ first e.
          bind_rule Flagged _ (ask first) _
            (λ response _.
              loop-Flagged fuel context context.conversation_messages (context.user_message ∷ []) 0
                response (ask first _).1)
            (λ x _. tt) (λ _. tt))
        (λ x _. tt) (λ _. tt)

  -- A turn's result says that the limit of tool rounds was reached exactly if there is a tool
  -- runtime and the result still has tool calls.
  pub run_turn-Flagged :
      (request : ChatTurnRequest) (w : World St W)
      → let r = run_turn platform chat request w in Flagged r.0 r.1
  unfolding run_turn run_turn_within raise
  run_turn-Flagged request w = elim (Bool-cases request.options.stream) [
    | inl e ↦ rw e tt
    | inr e ↦ simp e (
        bind_rule Flagged _ (prepare_turn platform chat request) w
          (λ c _. begin-Flagged (suc chat.policy.max_tool_round_trips) c _) (λ x _. tt) (λ _. tt))
  ]
