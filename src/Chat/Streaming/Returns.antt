-- ===== src/Chat/Streaming/Returns.antt =====
-- Every streamed turn of fchat/src/service.rs comes to an end.
use fiddlesticks.Base.{
  ℕ, zero, suc, ◌+◌, ◌<◌, Bool, true, List, [], ◌∷◌, ◌≡◌, ◌≢◌, refl, arith, All, subst,
}
use fiddlesticks.Exec.{Result, ok, err, no_return, map_err, catch_into, on_part}
use fiddlesticks.Exec.Rules.{bind_rule}
use fiddlesticks.Exec.Returns.{
  Returns, Returns-lift, Returns-pure, Returns-bind, Returns-if, Returns-on_part,
  Returns-catch_into,
}
use fiddlesticks.Provider.Error.{ProviderError}
use fiddlesticks.Provider.Model.{Message, ToolCall, ToolResult}
use fiddlesticks.Provider.Request.{ModelRequest}
use fiddlesticks.Provider.Stream.{EventStream}
use fiddlesticks.Provider.Resilience.Returns.{execute_with_retry-returns}
use fiddlesticks.Provider.Resilience.Values.{Values, execute_with_retry-Values}
use fiddlesticks.Chat.Types.{ChatSession, ChatTurnRequest, ChatEvent}
use fiddlesticks.Chat.Service.{Platform, World, ChatService, TurnContext, has_value}
use fiddlesticks.Chat.Turn.Returns.{
  Responsive, build_request-returns, tool-Returns, prepare-Returns,
}
use fiddlesticks.Chat.Streaming.{Reply, no_reply, read_stream, on_event}
use fiddlesticks.Chat.Streaming.Turn.{
  stream_turn_within, Emitting, emit_to, open_stream, stream_tools, read_reply, after_reply,
  tools_or_finish, finish_stream, stream_loop, turn_stream, stream_turn, stream_should_run_tools,
}

-- Each item of the stream comes.
abbrev pub Finite : EventStream → Type 0
Finite = All (λ (x : Result ProviderError _). x ≢ no_return)

read-returns : (es : EventStream) (r : Reply) → Finite es → (read_stream es r).1 ≢ no_return
unfolding read_stream
read-returns [] r h = λ e. cc
read-returns (ok event ∷ es) r (h, hs) = read-returns es (on_event event r).1 hs
read-returns (err x ∷ es) r h = λ e. cc
read-returns (no_return ∷ es) r (h, hs) = absurd (h refl)

module _ {St W : Type 0} (platform : Platform W) (chat : ChatService St W)
    (reader : ChatEvent → W → W) (responsive : Responsive platform chat)
    (opens : (r : ModelRequest) → Returns (chat.provider.stream r))
    (streams : (r : ModelRequest) (w : W) → Values Finite (chat.provider.stream r w).0) where
  open-Returns :
      (session : ChatSession) (r : ModelRequest)
      → Returns (open_stream platform chat reader session r)
  unfolding open_stream
  open-Returns session r = Returns-catch_into _ _ (
      Returns-on_part _ _ _ (record {
        at =
            execute_with_retry-returns platform.f64 session.provider "stream"
              chat.policy.provider_retry_policy chat.provider_hooks _ platform.sleep
              (λ a. (opens r).at) responsive.no_panic;
      }))

  mapped-Values :
      {E F T : Type 0} (P : T → Type 0) (f : E → F) (r : Result E T)
      → Values P r
      → Values P (map_err f r)
  mapped-Values P f (ok v) h = h
  mapped-Values P f (err e) h = tt
  mapped-Values P f no_return h = tt

  open-Values :
      (session : ChatSession) (r : ModelRequest) (w : World St W)
      → Values Finite (open_stream platform chat reader session r w).0
  unfolding open_stream catch_into on_part
  open-Values session r w = mapped-Values Finite _ _ (
      execute_with_retry-Values platform.f64 session.provider "stream"
        chat.policy.provider_retry_policy chat.provider_hooks _ platform.sleep Finite
        (λ a v. streams r v) w.env)

  emit-Returns : (es : List ChatEvent) → Returns (emit_to {St = St} reader es)
  emit-Returns es = record { at = λ g e. cc }

  read_reply-Returns :
      (context : TurnContext) (conversation : List Message) (results : List ToolResult)
      → Returns (read_reply platform chat reader context conversation results)
  unfolding read_reply on_part
  read_reply-Returns context conversation results =
      Returns-bind _ _ (Returns-lift _ (build_request-returns _ _ _ _ _ results)) (λ request.
        record {
          at = λ g.
              let opening = open_stream platform chat reader context.session request g.world in
              bind_rule (λ r s. r ≢ no_return) _ _ g
                (λ events e.
                  (Returns-bind _ _ (emit-Returns _) (λ u. Returns-lift _ (
                      read-returns events no_reply (
                        subst (Values Finite) e (open-Values context.session request g.world))))).at
                    _)
                (λ x e e'. cc) (λ e. absurd ((open-Returns context.session request).at g.world e));
        })

  tools-Returns :
      (session : ChatSession) (calls : List ToolCall)
      → has_value chat.tool_runtime ≡ true
      → Returns (stream_tools platform chat reader session calls)
  unfolding stream_tools
  tools-Returns session [] h = Returns-pure []
  tools-Returns session (call ∷ calls) h = Returns-bind _ _ (emit-Returns _) (λ u.
      Returns-bind _ _
        (Returns-on_part _ _ _
          (tool-Returns platform chat responsive chat.tool_runtime session.id call refl h))
        (λ r.
          Returns-bind _ _ (emit-Returns _)
            (λ u. Returns-bind _ _ (tools-Returns session calls h) (λ rs. Returns-pure _))))

  finish-Returns :
      (session : ChatSession) (persisted : List Message) (reply : Reply) (limit : Bool)
      → Returns (finish_stream platform chat reader session persisted reply limit)
  unfolding finish_stream
  finish-Returns session persisted reply limit =
      Returns-bind _ _
        (Returns-on_part _ _ _ (
          Returns-catch_into _ _ (Returns-on_part _ _ _ (responsive.appends session.id persisted))))
        (λ u. emit-Returns _)

  -- Where tools are run there is a runtime, and a round is left.
  should_run_lem :
      (calls : List ToolCall) (n : ℕ)
      → stream_should_run_tools platform chat reader calls n ≡ true
      → (has_value chat.tool_runtime ≡ true) × (n < chat.policy.max_tool_round_trips)
  unfolding stream_should_run_tools
  should_run_lem calls n h = ground arith

  loop-Returns :
      (fuel : ℕ) (context : TurnContext) (conversation persisted : List Message) (n : ℕ)
      (results : List ToolResult)
      → chat.policy.max_tool_round_trips < fuel + n
      → 0 < fuel
      → Returns (stream_loop platform chat reader fuel context conversation persisted n results)
  unfolding stream_loop after_reply tools_or_finish
  loop-Returns zero context conversation persisted n results h pos = absurd (omega arith)
  loop-Returns (suc fuel) context conversation persisted n results h pos =
      Returns-bind _ _ (read_reply-Returns context conversation results) (λ reply.
        Returns-bind _ _ (emit-Returns _) (λ u.
          Returns-if _ _ _
            (λ e.
              let (has, less) = should_run_lem reply.tool_calls n e in
              Returns-bind _ _ (tools-Returns context.session reply.tool_calls has)
                (λ rs. loop-Returns fuel context _ _ (n + 1) rs (omega arith) (omega arith)))
            (λ e. finish-Returns context.session _ reply _)))

  -- If the provider, the store and the tools come back from each call, the backoff is computed
  -- without a panic, and each item of a provider's stream comes, then a streamed turn that is read
  -- to its end comes to it, with an error or without.
  pub stream_turn-returns :
      (request : ChatTurnRequest) (g : Emitting St W)
      → (stream_turn platform chat reader request g).0 ≢ no_return
  unfolding stream_turn stream_turn_within turn_stream
  stream_turn-returns request g =
      (Returns-bind _ _ (Returns-on_part _ _ _ (prepare-Returns platform chat responsive request))
          (λ context.
            loop-Returns (suc chat.policy.max_tool_round_trips) context
              context.conversation_messages (context.user_message ∷ []) 0 [] (omega arith)
              (omega arith))).at
        g
