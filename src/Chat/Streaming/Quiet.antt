-- ===== src/Chat/Streaming/Quiet.antt =====
-- The parts of a streamed turn that yield no `TurnComplete` and leave the store alone.
use fiddlesticks.Base.{
  String, Bool, true, false, not, List, [], ◌∷◌, ◌++◌, all, append-nil, append_assoc, ◌≡◌, refl,
  sym, ap, ◌∙◌, arith,
}
use fiddlesticks.Exec.{Result, ok, err, no_return, Exec, pure, lift, continue, on_part, ◌>>=◌}
use fiddlesticks.Exec.Keeps.{Keeps}
use fiddlesticks.Provider.Model.{Message, Role, ToolCall, ToolResult}
use fiddlesticks.Provider.Request.{ModelRequest}
use fiddlesticks.Provider.Stream.{StreamEvent, EventStream}
use fiddlesticks.Chat.Error.{ChatError}
use fiddlesticks.Chat.Types.{ChatSession, ChatEvent, turn_complete}
use fiddlesticks.Chat.Service.{Platform, World, ChatService, TurnContext}
use fiddlesticks.Chat.Turn.Keeping.{store_of, env_rules, tool-Keeps}
use fiddlesticks.Chat.Streaming.{Reply, on_message, on_event, read_stream}
use fiddlesticks.Chat.Streaming.Turn.{
  Emitting, in_world, emit_to, open_stream, stream_tools, read_reply,
}

abbrev pub is_complete : ChatEvent → Bool
is_complete (turn_complete r) = true
is_complete (ChatEvent.text_delta d) = false
is_complete _ = false

-- No event is a `TurnComplete`.
abbrev pub quiet : List ChatEvent → Bool
quiet = all (λ e. not (is_complete e))

pub quiet-append :
    (xs ys : List ChatEvent) → quiet xs ≡ true → quiet ys ≡ true → quiet (xs ++ ys) ≡ true
quiet-append [] ys h k = k
quiet-append (x ∷ xs) ys h k = ground (arith, quiet-append xs ys)

abbrev pub store_after : {St W : Type 0} → Emitting St W → St
store_after g = g.world.store

-- What an action yields, and that it stores nothing.
abbrev pub Yields : {St W : Type 0} → Emitting St W → Emitting St W → Type 0
Yields g g' =
    (es : List ChatEvent) × (g'.events ≡ g.events ++ es)
    × (quiet es ≡ true)
    × (store_after g' ≡ store_after g)

pub record Quiet {St W A : Type 0} (m : Exec (Emitting St W) ChatError A) : Type 0 where
  pub at : (g : Emitting St W) → Yields g (m g).1

module _ {St W : Type 0} where
  pub Yields-refl : (g : Emitting St W) → Yields g g
  Yields-refl g = ([], sym (append-nil g.events), refl, refl)

  pub Yields-trans : (g g' g'' : Emitting St W) → Yields g g' → Yields g' g'' → Yields g g''
  Yields-trans g g' g'' (xs, ex, qx, sx) (ys, ey, qy, sy) = (
    xs ++ ys,
    ey ∙ ap (λ l. l ++ ys) ex ∙ append_assoc g.events xs ys,
    quiet-append xs ys qx qy,
    sy ∙ sx,
  )

module _ {St W A : Type 0} where
  pub Quiet-lift : (r : Result ChatError A) → Quiet {St = St} {W = W} (lift r)
  unfolding lift
  Quiet-lift r = record { at = Yields-refl }

  pub Quiet-pure : (a : A) → Quiet {St = St} {W = W} (pure a)
  unfolding pure
  Quiet-pure a = record { at = Yields-refl }

  pub Quiet-in_world : (m : Exec (World St W) ChatError A) → Keeps store_of m → Quiet (in_world m)
  unfolding on_part
  Quiet-in_world m k = record { at = λ g. ([], sym (append-nil g.events), refl, k.at g.world) }

pub Quiet-emit :
    {St W : Type 0} (reader : ChatEvent → W → W) (es : List ChatEvent)
    → quiet es ≡ true
    → Quiet {St = St} (emit_to reader es)
Quiet-emit reader es q = record { at = λ g. (es, refl, q, refl) }

module _ {St W A B : Type 0} where
  continue-Yields :
      (f : A → Exec (Emitting St W) ChatError B)
      → ((a : A) → Quiet (f a))
      → (r : Result ChatError A) (g : Emitting St W) → Yields g (continue r f g).1
  continue-Yields f k (ok a) g = (k a).at g
  continue-Yields f k (err e) g = Yields-refl g
  continue-Yields f k no_return g = Yields-refl g

  pub Quiet-bind :
      (m : Exec (Emitting St W) ChatError A) (f : A → Exec (Emitting St W) ChatError B)
      → Quiet m
      → ((a : A) → Quiet (f a))
      → Quiet (m >>= f)
  unfolding ◌>>=◌
  Quiet-bind m f km kf = record {
    at = λ g.
        Yields-trans g (m g).1 (continue (m g).0 f (m g).1).1 (km.at g)
          (continue-Yields f kf (m g).0 (m g).1);
  }

pub ruleset quiet_rules = (Quiet-lift, Quiet-pure, Quiet-in_world, Quiet-emit, Quiet-bind)

message_quiet :
    (role : Role) (content : String) (r : Reply) → quiet (on_message role content r).0 ≡ true
unfolding on_message
message_quiet role content r = ground arith

event_quiet : (e : StreamEvent) (r : Reply) → quiet (on_event e r).0 ≡ true
unfolding on_event
event_quiet (StreamEvent.text_delta d) r = refl
event_quiet (StreamEvent.tool_call_delta c) r = refl
event_quiet (StreamEvent.message_complete m) r = message_quiet m.role m.content r
event_quiet (StreamEvent.response_complete x) r = refl

pub read_stream-quiet : (events : EventStream) (r : Reply) → quiet (read_stream events r).0 ≡ true
unfolding read_stream
read_stream-quiet [] r = refl
read_stream-quiet (ok e ∷ events) r =
    quiet-append (on_event e r).0 _ (event_quiet e r) (read_stream-quiet events (on_event e r).1)
read_stream-quiet (err e ∷ events) r = refl
read_stream-quiet (no_return ∷ events) r = refl

module _ {St W : Type 0} (platform : Platform W) (chat : ChatService St W)
    (reader : ChatEvent → W → W) where
  open-Keeps :
      (session : ChatSession) (request : ModelRequest)
      → Keeps store_of (open_stream platform chat reader session request)
  unfolding open_stream
  open-Keeps session request = search env_rules

  pub tools-Quiet :
      (session : ChatSession) (calls : List ToolCall)
      → Quiet (stream_tools platform chat reader session calls)
  unfolding stream_tools
  tools-Quiet session [] = Quiet-pure []
  tools-Quiet session (call ∷ calls) =
      Quiet-bind _ _ (Quiet-emit reader (ChatEvent.tool_execution_started call ∷ []) refl) λ _.
        Quiet-bind _ _
          (Quiet-in_world _ (tool-Keeps platform chat chat.tool_runtime session.id call))
          λ result.
            Quiet-bind _ _ (Quiet-emit reader (ChatEvent.tool_execution_finished call ∷ []) refl)
              λ _. Quiet-bind _ _ (tools-Quiet session calls) λ rest. Quiet-pure (result ∷ rest)

  pub read_reply-Quiet :
      (context : TurnContext) (conversation : List Message) (results : List ToolResult)
      → Quiet (read_reply platform chat reader context conversation results)
  unfolding read_reply
  read_reply-Quiet context conversation results = Quiet-bind _ _ (Quiet-lift _) λ request.
      Quiet-bind _ _ (Quiet-in_world _ (open-Keeps context.session request)) λ events.
        Quiet-bind _ _ (Quiet-emit reader _ (read_stream-quiet events _)) λ _. Quiet-lift _
