-- ===== src/Examples/Turns.antt =====
-- Chat turns of a small service, plain and streamed.
use fiddlesticks.Base.{true, false, [], ◌∷◌, ◌≢◌, if◌then◌else◌, ◌≡◌, ◌++◌, string_eq}
use fiddlesticks.Base.Map
use fiddlesticks.Exec.{ok, no_return}
use fiddlesticks.Provider.Model.{Role, message}
use fiddlesticks.Chat.Store.{
  InMemoryConversationStore, in_memory-StoreLaws, load_messages, append_messages, or_empty,
  load-append,
}
use fiddlesticks.Chat.Service.{prepare_turn}
use fiddlesticks.Chat.Service.Prepare.{Prepared, prepare_turn-Prepared}
use fiddlesticks.Chat.Turn.{run_turn}
use fiddlesticks.Chat.Turn.Saved.{Saved}
use fiddlesticks.Chat.Turn.Returns.{run_turn-returns}
use fiddlesticks.Chat.Turn.Limit.{Flagged, run_turn-Flagged}
use fiddlesticks.Chat.Streaming.Turn.{stream_turn}
use fiddlesticks.Chat.Streaming.Streamed.{Streamed}
use fiddlesticks.Chat.Streaming.Returns.{Finite, stream_turn-returns}
use fiddlesticks.Exec.Returns.{Returns}
use fiddlesticks.Provider.Request.{ModelRequest}
use fiddlesticks.Provider.Resilience.Values.{Values}
use fiddlesticks.Base.{ℕ, arith}
use fiddlesticks.Examples.Fixtures.{platform, chat, turn, world, emitting, reader, responsive}

run_turn-returns_example : (run_turn platform chat (turn false) world).0 ≢ no_return
run_turn-returns_example = run_turn-returns platform chat responsive (turn false) world

run_turn-Flagged_example :
    let r = run_turn platform chat (turn false) world in Flagged platform chat r.0 r.1
run_turn-Flagged_example = run_turn-Flagged platform chat (turn false) world

prepare_turn-Prepared_example :
    let r = prepare_turn platform chat (turn false) world in
    Prepared platform chat in_memory-StoreLaws (turn false) world.store r.0 r.1
prepare_turn-Prepared_example =
    prepare_turn-Prepared platform chat in_memory-StoreLaws (turn false) world

abbrev no_messages : InMemoryConversationStore
no_messages = Map.empty

load-append_example :
    (load_messages "b" (append_messages "a" (message Role.user "x" ∷ []) no_messages).1).0
    ≡ ok (
        if string_eq.beq "a" "b"
        then or_empty (Map.get no_messages "b") ++ message Role.user "x" ∷ []
        else or_empty (Map.get no_messages "b"))
load-append_example = load-append no_messages "a" "b" (message Role.user "x" ∷ [])

opens : (r : ModelRequest) → Returns (chat.provider.stream r)
opens r = record { at = λ w h. ground arith }

streams : (r : ModelRequest) (w : ℕ) → Values Finite (chat.provider.stream r w).0
streams r w = ((λ e. ground arith), ((λ e. ground arith), tt))

stream_turn-returns_example : (stream_turn platform chat reader (turn true) emitting).0 ≢ no_return
stream_turn-returns_example =
    stream_turn-returns platform chat reader responsive opens streams (turn true) emitting
