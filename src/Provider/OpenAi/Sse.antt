-- ===== src/Provider/OpenAi/Sse.antt =====
-- The stream of server-sent events in `OpenAiHttpTransport::stream` of
-- fprovider/src/adapters/openai/transport.rs. A piece of the body is its text, or the error of a read
-- that failed or of bytes that are not UTF-8.
pub mod Pieces
pub mod Protocol
use Prim.Native.Char.{Char, code}
use fiddlesticks.Base.{
  ℕ, String, Bool, true, false, not, ◌&&◌, Option, none, some, List, [], ◌∷◌, ◌++◌, map,
  if◌then◌else◌, ◌==◌, string_eq, eqb, ltb, is_prefix, is_empty_text, trim, trim_start_matches,
  text_append, to_decimal,
}
use fiddlesticks.Exec.{Result, ok, err, no_return}
use fiddlesticks.Provider.Error.{ProviderError, ProviderErrorKind, of_kind}
use fiddlesticks.Provider.OpenAi.Types.{
  OpenAiToolCall, OpenAiAssistantMessage, OpenAiFinishReason, OpenAiStreamChunk, text_chunk,
  tool_call_chunk, message_chunk, response_chunk, OpenAiChunkStream, no_usage,
}
use fiddlesticks.Provider.OpenAi.Api.{
  OpenAiApiDeltaToolFunction, OpenAiApiDeltaToolCall, OpenAiApiStreamChoice,
  OpenAiApiStreamResponse, parse_finish_reason, or_empty,
}

-- `while let Some(i) = buffer.find('\n') { line = buffer.drain(..=i) }`: the lines that are complete,
-- each with the newline that ends it, and what is left in the buffer: a
-- character goes before them, which is a newline or not, and whether it is a newline.
pub add_char : Bool → Char → List String × String → List String × String
add_char true c (ls, rest) = (String.◌∷◌ c "" ∷ ls, rest)
add_char false c ([], rest) = ([], String.◌∷◌ c rest)
add_char false c (l ∷ ls, rest) = (String.◌∷◌ c l ∷ ls, rest)

unfoldable pub take_lines : String → List String × String
unfolding add_char
take_lines String.[] = ([], "")
take_lines (String.◌∷◌ c s) = add_char (eqb (code c) 10) c (take_lines s)

-- The variables of the loop, without the buffer. `tool_calls` is a `BTreeMap` by the index, in its
-- order.
pub record SseState : Type 0 where
  pub content : String
  pub tool_calls : List (ℕ × OpenAiToolCall)
  pub model : Option String
  pub finish_reason : OpenAiFinishReason

abbrev pub start : SseState
start = record {
  content = "";
  tool_calls = [];
  model = none;
  finish_reason = OpenAiFinishReason.other;
}

abbrev or_else : String → Option String → String
or_else s none = s
or_else s (some t) = t

-- `entry(index).or_insert_with(..)` with the changes that follow.
abbrev with_function : Option OpenAiApiDeltaToolFunction → OpenAiToolCall → OpenAiToolCall
with_function none c = c
with_function (some f) c = record c {
  name = or_else c.name f.name;
  arguments = text_append c.arguments (or_else "" f.arguments);
}

unfoldable pub apply_delta : OpenAiApiDeltaToolCall → OpenAiToolCall → OpenAiToolCall
apply_delta d c = with_function d.function (record c { id = or_else c.id d.id })

new_call : ℕ → OpenAiApiDeltaToolCall → OpenAiToolCall
new_call index d = record {
  id = or_else (text_append "tool_call_" (to_decimal index)) d.id;
  name = "";
  arguments = "";
}

-- The entry at an index, changed, and the map with it.
put_call :
    ℕ
    → OpenAiApiDeltaToolCall
    → List (ℕ × OpenAiToolCall)
    → OpenAiToolCall × List (ℕ × OpenAiToolCall)
unfolding apply_delta new_call
put_call index d [] = let c = apply_delta d (new_call index d) in (c, (index, c) ∷ [])
put_call index d ((i, c) ∷ rest) =
    let (found, rest') = put_call index d rest in
    if eqb index i
    then (let c' = apply_delta d c in (c', (i, c') ∷ rest))
    else if ltb index i
    then (let c' = apply_delta d (new_call index d) in (c', (index, c') ∷ (i, c) ∷ rest))
    else (found, (i, c) ∷ rest')

abbrev index_of : Option ℕ → ℕ
index_of none = 0
index_of (some i) = i

-- What is yielded, beside the new state.
abbrev pub Step : Type 0
Step = List OpenAiStreamChunk × SseState

unfoldable pub handle_calls : List OpenAiApiDeltaToolCall → SseState → Step
unfolding put_call
handle_calls [] st = ([], st)
handle_calls (d ∷ ds) st =
    let (c, calls) = put_call (index_of d.index) d st.tool_calls in
    let (out, st') = handle_calls ds (record st { tool_calls = calls }) in
    (tool_call_chunk c ∷ out, st')

unfoldable pub handle_content : Option String → SseState → Step
handle_content none st = ([], st)
handle_content (some delta) st =
    if is_empty_text delta
    then ([], st)
    else (text_chunk delta ∷ [], record st { content = text_append st.content delta })

abbrev finish_of : Option String → OpenAiFinishReason → OpenAiFinishReason
finish_of none before = before
finish_of (some s) before = parse_finish_reason (some s)

-- `if let Some(choice) = parsed.choices.first()`
unfoldable pub handle_choice : List OpenAiApiStreamChoice → SseState → Step
handle_choice [] st = ([], st)
handle_choice (choice ∷ others) st =
    let (said, st1) = handle_content choice.content st in
    let (called, st2) = handle_calls (or_empty choice.tool_calls) st1 in
    (
      said ++ called,
      record st2 { finish_reason = finish_of choice.finish_reason st2.finish_reason },
    )

abbrev first_model : Option String → Option String → Option String
first_model none parsed = parsed
first_model (some m) parsed = some m

unfoldable pub handle_parsed : OpenAiApiStreamResponse → SseState → Step
handle_parsed r st = handle_choice r.choices (record st { model = first_model st.model r.model })

-- Whether the loop goes on, has met the mark of its end, or has failed.
pub data Progress : Type 0 where
  going : SseState → Progress
  finished : SseState → Progress
  failed : ProviderError → Progress

abbrev pub Outcome : Type 0
Outcome = List OpenAiStreamChunk × Progress

abbrev going_on : Step → Outcome
going_on (out, st) = (out, going st)

abbrev pub yielded_before : List OpenAiStreamChunk → Outcome → Outcome
yielded_before out (out', p) = (out ++ out', p)

-- What follows a line, if the loop goes on.
pub after_line : Outcome → (SseState → Outcome) → Outcome
after_line (out, going st) rest = yielded_before out (rest st)
after_line (out, finished st) rest = (out, finished st)
after_line (out, failed e) rest = (out, failed e)

-- What is yielded at the end.
abbrev model_or : String → Option String → String
model_or fallback none = fallback
model_or fallback (some m) = m

unfoldable pub closing : (model_for_fallback : String) → SseState → OpenAiChunkStream
closing fallback st =
    let said : OpenAiAssistantMessage = record {
      content = st.content;
      tool_calls = map (λ c. c.1) st.tool_calls;
    } in
    ok (message_chunk said)
    ∷ ok (
        response_chunk (record {
          model = model_or fallback st.model;
          message = said;
          finish_reason = st.finish_reason;
          usage = no_usage;
        }))
    ∷ []

-- What follows the lines of a piece, if the loop goes on.
pub after_piece :
    (model_for_fallback : String) → Outcome → (SseState → OpenAiChunkStream) → OpenAiChunkStream
unfolding closing
after_piece fallback (out, going st) rest = map ok out ++ rest st
after_piece fallback (out, finished st) rest = map ok out ++ closing fallback st
after_piece fallback (out, failed e) rest = map ok out ++ err e ∷ []

module _ (from_str : String → Result String OpenAiApiStreamResponse) where
  pub handle_json : Result String OpenAiApiStreamResponse → SseState → Outcome
  handle_json (ok parsed) st = going_on (handle_parsed parsed st)
  handle_json (err e) st = ([], failed (of_kind ProviderErrorKind.transport e))
  handle_json no_return st = ([], going st)

  -- The body of the inner loop.
  unfoldable pub handle_line : String → SseState → Outcome
  unfolding handle_json
  handle_line drained st =
      let line = trim drained in
      let payload = trim (trim_start_matches "data:" line) in
      if not (is_prefix "data:" line)
      then ([], going st)
      else if payload == "[DONE]"
      then ([], finished st)
      else handle_json (from_str payload) st

  -- The inner loop, over the lines that are complete.
  unfoldable pub handle_lines : List String → SseState → Outcome
  unfolding after_line
  handle_lines [] st = ([], going st)
  handle_lines (l ∷ ls) st = after_line (handle_line l st) (handle_lines ls)

  -- The outer loop, over the pieces of the body as they come.
  unfoldable pub read_pieces :
      (model_for_fallback : String)
      → List (Result ProviderError String)
      → (buffer : String) → SseState
      → OpenAiChunkStream
  unfolding after_piece
  read_pieces fallback [] buffer st = closing fallback st
  read_pieces fallback (ok text ∷ pieces) buffer st =
      let (lines, buffer') = take_lines (text_append buffer text) in
      after_piece fallback (handle_lines lines st) (read_pieces fallback pieces buffer')
  read_pieces fallback (err e ∷ pieces) buffer st = err e ∷ []
  read_pieces fallback (no_return ∷ pieces) buffer st = no_return ∷ []
