-- ===== src/Provider/OpenAi/Sse/Protocol.antt =====
-- The order of the chunks of a streamed response, and its text:
-- fprovider/src/adapters/openai/transport.rs.
use fiddlesticks.Base.{
  String, Bool, true, false, List, [], ◌∷◌, ◌++◌, map, Option, none, some, text_append, ◌≡◌, refl,
  map-append_assoc, sym, subst, not, is_prefix, trim, trim_start_matches, if◌then◌else◌, ◌==◌,
  string_eq,
}
use fiddlesticks.Exec.{Result, ok, err, no_return}
use fiddlesticks.Provider.Error.{ProviderError}
use fiddlesticks.Provider.OpenAi.Types.{
  OpenAiChunkStream, OpenAiToolCall, OpenAiAssistantMessage, OpenAiResponse, text_chunk,
  tool_call_chunk, message_chunk, response_chunk,
}
use fiddlesticks.Provider.OpenAi.Api.{
  OpenAiApiStreamResponse, OpenAiApiStreamChoice, OpenAiApiDeltaToolCall, or_empty,
}
use fiddlesticks.Provider.OpenAi.Sse.Pieces.{after_piece-after_line}
use fiddlesticks.Provider.OpenAi.Sse.{
  SseState, Outcome, Step, handle_calls, handle_content, handle_choice, handle_parsed, handle_json,
  handle_line, handle_lines, after_piece, closing, read_pieces, take_lines,
}

-- A stream of chunks after the text `said`: text and tool calls in any number, then the whole message
-- and the response with it, and the end; or an error, and the end. The message has the text of all
-- the chunks of text.
pub data IsAnswer : (said : String) → OpenAiChunkStream → Type 0 where
  text :
      {said delta : String} {chunks : OpenAiChunkStream}
      → IsAnswer (text_append said delta) chunks
      → IsAnswer said (ok (text_chunk delta) ∷ chunks)
  call :
      {said : String} {c : OpenAiToolCall} {chunks : OpenAiChunkStream}
      → IsAnswer said chunks
      → IsAnswer said (ok (tool_call_chunk c) ∷ chunks)
  complete :
      {said : String} {m : OpenAiAssistantMessage} {r : OpenAiResponse}
      → m.content ≡ said
      → r.message ≡ m
      → IsAnswer said (ok (message_chunk m) ∷ ok (response_chunk r) ∷ [])
  broken : {said : String} {e : ProviderError} → IsAnswer said (err e ∷ [])
  endless : {said : String} → IsAnswer said (no_return ∷ [])

-- The chunks of a step lead from the text before it to the text after it.
Leads : SseState → Step → Type 0
Leads before (out, after) =
    (chunks : OpenAiChunkStream)
    → IsAnswer after.content chunks
    → IsAnswer before.content (map ok out ++ chunks)

handle_calls-Leads :
    (ds : List OpenAiApiDeltaToolCall) (st : SseState) → Leads st (handle_calls ds st)
unfolding handle_calls Leads
handle_calls-Leads [] st chunks h = h
handle_calls-Leads (d ∷ ds) st chunks h = IsAnswer.call (handle_calls-Leads ds _ chunks h)

handle_content-Leads : (c : Option String) (st : SseState) → Leads st (handle_content c st)
unfolding handle_content Leads
handle_content-Leads none st chunks h = h
handle_content-Leads (some String.[]) st chunks h = h
handle_content-Leads (some (String.◌∷◌ c s)) st chunks h = IsAnswer.text h

handle_choice-Leads :
    (choices : List OpenAiApiStreamChoice) (st : SseState) → Leads st (handle_choice choices st)
unfolding handle_choice Leads
handle_choice-Leads [] st chunks h = h
handle_choice-Leads (choice ∷ others) st chunks h =
    let (said, st1) = handle_content choice.content st in
    let (called, st2) = handle_calls (or_empty choice.tool_calls) st1 in
    subst (IsAnswer st.content) (sym (map-append_assoc ok said called chunks)) (
      handle_content-Leads choice.content st _
        (handle_calls-Leads (or_empty choice.tool_calls) st1 chunks h))

-- What has come after the lines, and the stream that goes on from it.
Answers : SseState → Outcome → Type 0
Answers st o =
    (fallback : String) (rest : SseState → OpenAiChunkStream)
    → ((later : SseState) → IsAnswer later.content (rest later))
    → IsAnswer st.content (after_piece fallback o rest)

closing-IsAnswer : (fallback : String) (st : SseState) → IsAnswer st.content (closing fallback st)
unfolding closing
closing-IsAnswer fallback st = IsAnswer.complete refl refl

either_Answers :
    (st : SseState) (c : Bool) (a b : Outcome)
    → Answers st a
    → Answers st b
    → Answers st (if c then a else b)
either_Answers st true a b h k = h
either_Answers st false a b h k = k

module _ (from_str : String → Result String OpenAiApiStreamResponse) where
  handle_json-Answers :
      (parsed : Result String OpenAiApiStreamResponse) (st : SseState)
      → Answers st (handle_json from_str parsed st)
  unfolding handle_json handle_parsed Answers after_piece Leads
  handle_json-Answers (ok parsed) st fallback rest h = handle_choice-Leads parsed.choices _ _ (h _)
  handle_json-Answers (err e) st fallback rest h = IsAnswer.broken
  handle_json-Answers no_return st fallback rest h = h st

  handle_line-Answers : (l : String) (st : SseState) → Answers st (handle_line from_str l st)
  unfolding handle_line Answers after_piece
  handle_line-Answers l st =
      let payload = trim (trim_start_matches "data:" (trim l)) in
      either_Answers st (not (is_prefix "data:" (trim l))) _ _ (λ fallback rest h. h st)
        (either_Answers st (payload == "[DONE]") _ _
          (λ fallback rest h. closing-IsAnswer fallback st)
          (handle_json-Answers (from_str payload) st))

  handle_lines-Answers :
      (ls : List String) (st : SseState) → Answers st (handle_lines from_str ls st)
  unfolding handle_lines Answers after_piece
  handle_lines-Answers [] st fallback rest h = h st
  handle_lines-Answers (l ∷ ls) st fallback rest h =
      subst (IsAnswer st.content)
        (sym (
          after_piece-after_line fallback (handle_line from_str l st) (handle_lines from_str ls)
            rest))
        (handle_line-Answers l st fallback _
          (λ later. handle_lines-Answers ls later fallback rest h))

  -- Whatever comes over the network, a streamed response is an answer: the chunks of text and of tool
  -- calls, then the message with exactly the text of the chunks, then the response with this message,
  -- and the end; or an error before that, and the end.
  pub read_pieces-IsAnswer :
      (fallback : String) (pieces : List (Result ProviderError String)) (buffer : String)
      (st : SseState)
      → IsAnswer st.content (read_pieces from_str fallback pieces buffer st)
  unfolding read_pieces Answers
  read_pieces-IsAnswer fallback [] buffer st = closing-IsAnswer fallback st
  read_pieces-IsAnswer fallback (ok piece ∷ pieces) buffer st =
      let (lines, buffer') = take_lines (text_append buffer piece) in
      handle_lines-Answers lines st fallback _ (read_pieces-IsAnswer fallback pieces buffer')
  read_pieces-IsAnswer fallback (err e ∷ pieces) buffer st = IsAnswer.broken
  read_pieces-IsAnswer fallback (no_return ∷ pieces) buffer st = IsAnswer.endless
