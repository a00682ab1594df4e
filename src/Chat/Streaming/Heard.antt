-- ===== src/Chat/Streaming/Heard.antt =====
-- What a streamed turn of fchat/src/service.rs keeps of the chunks that
-- fprovider/src/adapters/openai/transport.rs streams.
use Prim.Native.String.append
use fiddlesticks.Base.{
  String, List, [], ◌∷◌, ◌++◌, map, Option, none, some, text_append, ◌≡◌, refl, ap, sym, ◌∙◌,
  is_empty_text, if◌then◌else◌,
}
use fiddlesticks.Exec.{Result, ok, err, no_return}
use fiddlesticks.Provider.Error.{ProviderError}
use fiddlesticks.Provider.Model.{
  ProviderId, ToolCall, OutputItem, message_item, tool_call_item, message, Role,
}
use fiddlesticks.Provider.Stream.{StreamEvent}
use fiddlesticks.Provider.OpenAi.Types.{
  OpenAiToolCall, OpenAiResponse, OpenAiChunkStream, response_chunk, into_model_response,
  into_tool_call, into_stop_reason, into_token_usage,
}
use fiddlesticks.Provider.OpenAi.Api.{OpenAiApiStreamResponse}
use fiddlesticks.Provider.OpenAi.Sse.{start, read_pieces}
use fiddlesticks.Provider.OpenAi.Sse.Protocol.{IsAnswer, read_pieces-IsAnswer}
use fiddlesticks.Provider.OpenAi.Adapters.{map_chunks, map_stream_chunk, response_of}
use fiddlesticks.Chat.Error.{ChatError, ChatErrorPhase}
use fiddlesticks.Chat.Service.{collect_into, collect_output}
use fiddlesticks.Chat.Streaming.{Reply, no_reply, on_message, on_event, read_stream}

final_response : OpenAiChunkStream → Option OpenAiResponse
final_response [] = none
final_response (ok (response_chunk r) ∷ chunks) = some r
final_response (_ ∷ chunks) = final_response chunks

-- The reply has the text, the reason of the end and the usage of the response.
pub record Keeps (q : OpenAiResponse) (r : Reply) : Type 0 where
  pub text : r.text ≡ q.message.content
  pub stop_reason : r.stop_reason ≡ into_stop_reason q.finish_reason
  pub usage : r.usage ≡ into_token_usage q.usage

-- What is read of a stream of chunks: the reply to its response, or an error of the phase.
pub IsHeard : OpenAiChunkStream → Result ChatError Reply → Type 0
IsHeard chunks (ok r) = (q : OpenAiResponse) × (final_response chunks ≡ some q) × Keeps q r
IsHeard chunks (err e) = e.phase ≡ some ChatErrorPhase.streaming
IsHeard chunks no_return = Unit {0}

collect_into-calls :
    (cs : List OpenAiToolCall) (text : String) (calls : List ToolCall)
    → (collect_into text calls (map (λ c. tool_call_item (into_tool_call c)) cs)).0 ≡ text
unfolding collect_into
collect_into-calls [] text calls = refl
collect_into-calls (c ∷ cs) text calls = collect_into-calls cs text _

said_output : (content : String) (calls : List OutputItem) → List OutputItem
said_output content calls =
    (if is_empty_text content then [] else message_item (message Role.assistant content) ∷ [])
    ++ calls

output-content :
    (content : String) (cs : List OpenAiToolCall)
    → (collect_output (said_output content (map (λ c. tool_call_item (into_tool_call c)) cs))).0
      ≡ content
unfolding collect_output collect_into said_output
output-content String.[] cs = collect_into-calls cs "" []
output-content (String.◌∷◌ c s) cs = collect_into-calls cs _ [] ∙ append.nil (String.◌∷◌ c s)

pick_lem :
    (content said wanted : String)
    → content ≡ wanted
    → said ≡ wanted
    → (if is_empty_text content then said else content) ≡ wanted
pick_lem String.[] said wanted h k = k
pick_lem (String.◌∷◌ c s) said wanted h k = h

module _ (id : ProviderId) where
  -- The response, after the message whose text was said.
  respond-Keeps :
      (q : OpenAiResponse) (r : Reply)
      → r.text ≡ q.message.content
      → Keeps q (on_event (StreamEvent.response_complete (response_of id q)) r).1
  unfolding on_event response_of into_model_response said_output
  respond-Keeps q r e = record {
    text =
        pick_lem _ r.text q.message.content (output-content q.message.content q.message.tool_calls)
          e;
    stop_reason = refl;
    usage = refl;
  }

  heard :
      {said : String} {chunks : OpenAiChunkStream}
      → IsAnswer said chunks
      → (r : Reply) → r.text ≡ said
      → IsHeard chunks (read_stream (map_chunks (map_stream_chunk id) chunks) r).1
  unfolding IsHeard read_stream map_chunks map_stream_chunk on_event final_response
  heard (IsAnswer.text {delta = delta} a) r e = heard a _ (ap (λ s. text_append s delta) e)
  heard (IsAnswer.call a) r e = heard a _ e
  heard (IsAnswer.complete {m = m} {r = q} said same) r e =
      let in_response : m.content ≡ q.message.content = ap (λ m'. m'.content) (sym same) in
      (
        q,
        refl,
        respond-Keeps q (on_message Role.assistant m.content r).1
            (pick_lem r.text m.content q.message.content (e ∙ sym said ∙ in_response) in_response),
      )
  heard IsAnswer.broken r e = refl
  heard IsAnswer.endless r e = tt

-- Whatever the network sends, a turn that reads a streamed response of any of the providers through
-- the transport either fails in the streaming phase, or has the reply with the text, the reason of the
-- end and the usage of the response that the transport put together.
pub read_stream-IsHeard :
    (from_str : String → Result String OpenAiApiStreamResponse) (id : ProviderId)
    (fallback : String) (pieces : List (Result ProviderError String))
    → IsHeard
        (read_pieces from_str fallback pieces "" start)
        (read_stream
          (map_chunks (map_stream_chunk id) (read_pieces from_str fallback pieces "" start))
          no_reply).1
read_stream-IsHeard from_str id fallback pieces =
    heard id (read_pieces-IsAnswer from_str fallback pieces "" start) no_reply refl
