-- ===== src/Examples/Wires.antt =====
-- A server that takes `max_completion_tokens` alone, and a response that it streams.
use fiddlesticks.Base.{
  length, ℕ, String, List, [], ◌∷◌, ◌++◌, map, false, Option, none, some, ◌≡◌, ◌≢◌, refl, concat,
  is_blank, contains_text, is_prefix,
}
use fiddlesticks.Exec.{Result, ok, err, pure, ◌>>=◌, collect_map}
use fiddlesticks.Provider.Error.{ProviderError, ProviderErrorKind, of_kind}
use fiddlesticks.Provider.Model.{ProviderId, message, Role}
use fiddlesticks.Provider.Request.{ModelRequest, builder, add_message, set_max_tokens}
use fiddlesticks.Provider.OpenAi.Types.{
  OpenAiRequest, OpenAiAuth, api_key, from_message, into_model_response, into_stream_event,
}
use fiddlesticks.Provider.OpenAi.Api.{
  OpenAiApiRequest, max_tokens_parameter, max_completion_tokens_parameter, OpenAiApiStreamResponse,
  OpenAiApiResponse, build_api_request_with_token_parameter, api_message, api_tools,
  extract_error_message,
}
use fiddlesticks.Provider.OpenAi.Sse.{start, read_pieces}
use fiddlesticks.Provider.OpenAi.Sse.Pieces.{read_pieces-concat}
use fiddlesticks.Provider.OpenAi.Sse.Protocol.{IsAnswer, read_pieces-IsAnswer}
use fiddlesticks.Provider.OpenAi.Adapters.{map_chunks, map_stream_chunk, build_request}
use fiddlesticks.Provider.OpenAi.Adapters.Mapped.{SameAsked, complete_with-fallback}
use fiddlesticks.Provider.OpenAi.Transport.{
  Http, new_transport, complete, stream, send_with_each, token_parameters, http_transport,
  is_success, kind_of_status,
}
use fiddlesticks.Provider.OpenAi.Transport.Posts.{
  Logging, Posted, complete_posts, send_with_each-found,
}
use fiddlesticks.Chat.Streaming.{no_reply, read_stream}
use fiddlesticks.Chat.Streaming.Heard.{IsHeard, read_stream-IsHeard}

-- Each payload is the text of a chunk.
abbrev parse : String → Result String OpenAiApiStreamResponse
parse payload = ok (record {
  model = some "m";
  choices = record { content = some payload; tool_calls = none; finish_reason = some "stop" } ∷ [];
})

abbrev cut : List String
cut = "da" ∷ "ta: Hel" ∷ "lo\n\ndata: [DO" ∷ "NE]\n" ∷ []

abbrev rest : List (Result ProviderError String)
rest = err (of_kind ProviderErrorKind.transport "closed") ∷ []

read_pieces-concat_example :
    read_pieces parse "m0" (map ok cut ++ rest) "" start
    ≡ read_pieces parse "m0" (ok (concat cut) ∷ rest) "" start
read_pieces-concat_example = read_pieces-concat parse "m0" cut rest

read_pieces-IsAnswer_example :
    IsAnswer "" (read_pieces parse "m0" (ok "data: Hi\n" ∷ rest) "" start)
read_pieces-IsAnswer_example = read_pieces-IsAnswer parse "m0" (ok "data: Hi\n" ∷ rest) "" start

read_stream-IsHeard_example :
    IsHeard
      (read_pieces parse "m0" (map ok cut) "" start)
      (read_stream
        (map_chunks
          (map_stream_chunk ProviderId.anthropic)
          (read_pieces parse "m0" (map ok cut) "" start))
        no_reply).1
read_stream-IsHeard_example = read_stream-IsHeard parse ProviderId.anthropic "m0" (map ok cut)

-- A response is its status, and the network is the list of the requests.
abbrev status_for : Option ℕ → ℕ
status_for none = 200
status_for (some n) = 400

abbrev answer : OpenAiApiResponse
answer = record { model = "m"; choices = []; usage = none }

abbrev Network : Type 0
Network = List (OpenAiApiRequest String)

abbrev http : Http Network String ℕ String
http = record {
  post = λ url r a w. (ok (status_for r.max_tokens), w ++ r ∷ []);
  status = λ status. status;
  status_text = λ status. "400 Bad Request";
  text = λ status w. (ok "use max_completion_tokens", w);
  json = λ status w. (ok answer, w);
  bytes_stream = λ status. map ok cut;
  from_utf8 = λ bytes. ok bytes;
  schema_from_str = some;
  error_from_str = λ body. some (record { message = body });
  chunk_from_str = parse;
}

abbrev http-Logging : Logging http (λ w. w)
http-Logging = record { post = λ url r a w. refl; text = λ r w. refl; json = λ r w. refl }

abbrev request : ModelRequest
request = set_max_tokens (add_message (builder "m") (message Role.user "hello")) 5

abbrev key : OpenAiAuth
key = api_key (record { value = "sk-1" })

abbrev asked : OpenAiRequest
asked = build_request "m0" request false

complete_posts_example :
    let both = max_tokens_parameter ∷ max_completion_tokens_parameter ∷ [] in
    Posted http new_transport
      (λ w. w)
      http-Logging
      asked
      both
      []
      (complete http new_transport asked key []).1
    × Posted http new_transport
        (λ w. w)
        http-Logging
        asked
        both
        []
        (stream http new_transport asked key []).1
complete_posts_example = complete_posts http new_transport (λ w. w) http-Logging asked key []

send_with_each-found_example :
    (send_with_each http new_transport asked key token_parameters []).0 ≢ ok none
send_with_each-found_example = send_with_each-found http new_transport asked key []

complete_with-fallback_example :
    SameAsked
      (http_transport http new_transport)
      (pure key)
      into_model_response
      into_stream_event
      "m0"
      request
      []
complete_with-fallback_example =
    complete_with-fallback (http_transport http new_transport) (pure key) into_model_response
      into_stream_event "m0" request []

-- The second request is the one that is taken.
taken :
    let (r, log) = send_with_each http new_transport asked key token_parameters [] in
    (r ≡ ok (some 200)) × (length log ≡ 2)
unfolding send_with_each build_request ◌>>=◌ build_api_request_with_token_parameter collect_map
    api_message from_message is_blank api_tools is_success contains_text of_kind kind_of_status
    extract_error_message is_prefix builder add_message set_max_tokens new_transport
taken = (refl, refl)
