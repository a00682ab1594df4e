-- ===== src/Provider/OpenAi/WebSocket/Agreement.antt =====
-- The two ways to ask over a web socket, `complete` and `stream` of
-- fprovider/src/adapters/openai/responses_ws.rs.
use fiddlesticks.Base.{Option, none, some, List, [], ◌∷◌, ◌++◌, map, if◌then◌else◌, ◌≡◌, refl, ◌∙◌}
use fiddlesticks.Base.Map.{is_some}
use fiddlesticks.Exec.{
  Result, ok, err, no_return, Exec, found_or, lift, pure, raise, on_result, continue, branch, ◌>>=◌,
  ◌>>◌,
}
use fiddlesticks.Provider.Error.{ProviderError}
use fiddlesticks.Provider.OpenAi.Types.{
  OpenAiRequest, OpenAiResponse, OpenAiAuth, OpenAiStreamChunk, text_chunk, tool_call_chunk,
  message_chunk, response_chunk, OpenAiChunkStream,
}
use fiddlesticks.Provider.OpenAi.Responses.{Json, ResponsesEventAccumulator, new_accumulator}
use fiddlesticks.Provider.OpenAi.WebSocket.{
  text, ping, pong, close, other, Socket, Connected, Ws, OpenAiResponsesWebSocketTransport, Reading,
  read_on, then_read, first_response, set_socket, yield_chunks, or_receive, ensure_connection,
  send_create_request, send_pong, event_of, receive, listen, ws_complete, ws_reading, not_connected,
}

-- What a stream comes to: its response, or its error.
unfoldable pub result_of : OpenAiChunkStream → Result ProviderError OpenAiResponse
result_of [] = no_return
result_of (ok (response_chunk r) ∷ items) = ok r
result_of (ok (text_chunk delta) ∷ items) = result_of items
result_of (ok (tool_call_chunk c) ∷ items) = result_of items
result_of (ok (message_chunk m) ∷ items) = result_of items
result_of (err e ∷ items) = err e
result_of (no_return ∷ items) = no_return

-- The stream comes to the result, and leaves the same world behind.
pub record Agrees {W : Type 0} (answered : Result ProviderError OpenAiResponse × Connected W)
    (streamed : OpenAiChunkStream × Connected W) : Type 0 where
  pub result : result_of streamed.0 ≡ answered.0
  pub world : streamed.1.world ≡ answered.1.world

responded :
    (chunks : List OpenAiStreamChunk) (r : OpenAiResponse)
    → first_response chunks ≡ some r
    → result_of (map ok chunks) ≡ ok r
unfolding first_response result_of
responded [] r e = cc
responded (response_chunk q ∷ chunks) r e = cc
responded (text_chunk delta ∷ chunks) r e = responded chunks r e
responded (tool_call_chunk c ∷ chunks) r e = responded chunks r e
responded (message_chunk m ∷ chunks) r e = responded chunks r e

unresponded :
    (chunks : List OpenAiStreamChunk) (later : OpenAiChunkStream)
    → first_response chunks ≡ none
    → result_of (map ok chunks ++ later) ≡ result_of later
unfolding first_response result_of
unresponded [] later e = refl
unresponded (response_chunk q ∷ chunks) later e = cc
unresponded (text_chunk delta ∷ chunks) later e = unresponded chunks later e
unresponded (tool_call_chunk c ∷ chunks) later e = unresponded chunks later e
unresponded (message_chunk m ∷ chunks) later e = unresponded chunks later e

module _ {W A : Type 0} (f : A → Exec (Connected W) ProviderError OpenAiResponse)
    (k : A → Reading W) (agree : (a : A) (c : Connected W) → Agrees (f a c) (k a c)) where
  continue-Agrees :
      (r : Result ProviderError A) (c : Connected W) → Agrees (continue r f c) (read_on r k c)
  unfolding result_of
  continue-Agrees (ok a) c = agree a c
  continue-Agrees (err e) c = record { result = refl; world = refl }
  continue-Agrees no_return c = record { result = refl; world = refl }

  then_read-Agrees :
      (m : Exec (Connected W) ProviderError A) (c : Connected W)
      → Agrees ((m >>= f) c) (then_read m k c)
  unfolding ◌>>=◌ then_read
  then_read-Agrees m c = continue-Agrees (m c).0 (m c).1

module _ {W Value : Type 0} (ws : Ws W) (json : Json Value)
    (transport : OpenAiResponsesWebSocketTransport) where
  chosen-Agrees :
      (chunks : List OpenAiStreamChunk) (o : Option OpenAiResponse)
      (f : Exec (Connected W) ProviderError OpenAiResponse) (k : Reading W) (c : Connected W)
      → first_response chunks ≡ o
      → Agrees (f c) (k c)
      → Agrees
          (or_receive ws json transport o f c)
          (if is_some o then (map ok chunks, c) else (map ok chunks ++ (k c).0, (k c).1))
  unfolding pure
  chosen-Agrees chunks none f k c e a = record {
    result = unresponded chunks (k c).0 e ∙ a.result;
    world = a.world;
  }
  chosen-Agrees chunks (some r) f k c e a = record { result = responded chunks r e; world = refl }

  receive-Agrees :
      (messages : Socket) (acc : ResponsesEventAccumulator) (c : Connected W)
      → Agrees (receive ws json transport messages acc c) (listen ws json transport messages acc c)
  unfolding receive listen set_socket raise lift result_of then_read ◌>>=◌ yield_chunks
  receive-Agrees [] acc c = record { result = refl; world = refl }
  receive-Agrees (ok (text t) ∷ rest) acc c =
      then_read-Agrees _ _
        (λ (chunks, acc') c'.
          chosen-Agrees chunks (first_response chunks) _ (listen ws json transport rest acc') c'
            refl (receive-Agrees rest acc' c'))
        (event_of ws json transport t acc) _
  receive-Agrees (ok (ping payload) ∷ rest) acc c =
      then_read-Agrees _ _ (λ sent c'. receive-Agrees rest acc c')
        (send_pong ws json transport payload) _
  receive-Agrees (ok (pong payload) ∷ rest) acc c = receive-Agrees rest acc _
  receive-Agrees (ok close ∷ rest) acc c = record { result = refl; world = refl }
  receive-Agrees (ok other ∷ rest) acc c = receive-Agrees rest acc _
  receive-Agrees (err e ∷ rest) acc c = record { result = refl; world = refl }
  receive-Agrees (no_return ∷ rest) acc c = record { result = refl; world = refl }

  sent-Agrees :
      (socket : Socket) (acc : ResponsesEventAccumulator) (r : Result ProviderError (Unit {0}))
      (c : Connected W)
      → Agrees
          (branch r
            (λ sent. receive ws json transport socket acc)
            (λ e. set_socket none >> raise e)
            c)
          (read_on r (λ sent. listen ws json transport socket acc) c)
  unfolding set_socket raise lift result_of ◌>>=◌
  sent-Agrees socket acc (ok u) c = receive-Agrees socket acc c
  sent-Agrees socket acc (err e) c = record { result = refl; world = refl }
  sent-Agrees socket acc no_return c = record { result = refl; world = refl }

  -- Whatever comes on the socket, a streamed request comes to the response or the error that the same
  -- request gives when it is not streamed, and both leave the same world behind, the connection aside.
  pub ws_complete-Agrees :
      (request : OpenAiRequest) (auth : OpenAiAuth) (c : Connected W)
      → Agrees
          (ws_complete ws json transport request auth c)
          (ws_reading ws json transport request auth c)
  unfolding ws_complete ws_reading on_result then_read
  ws_complete-Agrees request auth =
      then_read-Agrees _ _
        (λ connected.
          then_read-Agrees _ _
            (λ socket c.
              let sent = send_create_request ws json transport request c in
              sent-Agrees socket (new_accumulator request.model) sent.0 sent.1)
            (λ c. (found_or (not_connected ws json transport) c.state.socket, c)))
        (ensure_connection ws json transport auth)
