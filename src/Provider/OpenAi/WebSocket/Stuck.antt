-- ===== src/Provider/OpenAi/WebSocket/Stuck.antt =====
-- What `stream` of fprovider/src/adapters/openai/responses_ws.rs does with a connection that has ended.
use fiddlesticks.Base.{false, Option, none, some, [], ◌∷◌, ◌≡◌, ◌≢◌, refl}
use fiddlesticks.Exec.{Result, ok, err, no_return, Exec, found_or, on_part}
use fiddlesticks.Exec.Keeps.{Keeps, Keeps-lift, Keeps-bind, Keeps-catch_into}
use fiddlesticks.Provider.Error.{ProviderError}
use fiddlesticks.Provider.OpenAi.Types.{
  OpenAiRequest, OpenAiResponse, OpenAiAuth, OpenAiChunkStream,
}
use fiddlesticks.Provider.OpenAi.Responses.{Json, ResponsesEventAccumulator, new_accumulator}
use fiddlesticks.Provider.OpenAi.WebSocket.{
  WsConnectionState, Socket, Connected, not_connected, Ws, OpenAiResponsesWebSocketTransport,
  read_on, then_read, in_world, should_reconnect, auth_cache_key_of, ensure_connection,
  send_create_request, listen, ws_reading,
}
use fiddlesticks.Provider.OpenAi.WebSocket.Agreement.{result_of}

-- No response came, and the connection is as it was.
pub record Stuck {W : Type 0} (s : WsConnectionState) (read : OpenAiChunkStream × Connected W)
    : Type 0 where
  pub no_response : (r : OpenAiResponse) → result_of read.0 ≢ ok r
  pub state : read.1.state ≡ s

module _ {W : Type 0} {E A : Type 0} where
  in_world-Keeps : (m : Exec W E A) → Keeps (λ (c : Connected W). c.state) (in_world m)
  unfolding in_world on_part
  in_world-Keeps m = record { at = λ c. refl }

module _ {W Value : Type 0} (ws : Ws W) (json : Json Value)
    (transport : OpenAiResponsesWebSocketTransport) where
  send-Keeps :
      (request : OpenAiRequest)
      → Keeps (λ (c : Connected W). c.state) (send_create_request ws json transport request)
  unfolding send_create_request
  send-Keeps request =
      Keeps-bind _ _ (Keeps-lift _) (λ payload. Keeps-catch_into _ _ (in_world-Keeps _))

  sent-Stuck :
      (s : WsConnectionState) (acc : ResponsesEventAccumulator)
      (r : Result ProviderError (Unit {0})) (c : Connected W)
      → c.state ≡ s
      → Stuck s (read_on r (λ sent. listen ws json transport [] acc) c)
  unfolding listen result_of
  sent-Stuck s acc (ok u) c e = record { no_response = λ r g. cc; state = e }
  sent-Stuck s acc (err x) c e = record { no_response = λ r g. cc; state = e }
  sent-Stuck s acc no_return c e = record { no_response = λ r g. cc; state = e }

  ensured :
      (auth : OpenAiAuth) (c : Connected W)
      → should_reconnect (ws.now c.world) (auth_cache_key_of auth) c.state ≡ false
      → ensure_connection ws json transport auth c ≡ (ok tt, c)
  unfolding ensure_connection
  ensured auth c e = rw e refl

  on_ended :
      (request : OpenAiRequest) (c : Connected W) (socket : Option Socket)
      → socket ≡ some []
      → Stuck c.state (
          read_on
            (found_or (not_connected ws json transport) socket)
            (λ s.
              then_read
                (send_create_request ws json transport request)
                (λ sent. listen ws json transport s (new_accumulator request.model)))
            c)
  unfolding then_read
  on_ended request c none e = cc
  on_ended request c (some []) e =
      let sent = send_create_request ws json transport request c in
      sent-Stuck c.state (new_accumulator request.model) sent.0 sent.1 ((send-Keeps request).at c)
  on_ended request c (some (m ∷ ms)) e = cc

  -- Once the connection has ended, and as long as it is young enough and the key is the same, a
  -- streamed request never gets a response, and it leaves the ended connection in its place for the
  -- next one.
  pub ws_reading-Stuck :
      (request : OpenAiRequest) (auth : OpenAiAuth) (c : Connected W)
      → c.state.socket ≡ some []
      → should_reconnect (ws.now c.world) (auth_cache_key_of auth) c.state ≡ false
      → Stuck c.state (ws_reading ws json transport request auth c)
  unfolding ws_reading then_read
  ws_reading-Stuck request auth c ended young =
      rw (ensured auth c young) (on_ended request c c.state.socket ended)
