-- ===== src/Provider/OpenAi/WebSocket.antt =====
-- `OpenAiResponsesWebSocketTransport` of fprovider/src/adapters/openai/responses_ws.rs. The library for
-- web sockets, the clock and the JSON values are parameters. A socket is what still comes on it: its
-- messages, and then its end.
pub mod Agreement
pub mod Stuck
use fiddlesticks.Base.{
  ℕ, ◌-◌, String, Bool, true, false, not, ◌&&◌, ◌||◌, Option, none, some, List, [], ◌∷◌, ◌++◌, map,
  if◌then◌else◌, ◌==◌, string_eq, leb, concat,
}
use fiddlesticks.Base.Map.{is_some}
use fiddlesticks.Exec.{
  Result, ok, err, no_return, Exec, map_err, found_or, lift, pure, raise, ok_or, catch_into,
  on_part, on_result, ◌>>=◌, ◌>>◌,
}
use fiddlesticks.Provider.Error.{ProviderError, ProviderErrorKind, of_kind}
use fiddlesticks.Provider.OpenAi.Types.{
  OpenAiRequest, OpenAiResponse, OpenAiAuth, api_key, browser_session, OpenAiStreamChunk,
  text_chunk, tool_call_chunk, message_chunk, response_chunk, OpenAiChunkStream, OpenAiTransport,
}
use fiddlesticks.Provider.OpenAi.Transport.{Authorization, bearer_auth, header, transport_error}
use fiddlesticks.Provider.OpenAi.Responses.{Json, ResponsesEventAccumulator, new_accumulator}
use fiddlesticks.Provider.OpenAi.Responses.Events.{handle_event}
use fiddlesticks.Provider.OpenAi.Payload.{build_response_create_payload}

-- `tungstenite::Message`
pub data WsMessage : Type 0 where
  text ping pong : String → WsMessage
  close other : WsMessage

abbrev pub Socket : Type 0
Socket = List (Result String WsMessage)

pub record WsConnectionState : Type 0 where
  pub socket : Option Socket
  pub connected_at : Option ℕ
  pub auth_cache_key : Option String

-- The transport's connection beside the rest of the world.
pub record Connected (W : Type 0) : Type 0 where
  pub state : WsConnectionState
  pub world : W

-- What the code calls of the library for web sockets and of the clock, which does not go back. A header
-- that is not valid fails as a connection does.
pub record Ws (W : Type 0) : Type 0 where
  pub now : W → ℕ
  pub connect : (url : String) → Authorization → Exec W String Socket
  pub send : WsMessage → Exec W String (Unit {0})

pub record OpenAiResponsesWebSocketTransport : Type 0 where
  pub url : String

-- `OpenAiResponsesWebSocketTransport::new`
unfoldable pub new_ws_transport : OpenAiResponsesWebSocketTransport
new_ws_transport = record { url = "wss://api.openai.com/v1/responses" }

unfoldable pub with_url :
    OpenAiResponsesWebSocketTransport → String → OpenAiResponsesWebSocketTransport
with_url t url = record t { url = url }

-- In seconds.
abbrev pub connection_max_age : ℕ
connection_max_age = 3300

unfoldable pub auth_cache_key_of : OpenAiAuth → String
auth_cache_key_of (api_key key) = concat ("api:" ∷ key.value ∷ [])
auth_cache_key_of (browser_session session) = concat ("cookie:" ∷ session.value ∷ [])

-- The header of the request that opens the connection.
unfoldable pub ws_header : OpenAiAuth → Authorization
ws_header (api_key key) = bearer_auth key.value
ws_header (browser_session session) =
    header "Cookie" (concat ("__Secure-next-auth.session-token=" ∷ session.value ∷ []))

abbrev is_old : ℕ → Option ℕ → Bool
is_old now none = false
is_old now (some connected_at) = leb connection_max_age (now - connected_at)

abbrev has_key : String → Option String → Bool
has_key key none = false
has_key key (some k) = k == key

unfoldable pub should_reconnect : ℕ → String → WsConnectionState → Bool
should_reconnect now key s =
    is_old now s.connected_at || not (is_some s.socket) || not (has_key key s.auth_cache_key)

abbrev no_connection : WsConnectionState
no_connection = record { socket = none; connected_at = none; auth_cache_key = none }

abbrev closed : ProviderError
closed = transport_error "OpenAI websocket closed before response completed"

-- `ResponseComplete` among the chunks of an event.
unfoldable pub first_response : List OpenAiStreamChunk → Option OpenAiResponse
first_response [] = none
first_response (response_chunk r ∷ chunks) = some r
first_response (_ ∷ chunks) = first_response chunks

module _ {W : Type 0} where
  unfoldable pub in_world : {E A : Type 0} → Exec W E A → Exec (Connected W) E A
  in_world = on_part (λ c. c.world) (λ w c. record c { world = w })

  unfoldable pub set_socket : {E : Type 0} → Option Socket → Exec (Connected W) E (Unit {0})
  set_socket socket c = (ok tt, record c { state = record c.state { socket = socket } })

-- A stream that is read to its end: its items, and the state after it.
abbrev pub Reading : Type 0 → Type 0
Reading W = Connected W → OpenAiChunkStream × Connected W

module _ {W A : Type 0} where
  -- `?` in the block of a stream: an error is its last item.
  abbrev pub read_on : Result ProviderError A → (A → Reading W) → Reading W
  read_on (ok a) k c = k a c
  read_on (err e) k c = (err e ∷ [], c)
  read_on no_return k c = (no_return ∷ [], c)

  unfoldable pub then_read : Exec (Connected W) ProviderError A → (A → Reading W) → Reading W
  then_read m k c = let (r, c') = m c in read_on r k c'

module _ {W : Type 0} where
  -- The chunks of an event, and what follows unless a response is among them.
  unfoldable pub yield_chunks : List OpenAiStreamChunk → Reading W → Reading W
  yield_chunks chunks rest c =
      let (later, c') = rest c in
      if is_some (first_response chunks) then (map ok chunks, c) else (map ok chunks ++ later, c')

module _ {W Value : Type 0} (ws : Ws W) (json : Json Value)
    (transport : OpenAiResponsesWebSocketTransport) where
  unfoldable pub connect_anew : OpenAiAuth → ℕ → Exec (Connected W) ProviderError (Unit {0})
  unfolding in_world
  connect_anew auth now = do
    λ c. (ok tt, record c { state = no_connection })
    socket ← catch_into transport_error (in_world (ws.connect transport.url (ws_header auth)))
    λ c. (
      ok tt,
      record c {
        state = record {
          socket = some socket;
          connected_at = some now;
          auth_cache_key = some (auth_cache_key_of auth);
        };
      },
    )

  unfoldable pub ensure_connection : OpenAiAuth → Exec (Connected W) ProviderError (Unit {0})
  unfolding connect_anew
  ensure_connection auth c =
      let now = ws.now c.world in
      if should_reconnect now (auth_cache_key_of auth) c.state
      then connect_anew auth now c
      else (ok tt, c)

  unfoldable pub send_create_request : OpenAiRequest → Exec (Connected W) ProviderError (Unit {0})
  unfolding in_world
  send_create_request request = do
    payload ← lift (build_response_create_payload json request)
    catch_into transport_error (in_world (ws.send (text (json.to_string payload))))

  unfoldable pub send_pong : String → Exec (Connected W) ProviderError (Unit {0})
  unfolding in_world
  send_pong payload = catch_into transport_error (in_world (ws.send (pong payload)))

  -- The chunks of an event.
  unfoldable pub event_of :
      String
      → ResponsesEventAccumulator
      → Exec (Connected W) ProviderError (List OpenAiStreamChunk × ResponsesEventAccumulator)
  event_of t acc = do
    event ← lift (map_err transport_error (json.from_str t))
    lift (handle_event json event acc)

  -- The loop of `complete`, over what comes on the socket.
  abbrev or_receive :
      Option OpenAiResponse
      → Exec (Connected W) ProviderError OpenAiResponse
      → Exec (Connected W) ProviderError OpenAiResponse
  or_receive none rest = rest
  or_receive (some r) rest = pure r

  unfoldable pub receive :
      Socket → ResponsesEventAccumulator → Exec (Connected W) ProviderError OpenAiResponse
  unfolding event_of send_pong
  receive [] acc = set_socket none >> raise closed
  receive (ok (text t) ∷ rest) acc =
      set_socket (some rest)
      >> (event_of t acc >>= λ (chunks, acc').
          or_receive (first_response chunks) (receive rest acc'))
  receive (ok (ping payload) ∷ rest) acc =
      set_socket (some rest) >> (send_pong payload >> receive rest acc)
  receive (ok close ∷ rest) acc = set_socket none >> raise closed
  receive (ok (pong payload) ∷ rest) acc = set_socket (some rest) >> receive rest acc
  receive (ok other ∷ rest) acc = set_socket (some rest) >> receive rest acc
  receive (err e ∷ rest) acc = set_socket none >> raise (transport_error e)
  receive (no_return ∷ rest) acc = lift no_return

  abbrev not_connected : ProviderError
  not_connected = transport_error "OpenAI websocket not connected"

  -- `OpenAiTransport::complete`
  unfoldable pub ws_complete :
      OpenAiRequest → OpenAiAuth → Exec (Connected W) ProviderError OpenAiResponse
  unfolding ensure_connection send_create_request receive
  ws_complete request auth = do
    ensure_connection auth
    socket ← λ c. (found_or not_connected c.state.socket, c)
    on_result (send_create_request request) (λ sent. receive socket (new_accumulator request.model))
        (λ e. set_socket none >> raise e)

  -- The loop of `stream`, over what comes on the socket.
  unfoldable pub listen : Socket → ResponsesEventAccumulator → Reading W
  unfolding event_of send_pong then_read yield_chunks
  listen [] acc = λ c. (err closed ∷ [], c)
  listen (ok (text t) ∷ rest) acc =
      then_read (set_socket (some rest) >> event_of t acc)
        λ (chunks, acc'). yield_chunks chunks (listen rest acc')
  listen (ok (ping payload) ∷ rest) acc =
      then_read (set_socket (some rest) >> send_pong payload) λ sent. listen rest acc
  listen (ok close ∷ rest) acc =
      then_read (set_socket (some rest) >> raise closed) λ (u : Unit {0}). listen rest acc
  listen (ok (pong payload) ∷ rest) acc =
      then_read (set_socket (some rest)) λ popped. listen rest acc
  listen (ok other ∷ rest) acc = then_read (set_socket (some rest)) λ popped. listen rest acc
  listen (err e ∷ rest) acc =
      then_read (set_socket (some rest) >> raise (transport_error e))
        λ (u : Unit {0}). listen rest acc
  listen (no_return ∷ rest) acc = λ c. (no_return ∷ [], c)

  -- The block of `OpenAiTransport::stream`.
  unfoldable pub ws_reading : OpenAiRequest → OpenAiAuth → Reading W
  unfolding ensure_connection send_create_request listen
  ws_reading request auth = then_read (ensure_connection auth) λ connected.
      then_read (λ c. (found_or not_connected c.state.socket, c))
        λ socket.
          then_read (send_create_request request)
            λ sent. listen socket (new_accumulator request.model)

  unfoldable pub ws_stream :
      OpenAiRequest → OpenAiAuth → Exec (Connected W) ProviderError OpenAiChunkStream
  unfolding ws_reading
  ws_stream request auth c = let (items, c') = ws_reading request auth c in (ok items, c')

  -- `impl OpenAiTransport`
  unfoldable pub ws_transport : OpenAiTransport (Connected W)
  unfolding ws_complete ws_stream
  ws_transport = record { complete = ws_complete; stream = ws_stream }
