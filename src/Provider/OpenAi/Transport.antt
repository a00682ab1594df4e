-- ===== src/Provider/OpenAi/Transport.antt =====
-- `OpenAiHttpTransport` of fprovider/src/adapters/openai/transport.rs. The client of HTTP, its
-- responses and the parser of JSON are parameters.
pub mod Tried
pub mod Posts
use Prim.Native.Char.{Char, code}
use fiddlesticks.Base.{
  ℕ, String, Bool, true, false, not, ◌&&◌, ◌||◌, Option, none, some, List, [], ◌∷◌, map,
  if◌then◌else◌, eqb, leb, ltb, concat, contains_text, trim_end_matches,
}
use fiddlesticks.Exec.{
  Result, ok, err, no_return, Exec, and_then, map_err, lift, pure, raise, ok_or, catch_into, ◌>>=◌,
}
use fiddlesticks.Provider.Error.{ProviderError, ProviderErrorKind, of_kind}
use fiddlesticks.Provider.OpenAi.Types.{
  OpenAiRequest, OpenAiResponse, OpenAiAuth, api_key, browser_session, OpenAiTransport,
  OpenAiChunkStream,
}
use fiddlesticks.Provider.OpenAi.Api.{
  OpenAiTokenParameter, max_tokens_parameter, max_completion_tokens_parameter, OpenAiApiRequest,
  OpenAiApiResponse, OpenAiApiStreamResponse, OpenAiApiErrorEnvelope, extract_error_message,
  build_api_request_with_token_parameter, openai_response, invalid,
}
use fiddlesticks.Provider.OpenAi.Sse.{start, read_pieces}

-- `reqwest::Error` of a request that could not be sent.
pub record RequestError : Type 0 where
  pub is_timeout : Bool
  pub text : String

-- `builder.bearer_auth(..)` and `builder.header(.., ..)`
pub data Authorization : Type 0 where
  bearer_auth : String → Authorization
  header : String → String → Authorization

-- What the code calls of reqwest, of serde_json and of `std::str`. `W` is the state of the network.
pub record Http (W Value Response Bytes : Type 0) : Type 0 where
  pub post : (url : String) → OpenAiApiRequest Value → Authorization → Exec W RequestError Response
  pub status : Response → ℕ
  pub status_text : Response → String
  pub text : Response → Exec W String String
  pub json : Response → Exec W String OpenAiApiResponse
  pub bytes_stream : Response → List (Result String Bytes)
  pub from_utf8 : Bytes → Result String String
  pub schema_from_str : String → Option Value
  pub error_from_str : String → Option OpenAiApiErrorEnvelope
  pub chunk_from_str : String → Result String OpenAiApiStreamResponse

pub record OpenAiHttpTransport : Type 0 where
  pub base_url : String

-- `OpenAiHttpTransport::new`
unfoldable pub new_transport : OpenAiHttpTransport
new_transport = record { base_url = "https://api.openai.com/v1" }

unfoldable pub with_base_url : OpenAiHttpTransport → String → OpenAiHttpTransport
with_base_url t url = record t { base_url = url }

unfoldable pub endpoint : OpenAiHttpTransport → String → String
endpoint t path = concat (trim_end_matches "/" t.base_url ∷ "/" ∷ path ∷ [])

unfoldable pub apply_auth : OpenAiAuth → Authorization
apply_auth (api_key key) = bearer_auth key.value
apply_auth (browser_session token) =
    header "Cookie" (concat ("__Secure-next-auth.session-token=" ∷ token.value ∷ []))

unfoldable pub is_success : ℕ → Bool
is_success status = leb 200 status && ltb status 300

-- The kind of the error for a status.
unfoldable pub kind_of_status : ℕ → ProviderErrorKind
kind_of_status status =
    if eqb status 401 || eqb status 403
    then ProviderErrorKind.authentication
    else if eqb status 429
    then ProviderErrorKind.rate_limited
    else if eqb status 408 || eqb status 504
    then ProviderErrorKind.timeout
    else if eqb status 400 || eqb status 422
    then ProviderErrorKind.invalid_request
    else if eqb status 503 || eqb status 502
    then ProviderErrorKind.unavailable
    else ProviderErrorKind.transport

abbrev or_message : String → Option String → String
or_message fallback none = fallback
or_message fallback (some m) = m

-- `send().await.map_err(..)`
unfoldable pub request_error : RequestError → ProviderError
request_error e =
    of_kind (if e.is_timeout then ProviderErrorKind.timeout else ProviderErrorKind.transport) e.text

abbrev pub transport_error : String → ProviderError
transport_error e = of_kind ProviderErrorKind.transport e

-- `unwrap_or_default()` on the text of a response.
abbrev or_default : {W : Type 0} → Result String String × W → Result ProviderError String × W
or_default (ok body, w) = (ok body, w)
or_default (err e, w) = (ok "", w)
or_default (no_return, w) = (no_return, w)

abbrev is_max_tokens : OpenAiTokenParameter → Bool
is_max_tokens max_tokens_parameter = true
is_max_tokens max_completion_tokens_parameter = false

abbrev pub token_parameters : List OpenAiTokenParameter
token_parameters = max_tokens_parameter ∷ max_completion_tokens_parameter ∷ []

abbrev pub not_accepted : ProviderError
not_accepted = invalid "OpenAI request did not accept supported token parameters"

module _ {W Value Response Bytes : Type 0} (http : Http W Value Response Bytes)
    (transport : OpenAiHttpTransport) where
  unfoldable pub parse_error : Response → Exec W ProviderError ProviderError
  parse_error response = do
    body ← λ w. or_default (http.text response w)
    let message =
        or_message (concat ("OpenAI request failed with status " ∷ http.status_text response ∷ []))
          (extract_error_message http.error_from_str body)
    pure (of_kind (kind_of_status (http.status response)) message)

  -- What the loop does with a response: it is accepted, or the next parameter is tried, or the error
  -- is returned.
  unfoldable pub accept : OpenAiTokenParameter → Response → Exec W ProviderError (Option Response)
  unfolding parse_error
  accept parameter response = if is_success (http.status response) then pure (some response) else do
    error ← parse_error response
    if is_max_tokens parameter && contains_text error.message "max_completion_tokens"
        then pure none
        else raise error

  -- The body of the loop, up to the response.
  unfoldable pub send :
      OpenAiRequest → OpenAiAuth → OpenAiTokenParameter → Exec W ProviderError (Option Response)
  unfolding accept
  send request auth parameter = do
    api_request ←
        lift (build_api_request_with_token_parameter http.schema_from_str request parameter)
    response ←
        catch_into request_error
          (http.post (endpoint transport "chat/completions") api_request (apply_auth auth))
    accept parameter response

  -- The loop over the parameters.
  abbrev or_next :
      Option Response
      → Exec W ProviderError (Option Response)
      → Exec W ProviderError (Option Response)
  or_next none next = next
  or_next (some response) next = pure (some response)

  unfoldable pub send_with_each :
      OpenAiRequest
      → OpenAiAuth
      → List OpenAiTokenParameter
      → Exec W ProviderError (Option Response)
  unfolding send
  send_with_each request auth [] = pure none
  send_with_each request auth (p ∷ ps) =
      send request auth p >>= λ found. or_next found (send_with_each request auth ps)

  unfoldable pub complete : OpenAiRequest → OpenAiAuth → Exec W ProviderError OpenAiResponse
  complete request auth = do
    found ← send_with_each request auth token_parameters
    response ← ok_or not_accepted found
    parsed ← catch_into transport_error (http.json response)
    lift (openai_response parsed)

  -- An item of the body: a read that failed, or bytes that are not UTF-8, is an error.
  unfoldable pub piece_of : Result String Bytes → Result ProviderError String
  piece_of item =
      and_then (map_err transport_error item)
        λ bytes. map_err transport_error (http.from_utf8 bytes)

  unfoldable pub stream : OpenAiRequest → OpenAiAuth → Exec W ProviderError OpenAiChunkStream
  unfolding piece_of
  stream request auth = do
    found ← send_with_each (record request { stream = true }) auth token_parameters
    response ← ok_or not_accepted found
    pure (
        read_pieces http.chunk_from_str request.model (map piece_of (http.bytes_stream response)) ""
          start)

  -- `impl OpenAiTransport`
  unfoldable pub http_transport : OpenAiTransport W
  unfolding complete stream
  http_transport = record { complete = complete; stream = stream }
