-- ===== src/Provider/OpenAi/Adapters.antt =====
-- The providers of fprovider/src/adapters: openai/provider.rs, openai/auth.rs, anthropic.rs,
-- opencode_zen.rs and ollama.rs.
pub mod Mapped
use fiddlesticks.Base.{
  String, Bool, true, false, Option, none, some, List, [], ◌∷◌, ◌++◌, map, if◌then◌else◌, is_blank,
  is_prefix,
}
use fiddlesticks.Exec.{
  Result, ok, err, no_return, Exec, lift, pure, raise, ok_or, ◌>>=◌, ◌>>◌, on_part,
}
use fiddlesticks.Provider.Error.{ProviderError}
use fiddlesticks.Provider.Model.{
  ProviderId, open_ai, anthropic, open_code_zen, ollama, ModelResponse, message, Role,
}
use fiddlesticks.Provider.Request.{ModelRequest, validate}
use fiddlesticks.Provider.Stream.{
  ModelProvider, StreamEvent, text_delta, tool_call_delta, message_complete, response_complete,
  EventStream,
}
use fiddlesticks.Provider.Credentials.{
  SecretString, SecureCredentialManager, Vault, authentication_error,
}
use fiddlesticks.Provider.Credentials.Manager.{api_key_of, set_api_key}
use fiddlesticks.Provider.OpenAi.Types.{
  OpenAiRequest, OpenAiMessage, OpenAiResponse, OpenAiAuth, api_key, OpenAiStreamChunk, text_chunk,
  tool_call_chunk, message_chunk, response_chunk, OpenAiTransport, OpenAiChunkStream, from_message,
  from_tool_result, from_tool_definition, into_model_response, into_stream_event, into_tool_call,
}

-- `build_openai_request` and the three functions `build_request`, which are the same.
unfoldable pub build_request : (fallback_model : String) → ModelRequest → Bool → OpenAiRequest
build_request fallback_model request stream = record {
  model = if is_blank request.model then fallback_model else request.model;
  messages = map from_message request.messages ++ map from_tool_result request.tool_results;
  tools = map from_tool_definition request.tools;
  temperature = request.options.temperature;
  max_tokens = request.options.max_tokens;
  stream = stream;
}

-- `mapped.provider = id`
unfoldable pub response_of : ProviderId → OpenAiResponse → ModelResponse
unfolding into_model_response
response_of id r = record (into_model_response r) { provider = id }

-- `map_stream_chunk` of the three other adapters.
unfoldable pub map_stream_chunk : ProviderId → OpenAiStreamChunk → StreamEvent
unfolding response_of into_tool_call
map_stream_chunk id (text_chunk delta) = text_delta delta
map_stream_chunk id (tool_call_chunk call) = tool_call_delta (into_tool_call call)
map_stream_chunk id (message_chunk m) = message_complete (message Role.assistant m.content)
map_stream_chunk id (response_chunk r) = response_complete (response_of id r)

-- `while let Some(chunk) = chunks.next().await { yield f(chunk?) }`: an error ends the stream.
unfoldable pub map_chunks : (OpenAiStreamChunk → StreamEvent) → OpenAiChunkStream → EventStream
map_chunks f [] = []
map_chunks f (ok chunk ∷ chunks) = ok (f chunk) ∷ map_chunks f chunks
map_chunks f (err e ∷ chunks) = err e ∷ []
map_chunks f (no_return ∷ chunks) = no_return ∷ []

module _ {W : Type 0} (transport : OpenAiTransport W) (fallback_model : String) where
  -- The body of `complete`, from the authentication and the translation of the response.
  unfoldable pub complete_with :
      Exec W ProviderError OpenAiAuth
      → (OpenAiResponse → ModelResponse)
      → ModelRequest
      → Exec W ProviderError ModelResponse
  complete_with resolve into request = do
    lift (validate request)
    auth ← resolve
    response ← transport.complete (build_request fallback_model request false) auth
    pure (into response)

  -- The body of `stream`.
  unfoldable pub stream_with :
      Exec W ProviderError OpenAiAuth
      → (OpenAiStreamChunk → StreamEvent)
      → ModelRequest
      → Exec W ProviderError EventStream
  stream_with resolve into request = do
    lift (validate request)
    auth ← resolve
    chunks ← transport.stream (build_request fallback_model request true) auth
    pure (map_chunks into chunks)

  -- The provider whose `complete` and `stream` are these.
  unfoldable pub provider_with :
      ProviderId
      → Exec W ProviderError OpenAiAuth
      → (OpenAiResponse → ModelResponse)
      → (OpenAiStreamChunk → StreamEvent)
      → ModelProvider W
  provider_with id resolve into into_event = record {
    id = id;
    complete = complete_with resolve into;
    stream = stream_with resolve into_event;
  }

abbrev pub no_key : ProviderId → String
no_key open_ai = "no OpenAI API key configured"
no_key anthropic = "no Anthropic credentials configured"
no_key open_code_zen = "no OpenCode Zen credentials configured"
no_key ollama = ""

module _ {W : Type 0} (manager : SecureCredentialManager W) where
  -- `resolve_openai_auth`, `resolve_anthropic_api_key` and `resolve_zen_api_key`
  unfoldable pub resolve_api_key : ProviderId → Exec (Vault W) ProviderError OpenAiAuth
  resolve_api_key id = do
    key ← api_key_of manager id
    secret ← ok_or (authentication_error (no_key id)) key
    pure (api_key secret)

  -- `set_openai_api_key`, `set_anthropic_api_key` and `set_opencode_zen_api_key`
  unfoldable pub set_openai_api_key : String → Exec (Vault W) ProviderError (Unit {0})
  set_openai_api_key key =
      if is_prefix "sk-" key
      then set_api_key manager open_ai key
      else raise (authentication_error "OpenAI API key must start with 'sk-'")

  unfoldable pub set_anthropic_api_key : String → Exec (Vault W) ProviderError (Unit {0})
  set_anthropic_api_key key =
      if is_prefix "sk-ant-" key
      then set_api_key manager anthropic key
      else raise (authentication_error "Anthropic API key must start with 'sk-ant-'")

  unfoldable pub set_opencode_zen_api_key : String → Exec (Vault W) ProviderError (Unit {0})
  set_opencode_zen_api_key key = set_api_key manager open_code_zen key

  module _ (transport : OpenAiTransport (Vault W)) (fallback_model : String) where
    -- `OpenAiProvider`
    unfoldable pub openai_provider : ModelProvider (Vault W)
    unfolding provider_with
    openai_provider =
        provider_with transport fallback_model open_ai (resolve_api_key open_ai) into_model_response
          into_stream_event

    -- `AnthropicProvider`
    unfoldable pub anthropic_provider : ModelProvider (Vault W)
    unfolding provider_with
    anthropic_provider =
        provider_with transport fallback_model anthropic (resolve_api_key anthropic)
          (response_of anthropic) (map_stream_chunk anthropic)

    -- `OpenCodeZenProvider`
    unfoldable pub zen_provider : ModelProvider (Vault W)
    unfolding provider_with
    zen_provider =
        provider_with transport fallback_model open_code_zen (resolve_api_key open_code_zen)
          (response_of open_code_zen) (map_stream_chunk open_code_zen)

-- `OllamaProvider`, with its placeholder for a key.
unfoldable pub ollama_provider :
    {W : Type 0} → OpenAiTransport W → (fallback_model : String) → ModelProvider W
unfolding provider_with
ollama_provider transport fallback_model =
    provider_with transport fallback_model ollama
      (pure (api_key (record { value = "ollama-local" }))) (response_of ollama)
      (map_stream_chunk ollama)
