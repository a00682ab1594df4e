-- ===== src/Provider/OpenAi/Payload.antt =====
-- `build_response_create_payload` of fprovider/src/adapters/openai/responses_ws.rs.
use fiddlesticks.Base.{String, false, not, ◌&&◌, [], ◌∷◌, if◌then◌else◌, is_blank, is_empty}
use fiddlesticks.Exec.{Result, ok, err, and_then, found_or, map_err, collect_map}
use fiddlesticks.Provider.Error.{ProviderError}
use fiddlesticks.Provider.OpenAi.Types.{
  OpenAiRole, role_name, OpenAiMessage, OpenAiTool, OpenAiRequest,
}
use fiddlesticks.Provider.OpenAi.Api.{invalid, is_assistant}
use fiddlesticks.Provider.OpenAi.Responses.{Json}

module _ {Value : Type 0} (json : Json Value) where
  -- `json!({..})` with texts as values.
  abbrev text_at : String → String → String × Value
  text_at key s = (key, json.string s)

  tool_output : OpenAiMessage → Result ProviderError Value
  tool_output m =
      and_then (found_or (invalid "OpenAI tool message is missing tool_call_id") m.tool_call_id)
        λ call_id. ok (
          json.object (
            text_at "type" "function_call_output"
            ∷ text_at "call_id" call_id
            ∷ text_at "output" m.content
            ∷ []))

  said_input : OpenAiMessage → Result ProviderError Value
  said_input m =
      if is_blank m.content && not (is_assistant m.role)
      then err (invalid "OpenAI message content must not be empty")
      else ok (
          json.object (
            text_at "type" "message"
            ∷ text_at "role" (role_name m.role)
            ∷ (
              "content",
              json.array
                  (json.object (text_at "type" "input_text" ∷ text_at "text" m.content ∷ []) ∷ []),
            )
            ∷ []))

  -- The body of the loop over the messages.
  unfoldable pub input_of : OpenAiMessage → Result ProviderError Value
  unfolding tool_output said_input
  input_of m = elim m.role [
    | OpenAiRole.tool ↦ tool_output m
    | OpenAiRole.system ↦ said_input m
    | OpenAiRole.user ↦ said_input m
    | OpenAiRole.assistant ↦ said_input m
  ]

  -- The body of the loop over the tools.
  unfoldable pub tool_of : OpenAiTool → Result ProviderError Value
  tool_of t =
      and_then
        (map_err (λ e. invalid "OpenAI tool schema must be valid JSON")
          (json.from_str t.input_schema))
        λ parameters. ok (
          json.object (
            text_at "type" "function"
            ∷ text_at "name" t.name
            ∷ text_at "description" t.description
            ∷ ("parameters", parameters)
            ∷ []))

  unfoldable pub build_response_create_payload : OpenAiRequest → Result ProviderError Value
  unfolding input_of tool_of
  build_response_create_payload r = and_then (collect_map input_of r.messages) λ input.
      if is_empty input
      then err (invalid "OpenAI request requires at least one message")
      else and_then (collect_map tool_of r.tools) λ tools. ok (
          json.object (
            text_at "type" "response.create"
            ∷ text_at "model" r.model
            ∷ ("store", json.bool false)
            ∷ ("input", json.array input)
            ∷ ("tools", json.array tools)
            ∷ ("temperature", json.float r.temperature)
            ∷ ("max_output_tokens", json.integer r.max_tokens)
            ∷ []))
