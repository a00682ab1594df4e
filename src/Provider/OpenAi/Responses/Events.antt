-- ===== src/Provider/OpenAi/Responses/Events.antt =====
-- `ResponsesEventAccumulator::handle_event` of fprovider/src/adapters/openai/responses_ws.rs.
use fiddlesticks.Base.{
  String, not, ◌&&◌, ◌||◌, Option, none, some, List, [], ◌∷◌, if◌then◌else◌, ◌==◌, string_eq,
  is_empty_text, text_append,
}
use fiddlesticks.Exec.{Result, ok, err}
use fiddlesticks.Provider.Error.{ProviderError}
use fiddlesticks.Provider.OpenAi.Types.{
  OpenAiToolCall, OpenAiStreamChunk, text_chunk, tool_call_chunk, message_chunk, response_chunk,
}
use fiddlesticks.Provider.OpenAi.Responses.{
  Json, get_in, parse_completed_response, parse_message_text, or_null, replace_some, or_else,
  or_text, set_name_and_arguments, ResponsesEventAccumulator, get_str, map_ws_error, get_is,
  change_call, item_call_id, str_of,
}

module _ {Value : Type 0} (json : Json Value) where
  -- `response.output_text.delta`
  unfoldable pub on_text_delta :
      String → ResponsesEventAccumulator → List OpenAiStreamChunk × ResponsesEventAccumulator
  on_text_delta delta acc =
      if is_empty_text delta
      then ([], acc)
      else (text_chunk delta ∷ [], record acc { text = text_append acc.text delta })

  -- A change of the call with an id, and the chunk with the changed call.
  unfoldable pub on_call :
      String
      → (OpenAiToolCall → OpenAiToolCall)
      → ResponsesEventAccumulator
      → List OpenAiStreamChunk × ResponsesEventAccumulator
  unfolding change_call
  on_call id f acc =
      let (c, calls) = change_call id f acc.tool_calls in
      (tool_call_chunk c ∷ [], record acc { tool_calls = calls })

  -- `response.function_call_arguments.delta`
  unfoldable pub on_arguments_delta :
      Value → ResponsesEventAccumulator → List OpenAiStreamChunk × ResponsesEventAccumulator
  unfolding on_call set_name_and_arguments
  on_arguments_delta event acc =
      let item = json.get "item" event in
      on_call
        (or_text "tool_call_0"
          (or_else (get_str json "call_id" event) (str_of json (get_in json "call_id" item))))
        (set_name_and_arguments
          (or_text "" (or_else (get_str json "name" event) (str_of json (get_in json "name" item))))
          (or_text "" (get_str json "delta" event)))
        acc

  -- `response.output_item.added` and `response.output_item.done`
  unfoldable pub on_output_item :
      Option Value → ResponsesEventAccumulator → List OpenAiStreamChunk × ResponsesEventAccumulator
  unfolding on_call replace_some parse_message_text
  on_output_item none acc = ([], acc)
  on_output_item (some item) acc =
      let said = parse_message_text json item in
      if get_is json "type" "function_call" item
      then on_call (item_call_id json item)
          (replace_some (get_str json "name" item) (get_str json "arguments" item)) acc
      else if get_is json "type" "message" item
          && is_empty_text acc.text
          && not (is_empty_text said)
      then ([], record acc { text = said })
      else ([], acc)

  -- `response.completed` and the three other events that end a response.
  unfoldable pub on_completed :
      Value → ResponsesEventAccumulator → List OpenAiStreamChunk × ResponsesEventAccumulator
  unfolding parse_completed_response
  on_completed response acc =
      let r = parse_completed_response json response acc.fallback_model acc.text acc.tool_calls in
      (message_chunk r.message ∷ response_chunk r ∷ [], acc)

  -- `ResponsesEventAccumulator::handle_event`
  unfoldable pub handle_event :
      Value
      → ResponsesEventAccumulator
      → Result ProviderError (List OpenAiStreamChunk × ResponsesEventAccumulator)
  unfolding on_text_delta on_arguments_delta on_output_item on_completed map_ws_error
  handle_event event acc =
      let event_type = or_text "" (get_str json "type" event) in
      if event_type == "error"
      then err (map_ws_error json event)
      else if event_type == "response.output_text.delta"
      then ok (on_text_delta (or_text "" (get_str json "delta" event)) acc)
      else if event_type == "response.function_call_arguments.delta"
      then ok (on_arguments_delta event acc)
      else if event_type == "response.output_item.added"
          || event_type == "response.output_item.done"
      then ok (on_output_item (json.get "item" event) acc)
      else if event_type == "response.completed"
          || event_type == "response.failed"
          || event_type == "response.incomplete"
          || event_type == "response.cancelled"
      then ok (on_completed (or_null json (json.get "response" event)) acc)
      else ok ([], acc)
