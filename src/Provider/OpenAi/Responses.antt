-- ===== src/Provider/OpenAi/Responses.antt =====
-- The events of the Responses interface: `ResponsesEventAccumulator` and the functions below it in
-- fprovider/src/adapters/openai/responses_ws.rs. The JSON values of serde_json are a parameter.
pub mod Events
use Prim.Native.Nat.{Ordering}
use Prim.Native.String.{compare}
use fiddlesticks.Base.{
  ℕ, ◌^◌, String, Bool, false, not, ◌&&◌, ◌||◌, Option, none, some, List, [], ◌∷◌, if◌then◌else◌,
  ◌==◌, string_eq, eqb, is_empty_text, text_append, lowercase_eq,
}
use Prim.Native.Nat.{◌%◌}
use fiddlesticks.Exec.{Result, ok, err}
use fiddlesticks.Provider.Error.{ProviderError, ProviderErrorKind, of_kind}
use fiddlesticks.Provider.OpenAi.Types.{
  OpenAiResponse, OpenAiToolCall, OpenAiFinishReason, OpenAiUsage, OpenAiStreamChunk, text_chunk,
  tool_call_chunk, message_chunk, response_chunk,
}

-- What the code calls of serde_json's `Value`.
pub record Json (Value : Type 0) : Type 0 where
  pub null : Value
  pub get : String → Value → Option Value
  pub as_str : Value → Option String
  pub as_array : Value → Option (List Value)
  pub as_u64 : Value → Option ℕ
  pub string : String → Value
  pub bool : Bool → Value
  pub float : Option ℕ → Value
  pub integer : Option ℕ → Value
  pub array : List Value → Value
  pub object : List (String × Value) → Value
  pub from_str : String → Result String Value
  pub to_string : Value → String

abbrev pub or_text : String → Option String → String
or_text fallback none = fallback
or_text fallback (some s) = s

abbrev or_zero : Option ℕ → ℕ
or_zero none = 0
or_zero (some n) = n

abbrev pub or_else : Option String → Option String → Option String
or_else none other = other
or_else (some s) other = some s

-- `BTreeMap<String, OpenAiToolCall>`: the key of a call is its id, and the calls are in the order of
-- their ids. `entry(id).or_insert_with(..)` with a change gives the changed call too.
unfoldable pub change_call :
    String
    → (OpenAiToolCall → OpenAiToolCall)
    → List OpenAiToolCall
    → OpenAiToolCall × List OpenAiToolCall
change_call id f [] = let c = f (record { id = id; name = ""; arguments = "" }) in (c, c ∷ [])
change_call id f (d ∷ calls) =
    let rest = change_call id f calls in
    let c = f (record { id = id; name = ""; arguments = "" }) in
    elim (compare id d.id) [
      | Ordering.lt ↦ (c, c ∷ d ∷ calls)
      | Ordering.eq ↦ (f d, f d ∷ calls)
      | Ordering.gt ↦ (rest.0, d ∷ rest.1)
    ]

pub record ResponsesEventAccumulator : Type 0 where
  pub fallback_model : String
  pub text : String
  pub tool_calls : List OpenAiToolCall

-- `ResponsesEventAccumulator::new`
unfoldable pub new_accumulator : String → ResponsesEventAccumulator
new_accumulator fallback_model = record {
  fallback_model = fallback_model;
  text = "";
  tool_calls = [];
}

unfoldable pub error_kind : String → ℕ → ProviderErrorKind
error_kind code status =
    if code == "previous_response_not_found" || code == "websocket_connection_limit_reached"
    then ProviderErrorKind.invalid_request
    else if eqb status 401 || eqb status 403
    then ProviderErrorKind.authentication
    else if eqb status 408 || eqb status 504
    then ProviderErrorKind.timeout
    else if eqb status 429
    then ProviderErrorKind.rate_limited
    else if eqb status 400 || eqb status 422
    then ProviderErrorKind.invalid_request
    else if eqb status 502 || eqb status 503
    then ProviderErrorKind.unavailable
    else ProviderErrorKind.transport

-- `match` on the reason in lower case.
unfoldable pub reason_of : String → OpenAiFinishReason
reason_of s =
    if lowercase_eq s "stop"
    then OpenAiFinishReason.stop
    else if lowercase_eq s "length" || lowercase_eq s "max_output_tokens"
    then OpenAiFinishReason.length
    else if lowercase_eq s "tool_calls" || lowercase_eq s "function_call"
    then OpenAiFinishReason.tool_calls
    else if lowercase_eq s "cancelled"
    then OpenAiFinishReason.cancelled
    else OpenAiFinishReason.other

unfoldable pub reason_of_status : String → OpenAiFinishReason
reason_of_status s =
    if s == "completed"
    then OpenAiFinishReason.stop
    else if s == "incomplete"
    then OpenAiFinishReason.length
    else if s == "cancelled"
    then OpenAiFinishReason.cancelled
    else OpenAiFinishReason.other

unfoldable pub set_name_and_arguments : String → String → OpenAiToolCall → OpenAiToolCall
set_name_and_arguments name delta c = record c {
  name = if is_empty_text name then c.name else name;
  arguments = text_append c.arguments delta;
}

unfoldable pub replace_some : Option String → Option String → OpenAiToolCall → OpenAiToolCall
replace_some name arguments c = record c {
  name = or_text c.name name;
  arguments = or_text c.arguments arguments;
}

module _ {Value : Type 0} (json : Json Value) where
  -- `v.get(key).and_then(Value::as_str)`, and the same on a value that may be missing.
  abbrev pub get_in : String → Option Value → Option Value
  get_in key none = none
  get_in key (some v) = json.get key v

  abbrev pub str_of : Option Value → Option String
  str_of none = none
  str_of (some v) = json.as_str v

  abbrev pub get_str : String → Value → Option String
  get_str key v = str_of (json.get key v)

  abbrev items_of : Option Value → List Value
  items_of none = []
  items_of (some v) = elim (json.as_array v) [ none ↦ [] | some xs ↦ xs ]

  abbrev pub or_null : Option Value → Value
  or_null none = json.null
  or_null (some v) = v

  abbrev get_u64 : String → Value → Option ℕ
  get_u64 key v = elim (json.get key v) [ none ↦ none | some n ↦ json.as_u64 n ]

  -- Whether the text under a key is this one.
  abbrev pub get_is : String → String → Value → Bool
  get_is key wanted v = elim (get_str key v) [ none ↦ false | some s ↦ s == wanted ]

  unfoldable pub map_ws_error : Value → ProviderError
  map_ws_error event =
      let error = or_null (json.get "error" event) in
      of_kind
        (error_kind (or_text "" (get_str "code" error)) (or_zero (get_u64 "status" event) % 2 ^ 16))
        (or_text "OpenAI websocket request failed" (get_str "message" error))

  -- The loop of `parse_message_text`, on the parts of the content.
  unfoldable pub text_of_parts : List Value → String
  text_of_parts [] = ""
  text_of_parts (part ∷ parts) =
      let rest = text_of_parts parts in
      if get_is "type" "output_text" part
      then text_append (or_text "" (get_str "text" part)) rest
      else rest

  unfoldable pub parse_message_text : Value → String
  unfolding text_of_parts
  parse_message_text item = text_of_parts (items_of (json.get "content" item))

  unfoldable pub parse_response_finish_reason : Value → OpenAiFinishReason
  parse_response_finish_reason response = elim (get_str "stop_reason" response) [
    | none ↦ reason_of_status (or_text "" (get_str "status" response))
    | some reason ↦ reason_of reason
  ]

  unfoldable pub parse_response_usage : Value → OpenAiUsage
  parse_response_usage response =
      let usage = or_null (json.get "usage" response) in
      record {
        prompt_tokens = or_zero (get_u64 "input_tokens" usage) % 2 ^ 32;
        completion_tokens = or_zero (get_u64 "output_tokens" usage) % 2 ^ 32;
        total_tokens = or_zero (get_u64 "total_tokens" usage) % 2 ^ 32;
      }

  -- The id of a call in an item.
  abbrev pub item_call_id : Value → String
  item_call_id item = or_text "tool_call_0" (or_else (get_str "call_id" item) (get_str "id" item))

  -- An item of the output, on the content and the calls so far.
  unfoldable pub read_output_item :
      Value → String × List OpenAiToolCall → String × List OpenAiToolCall
  unfolding parse_message_text change_call replace_some
  read_output_item item (content, calls) =
      let parsed = parse_message_text item in
      if get_is "type" "message" item
      then (
        if get_is "role" "assistant" item && not (is_empty_text parsed) then parsed else content,
        calls,
      )
      else if get_is "type" "function_call" item
      then (
        content,
        (change_call (item_call_id item)
            (replace_some (some (or_text "" (get_str "name" item)))
              (some (or_text "" (get_str "arguments" item))))
            calls).1,
      )
      else (content, calls)

  unfoldable pub read_output :
      List Value → String × List OpenAiToolCall → String × List OpenAiToolCall
  unfolding read_output_item
  read_output [] so_far = so_far
  read_output (item ∷ items) so_far = read_output items (read_output_item item so_far)

  unfoldable pub parse_completed_response :
      Value → String → String → List OpenAiToolCall → OpenAiResponse
  unfolding read_output parse_response_finish_reason parse_response_usage
  parse_completed_response response fallback_model accumulated_text accumulated_tool_calls =
      let (content, calls) =
        read_output (items_of (json.get "output" response))
          (accumulated_text, accumulated_tool_calls) in
      record {
        model = or_text fallback_model (get_str "model" response);
        message = record { content = content; tool_calls = calls };
        finish_reason = parse_response_finish_reason response;
        usage = parse_response_usage response;
      }
