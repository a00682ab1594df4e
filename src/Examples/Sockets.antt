-- ===== src/Examples/Sockets.antt =====
-- A web socket that answers in two pieces, and one that has ended.
use fiddlesticks.Base.{
  ℕ, ◌+◌, String, false, Option, none, some, List, [], ◌∷◌, if◌then◌else◌, ◌==◌, string_eq, ◌≡◌,
  refl,
}
use fiddlesticks.Exec.{ok}
use fiddlesticks.Provider.Model.{message, Role}
use fiddlesticks.Provider.Request.{builder, add_message}
use fiddlesticks.Provider.OpenAi.Types.{OpenAiRequest, OpenAiAuth, api_key}
use fiddlesticks.Provider.OpenAi.Adapters.{build_request}
use fiddlesticks.Provider.OpenAi.Responses.{Json}
use fiddlesticks.Provider.OpenAi.WebSocket.{
  text, ping, Connected, Ws, new_ws_transport, ws_complete, ws_reading, should_reconnect,
  auth_cache_key_of,
}
use fiddlesticks.Provider.OpenAi.WebSocket.Agreement.{Agrees, ws_complete-Agrees}
use fiddlesticks.Provider.OpenAi.WebSocket.Stuck.{Stuck, ws_reading-Stuck}

-- A value is a text, or an object whose values are texts.
data Value : Type 0 where
  str : String → Value
  obj : List (String × String) → Value

field : String → List (String × String) → Option Value
field key [] = none
field key ((k, v) ∷ fields) = let rest = field key fields in if k == key then some (str v) else rest

abbrev member : String → Value → Option Value
member key (str s) = none
member key (obj fields) = field key fields

abbrev as_text : Value → Option String
as_text (str s) = some s
as_text (obj fields) = none

abbrev event : String → Value
event s =
    if s == "completed"
    then obj (("type", "response.completed") ∷ [])
    else obj (("type", "response.output_text.delta") ∷ ("delta", s) ∷ [])

abbrev json : Json Value
json = record {
  null = obj [];
  get = member;
  as_str = as_text;
  as_array = λ v. none;
  as_u64 = λ v. none;
  string = str;
  bool = λ b. str "false";
  float = λ x. str "0";
  integer = λ n. str "0";
  array = λ vs. str "[]";
  object = λ fields. obj [];
  from_str = λ s. ok (event s);
  to_string = λ v. "{}";
}

abbrev ws : Ws ℕ
ws = record {
  now = λ w. w;
  connect = λ url h w.
      (ok (ok (text "Hel") ∷ ok (ping "p") ∷ ok (text "lo") ∷ ok (text "completed") ∷ []), w + 1);
  send = λ m w. (ok tt, w + 1);
}

abbrev key : OpenAiAuth
key = api_key (record { value = "sk-1" })

abbrev asked : OpenAiRequest
asked = build_request "m0" (add_message (builder "m") (message Role.user "hello")) false

abbrev unconnected : Connected ℕ
unconnected = record {
  state = record { socket = none; connected_at = none; auth_cache_key = none };
  world = 0;
}

ws_complete-Agrees_example :
    Agrees
      (ws_complete ws json new_ws_transport asked key unconnected)
      (ws_reading ws json new_ws_transport asked key unconnected)
ws_complete-Agrees_example = ws_complete-Agrees ws json new_ws_transport asked key unconnected

abbrev ended : Connected ℕ
ended = record {
  state = record { socket = some []; connected_at = some 5; auth_cache_key = some "api:sk-1" };
  world = 60;
}

young : should_reconnect (ws.now ended.world) (auth_cache_key_of key) ended.state ≡ false
unfolding should_reconnect auth_cache_key_of
young = refl

ws_reading-Stuck_example : Stuck ended.state (ws_reading ws json new_ws_transport asked key ended)
ws_reading-Stuck_example = ws_reading-Stuck ws json new_ws_transport asked key ended refl young
