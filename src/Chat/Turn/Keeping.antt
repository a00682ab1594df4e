-- ===== src/Chat/Turn/Keeping.antt =====
-- What of a turn leaves the conversation store alone: fchat/src/service.rs.
use fiddlesticks.Base.{List, [], ◌∷◌, refl, Option, none, some, string_eq}
use fiddlesticks.Exec.{Exec, on_part}
use fiddlesticks.Exec.Keeps.{Keeps, keeps_rules}
use fiddlesticks.Common.{SessionId}
use fiddlesticks.Provider.Model.{Message, ToolCall, ProviderId}
use fiddlesticks.Provider.Request.{ModelRequest}
use fiddlesticks.Tooling.Types.{ToolRuntime}
use fiddlesticks.Chat.Service.{
  Platform, World, in_env, ChatService, TurnContext, complete_with_retry, execute_tool, run_tools,
}
use fiddlesticks.Chat.Turn.{ask_again}

abbrev pub store_of : {St W : Type 0} → World St W → St
store_of w = w.store

pub Keeps-in_env : {St W E A : Type 0} (m : Exec W E A) → Keeps store_of (in_env {St = St} m)
unfolding on_part
Keeps-in_env m = record { at = λ w. refl }

pub ruleset env_rules = (keeps_rules, Keeps-in_env)

-- Talking to the provider and to the tools leaves the store alone.
module _ {St W : Type 0} (platform : Platform W) (chat : ChatService St W) where
  pub complete-Keeps :
      (id : ProviderId) (r : ModelRequest) → Keeps store_of (complete_with_retry platform chat id r)
  unfolding complete_with_retry
  complete-Keeps id r = search env_rules

  pub tool-Keeps :
      (tools : Option (ToolRuntime W)) (id : SessionId) (call : ToolCall)
      → Keeps store_of (execute_tool platform chat tools id call)
  unfolding execute_tool
  tool-Keeps none id call = search env_rules
  tool-Keeps (some runtime) id call = search env_rules

  pub tools-Keeps :
      (id : SessionId) (calls : List ToolCall) → Keeps store_of (run_tools platform chat id calls)
  unfolding run_tools
  tools-Keeps id [] = search env_rules
  tools-Keeps id (call ∷ calls) =
      search (env_rules, tool-Keeps chat.tool_runtime id call, tools-Keeps id calls)

  pub ask_again-Keeps :
      (context : TurnContext) (conversation : List Message) (calls : List ToolCall)
      → Keeps store_of (ask_again platform chat context conversation calls)
  unfolding ask_again
  ask_again-Keeps context conversation calls = search (env_rules, complete-Keeps, tools-Keeps)
