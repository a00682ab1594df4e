-- ===== src/Tooling/Registry.antt =====
-- ftooling/src/registry.rs: tools by the name in their definition.
use fiddlesticks.Base.{
  ℕ, String, Bool, Option, some, List, map, ◌≡◌, if◌then◌else◌, ◌==◌, string_eq,
}
use fiddlesticks.Common.Registry as Common
use fiddlesticks.Common.Registry.{Registry}
use fiddlesticks.Exec.{Exec}
use fiddlesticks.Provider.Model.{ToolDefinition}
use fiddlesticks.Tooling.Error.{ToolError}
use fiddlesticks.Tooling.Types.{Tool, ToolExecutionContext}

pub record ToolRegistry (W : Type 0) : Type 0 where
  pub tools : Registry String (Tool W)

module _ {W : Type 0} where
  unfoldable pub new : ToolRegistry W
  new = record { tools = Common.new }

  -- A tool under a name that is taken replaces the tool that had it.
  unfoldable pub register : ToolRegistry W → Tool W → ToolRegistry W
  register r tool = record { tools = (Common.insert r.tools tool.definition.name tool).1 }

  -- `register_fn`, and `register_sync_fn` with a handler that does not wait.
  unfoldable pub register_fn :
      ToolRegistry W
      → ToolDefinition
      → (String → ToolExecutionContext → Exec W ToolError String)
      → ToolRegistry W
  unfolding register
  register_fn r definition handler =
      register r (record { definition = definition; invoke = handler })

  unfoldable pub get : ToolRegistry W → String → Option (Tool W)
  get r name = Common.get r.tools name

  unfoldable pub contains : ToolRegistry W → String → Bool
  contains r name = Common.contains_key r.tools name

  unfoldable pub remove : ToolRegistry W → String → Option (Tool W) × ToolRegistry W
  remove r name = let (tool, tools) = Common.remove r.tools name in (tool, record { tools = tools })

  unfoldable pub definitions : ToolRegistry W → List ToolDefinition
  definitions r = map (λ t. t.definition) (Common.values r.tools)

  unfoldable pub len : ToolRegistry W → ℕ
  len r = Common.len r.tools

  unfoldable pub is_empty : ToolRegistry W → Bool
  is_empty r = Common.is_empty r.tools

  pub get-register :
      (r : ToolRegistry W) (tool : Tool W) (name : String)
      → get (register r tool) name
        ≡ (if tool.definition.name == name then some tool else get r name)
  unfolding get register
  get-register r tool name = (Common.insert_lem r.tools tool.definition.name name tool).1
