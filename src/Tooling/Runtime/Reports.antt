-- ===== src/Tooling/Runtime/Reports.antt =====
-- What `DefaultToolRuntime::execute` of ftooling/src/runtime.rs tells its hooks.
use fiddlesticks.Base.{
  ℕ, String, Option, none, some, List, [], ◌∷◌, ◌++◌, ◌≡◌, refl, sym, ap, ◌∙◌, append_assoc,
  append-nil,
}
use fiddlesticks.Exec.{Result, ok, err, no_return, Exec}
use fiddlesticks.Exec.Keeps.{Keeps}
use fiddlesticks.Provider.Model.{ToolCall}
use fiddlesticks.Tooling.Error.{ToolError}
use fiddlesticks.Tooling.Types.{Tool, ToolExecutionContext, ToolExecutionResult, ToolRuntimeHooks}
use fiddlesticks.Tooling.Registry as Tools
use fiddlesticks.Tooling.Registry.{ToolRegistry}
use fiddlesticks.Tooling.Runtime.{
  Timing, DefaultToolRuntime, fail, settle, settle_race, invoke_tool, with_tool, execute,
}

pub data ToolEvent : Type 0 where
  started : ToolCall → ToolEvent
  succeeded : ToolCall → ToolExecutionResult → ToolEvent
  failed : ToolCall → ToolError → ToolEvent

-- A state with the log of what the hooks were told.
pub record Logged (V : Type 0) : Type 0 where
  pub rest : V
  pub log : List ToolEvent

abbrev pub log_of : {V : Type 0} → Logged V → List ToolEvent
log_of w = w.log

abbrev pub note : {V : Type 0} → ToolEvent → Logged V → Logged V
note e w = record w { log = w.log ++ e ∷ [] }

abbrev pub recording : {V : Type 0} → ToolRuntimeHooks (Logged V)
recording = record {
  on_execution_start = λ c x. note (started c);
  on_execution_success = λ c x r t. note (succeeded c r);
  on_execution_failure = λ c x e t. note (failed c e);
}

-- The last event of a call that came back.
abbrev pub ending : ToolCall → Result ToolError ToolExecutionResult → List ToolEvent
ending call (ok r) = succeeded call r ∷ []
ending call (err e) = failed call e ∷ []
ending call no_return = []

module _ {V : Type 0} (timing : Timing (Logged V)) (registry : ToolRegistry (Logged V))
    (timeout : Option ℕ) (call : ToolCall) (context : ToolExecutionContext) where
  -- A runtime whose hooks write to the log.
  abbrev pub recorded : DefaultToolRuntime (Logged V)
  recorded = record { registry = registry; hooks = recording; timeout = timeout }

  -- After what was logged, the end of the call is logged.
  abbrev Ends : List ToolEvent → Result ToolError ToolExecutionResult × Logged V → Type 0
  Ends log (r, w) = w.log ≡ log ++ ending call r

  settle-Ends :
      (started_at : ℕ) (r : Result ToolError String) (w : Logged V)
      → Ends w.log (settle timing recorded call context started_at r w)
  unfolding settle fail
  settle-Ends started_at (ok s) w = refl
  settle-Ends started_at (err e) w = refl
  settle-Ends started_at no_return w = sym (append-nil w.log)

  race-Ends :
      (started_at limit : ℕ) (o : Option (Result ToolError String)) (w : Logged V)
      → Ends w.log (settle_race timing recorded call context started_at limit o w)
  unfolding settle_race fail
  race-Ends started_at limit none w = refl
  race-Ends started_at limit (some r) w = settle-Ends started_at r w

  Ends-from :
      {log log' : List ToolEvent} (r : Result ToolError ToolExecutionResult × Logged V)
      → log ≡ log'
      → Ends log r
      → Ends log' r
  Ends-from r e h = h ∙ ap (λ l. l ++ ending call r.0) e

  module _
      (invoke_silent : (tool : Tool (Logged V))
        → Tools.get registry call.name ≡ some tool
        → Keeps log_of (tool.invoke call.arguments context))
      (race_silent : (limit : ℕ) (m : Exec (Logged V) ToolError String)
        → Keeps log_of m
        → (w : Logged V) → log_of (timing.race limit m w).1 ≡ log_of w) where
    invoke-Ends :
        (t : Option ℕ) (started_at : ℕ) (tool : Tool (Logged V)) (w : Logged V)
        → Tools.get registry call.name ≡ some tool
        → Ends w.log (invoke_tool timing recorded call context t started_at tool w)
    unfolding invoke_tool
    invoke-Ends none started_at tool w e =
        let given = tool.invoke call.arguments context w in
        Ends-from (settle timing recorded call context started_at given.0 given.1)
          ((invoke_silent tool e).at w) (settle-Ends started_at given.0 given.1)
    invoke-Ends (some limit) started_at tool w e =
        let given = timing.race limit (tool.invoke call.arguments context) w in
        Ends-from (settle_race timing recorded call context started_at limit given.0 given.1)
          (race_silent limit _ (invoke_silent tool e) w)
          (race-Ends started_at limit given.0 given.1)

    with_tool-Ends :
        (o : Option (Tool (Logged V))) (started_at : ℕ) (w : Logged V)
        → Tools.get registry call.name ≡ o
        → Ends w.log (with_tool timing recorded call context o started_at w)
    unfolding with_tool fail
    with_tool-Ends none started_at w e = refl
    with_tool-Ends (some tool) started_at w e = invoke-Ends timeout started_at tool w e

    -- If the called tool and the race with the timer do not write to the log of the hooks, a call
    -- that comes back has logged exactly two events: that it started, and then its success with the
    -- result or its failure with the error that the caller gets. One that does not come back has
    -- logged that it started.
    pub execute-reports :
        (w : Logged V)
        → let r = execute timing recorded call context w in
          r.1.log ≡ w.log ++ (started call ∷ ending call r.0)
    unfolding execute
    execute-reports w =
        let w' = note (started call) w in
        with_tool-Ends (Tools.get registry call.name) (timing.now w) w' refl
        ∙ append_assoc w.log (started call ∷ []) _
