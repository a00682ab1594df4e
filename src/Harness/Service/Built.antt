-- ===== src/Harness/Service/Built.antt =====
-- What `HarnessBuilder::build` of fharness/src/harness.rs makes sure of.
use fiddlesticks.Base.{◌≤◌, Option, none, some, ◌≡◌, ◌⊎◌, inl, inr, refl, ap, sym, ◌∙◌}
use fiddlesticks.Exec.{Result, ok, err, no_return, and_then}
use fiddlesticks.Provider.Stream.{ModelProvider}
use fiddlesticks.Tooling.Types.{ToolRuntime}
use fiddlesticks.Chat.Service.{ChatService, new_service, with_policy, with_tool_runtime}
use fiddlesticks.Memory.Adapter.{memory_conversation_store}
use fiddlesticks.Harness.Error.{HarnessError, HarnessErrorKind}
use fiddlesticks.Harness.Types.{validate, max_features_per_run_limit}
use fiddlesticks.Harness.Types.Policy.{Limited, validate_iff, policy_kind, policy_returns}
use fiddlesticks.Harness.Service.{
  RunPolicy, Harness, HarnessBuilder, no_provider, add_tools, harness_of, build,
}

-- The policy allows a turn, and a feature where its mode sets a limit.
abbrev pub Allowed : RunPolicy → Type 0
Allowed p =
    (1 ≤ p.max_turns_per_run) × Limited p.max_features_per_run (max_features_per_run_limit p)

refused : {r : Result HarnessError (Unit {0})} {e : HarnessError} → r ≡ err e → ¬ (r ≡ ok tt)
refused h g = cc

module _ {B W : Type 0} where
  -- A harness with the policy of its builder, which is accepted, and with a chat service on its own
  -- memory with the builder's provider, tools and chat policy; or an error that says what is wrong.
  abbrev pub Built : HarnessBuilder B W → Result HarnessError (Harness B W) → Type 0
  Built b (ok h) =
      (chat : ChatService B W) × (h.chat ≡ some chat)
      × (chat.store ≡ memory_conversation_store h.memory)
      × (some chat.provider ≡ b.provider)
      × (chat.tool_runtime ≡ b.tool_runtime)
      × (chat.policy ≡ b.chat_policy)
      × (h.memory ≡ b.memory)
      × (h.run_policy ≡ b.run_policy)
      × Allowed h.run_policy
  Built b (err e) =
      ((e.kind ≡ HarnessErrorKind.invalid_request)
        × (validate b.run_policy ≡ err e)
        × ¬ Allowed b.run_policy)
      ⊎ ((e.kind ≡ HarnessErrorKind.not_ready) × Allowed b.run_policy × (b.provider ≡ none))
  Built b no_return = ⊥

  -- The tool runtime is the only thing that it replaces.
  add_tools_lem :
      (tools : Option (ToolRuntime W)) (c : ChatService B W)
      → c.tool_runtime ≡ none
      → ((add_tools tools c).store ≡ c.store)
        × ((add_tools tools c).provider ≡ c.provider)
        × ((add_tools tools c).tool_runtime ≡ tools)
        × ((add_tools tools c).policy ≡ c.policy)
  unfolding add_tools with_tool_runtime
  add_tools_lem none c h = (refl, refl, h, refl)
  add_tools_lem (some t) c h = (refl, refl, refl, refl)

  made :
      (b : HarnessBuilder B W) (o : Option (ModelProvider W))
      → b.provider ≡ o
      → validate b.run_policy ≡ ok tt
      → Built b (harness_of b o)
  unfolding harness_of no_provider new_service with_policy
  made b none e h = inr (refl, (validate_iff b.run_policy).0 h, e)
  made b (some provider) e h =
      let service =
        with_policy b.chat_policy (new_service provider (memory_conversation_store b.memory)) in
      let (store, same, tools, policy) = add_tools_lem b.tool_runtime service refl in
      (
        add_tools b.tool_runtime service,
        refl,
        store,
        ap some same ∙ sym e,
        tools,
        policy,
        refl,
        refl,
        (validate_iff b.run_policy).0 h,
      )

  checked :
      (b : HarnessBuilder B W) (r : Result HarnessError (Unit {0}))
      → validate b.run_policy ≡ r
      → Built b (and_then r (λ _. harness_of b b.provider))
  checked b (ok tt) h = made b b.provider refl h
  checked b (err e) h =
      inl (policy_kind b.run_policy e h, h, λ a. refused h ((validate_iff b.run_policy).1 a))
  checked b no_return h = policy_returns b.run_policy h

  -- Building a harness ends. It gives one that obeys the run policy of the builder, which allows a
  -- turn and a feature, and whose chat service has the provider, the tools and the chat policy of the
  -- builder and keeps its transcripts in the harness's own memory; or it fails, as an invalid request
  -- with the error of the policy's validation if the run policy does not allow a turn and a feature,
  -- and as not ready if it does and no provider is set.
  pub build-Built : (b : HarnessBuilder B W) → Built b (build b)
  unfolding build
  build-Built b = checked b (validate b.run_policy) refl
