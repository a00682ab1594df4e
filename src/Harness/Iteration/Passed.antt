-- ===== src/Harness/Iteration/Passed.antt =====
-- What the work on a feature in fharness/src/harness.rs leaves of the stored features.
use fiddlesticks.Base.{
  ℕ, zero, suc, ◌+◌, ◌-◌, ◌<◌, String, Bool, true, false, ◌||◌, Option, some, List, ◌≡◌, ap, ◌∙◌,
  ltb, leb, eqb, if◌then◌else◌, arith, ==_refl, string_eq, Bool-cases, inl, inr,
}
use fiddlesticks.Exec.{
  Result, ok, err, no_return, Exec, pure, raise, lift, catch_into, on_part, ◌>>◌,
}
use fiddlesticks.Exec.Rules.{bind_rule, on_result_rule, applied_ok}
use fiddlesticks.Exec.Keeps.{Keeps}
use fiddlesticks.Chat.Types.{ChatEvent}
use fiddlesticks.Chat.Service.{World, ChatService, in_env}
use fiddlesticks.Memory.Types.{FeatureRecord}
use fiddlesticks.Memory.Backend.{MemoryBackend}
use fiddlesticks.Memory.Laws.{MemoryLaws, pass_first, set_pass}
use fiddlesticks.Harness.Error.{HarnessError, of_memory_error}
use fiddlesticks.Harness.Types.{TaskIterationRequest}
use fiddlesticks.Harness.Service.{HarnessPlatform, Harness, in_memory}
use fiddlesticks.Harness.Iteration.{
  Progress, Flow, proceed, finished, pass, execute_turn, turn_request_for, on_chat_error,
  on_verdict, one_turn, turns_loop,
}
use fiddlesticks.Harness.Iteration.Exact.{turn_left}

module _ {B W : Type 0} {memory : MemoryBackend B} (laws : MemoryLaws memory)
    (request : TaskIterationRequest) where
  open laws use {read}

  -- The features of the session that are stored.
  abbrev pub stored : World B W → List FeatureRecord
  stored w = (read w.store request.session.id).feature_list

  -- Where the work on a feature goes on to the next one, that feature has passed, and no other
  -- feature has changed.
  abbrev pub Passed :
      FeatureRecord → List FeatureRecord → Result HarnessError Flow → World B W → Type 0
  Passed f fs (ok (proceed p)) w = stored w ≡ pass_first f.id true fs
  Passed f fs (ok (finished v)) w = Unit
  Passed f fs (err e) w = Unit
  Passed f fs no_return w = Unit

module _ {B W : Type 0} (platform : HarnessPlatform W) (h : Harness B W) (chat : ChatService B W)
    (observer : Option (ChatEvent → W → W)) (laws : MemoryLaws h.memory)
    (request : TaskIterationRequest) where
  open laws use {read}

  module _
      (turns_keep : (f : FeatureRecord) (objective : String)
        → Keeps
            (stored laws request)
            (execute_turn platform h chat observer (turn_request_for request f objective)))
      (objective : String) (feature : FeatureRecord) (fs : List FeatureRecord) where
    update-Passed :
        (p : Progress) (message : String) (w : World B W)
        → stored laws request w ≡ fs
        → let r =
            (in_memory (h.memory.update_feature_pass request.session.id feature.id true)
                >> pure (proceed (pass p feature message)))
              w in
          Passed laws request feature fs r.0 r.1
    unfolding catch_into on_part pure
    update-Passed p message w same =
        let id = request.session.id in
        let update = h.memory.update_feature_pass id feature.id true w.store in
        let before = read w.store id in
        bind_rule (Passed laws request feature fs) _
          (in_memory (h.memory.update_feature_pass id feature.id true)) w
          (λ u e.
            ap (λ s. s.feature_list)
              (laws.pass_sets w.store id id feature.id true
                ∙ applied_ok of_memory_error _ before update.0 e
                ∙ ap (λ t. if t then set_pass feature.id true before else before) (==_refl id))
            ∙ ap (pass_first feature.id true) same)
          (λ x e. tt) (λ e. tt)

    verdict-Passed :
        (again : Exec (World B W) HarnessError Flow) (p : Progress) (turns_used retries : ℕ)
        (message : String) (accepted : Bool) (w : World B W)
        → stored laws request w ≡ fs
        → (turns_used < h.run_policy.max_turns_per_run
            → Passed laws request feature fs (again w).0 (again w).1)
        → let r =
            on_verdict platform h chat observer request objective feature again p turns_used retries
              message accepted w in
          Passed laws request feature fs r.0 r.1
    unfolding on_verdict pure
    verdict-Passed again p turns_used retries message true w same ih =
        update-Passed p message w same
    verdict-Passed again p turns_used retries message false w same ih =
        elim (Bool-cases (
          h.run_policy.fail_fast.on_validation_failure
          || eqb retries 0
          || leb h.run_policy.max_turns_per_run turns_used)) [
            | inl e ↦ rw e tt
            | inr e ↦
                rw e (ih (turn_left platform h chat observer request _ retries _ turns_used e))
          ]

    pub turns-Passed :
        (fuel : ℕ) (p : Progress) (turns_used retries : ℕ) (w : World B W)
        → turns_used < h.run_policy.max_turns_per_run
        → stored laws request w ≡ fs
        → let r =
            turns_loop platform h chat observer request objective feature fuel p turns_used retries
              w in
          Passed laws request feature fs r.0 r.1
    unfolding turns_loop one_turn on_chat_error raise pure lift on_part
    turns-Passed zero p turns_used retries w room same = tt
    turns-Passed (suc fuel) p turns_used retries w room same =
        let next = turns_used + 1 in
        let turn =
          execute_turn platform h chat observer (turn_request_for request feature objective) in
        let same' : stored laws request (turn w).1 ≡ fs =
          (turns_keep feature objective).at w ∙ same in
        let again = λ (p' : Progress).
          turns_loop platform h chat observer request objective feature fuel p' next
            (retries - 1) in
        elim (Bool-cases (ltb turns_used h.run_policy.max_turns_per_run)) [
          | inl e ↦ rw e (
              on_result_rule (Passed laws request feature fs) _ _ turn w
                (λ result _.
                  let p' = record p { last_message = some result.assistant_message } in
                  bind_rule (Passed laws request feature fs) _ (in_env (h.validator feature result))
                    _
                    (λ accepted _.
                      verdict-Passed (again p') p next retries result.assistant_message accepted _
                        same' (λ room'. turns-Passed fuel p' next (retries - 1) _ room' same'))
                    (λ x e. tt) (λ e. tt))
                (λ x _.
                  elim (Bool-cases (
                    h.run_policy.fail_fast.on_chat_error
                    || eqb retries 0
                    || leb h.run_policy.max_turns_per_run next)) [
                      | inl e ↦ rw e tt
                      | inr e ↦ rw e (
                          turns-Passed fuel p next (retries - 1) _
                            (turn_left platform h chat observer request _ retries _ next e) same')
                    ])
                (λ e. tt))
          | inr e ↦ absurd (full turns_used h.run_policy.max_turns_per_run e room)
        ]
      where
        full : (a b : ℕ) → ltb a b ≡ false → a < b → ⊥
        full a b e h = ground arith
