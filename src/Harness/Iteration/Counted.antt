-- ===== src/Harness/Iteration/Counted.antt =====
-- How the features that are processed in fharness/src/harness.rs are counted.
use fiddlesticks.Base.{
  ℕ, zero, suc, ◌+◌, ◌-◌, String, Bool, true, false, ◌||◌, Option, some, List, [], ◌∷◌, ◌≡◌, refl,
  subst, length, length-append, ltb, leb, eqb, arith, Bool-cases, inl, inr,
}
use fiddlesticks.Exec.{Result, ok, err, no_return, Exec, pure, raise, lift}
use fiddlesticks.Exec.Rules.{bind_rule, on_result_rule}
use fiddlesticks.Chat.Types.{ChatEvent}
use fiddlesticks.Chat.Service.{World, ChatService, in_env}
use fiddlesticks.Memory.Types.{FeatureRecord}
use fiddlesticks.Harness.Error.{HarnessError}
use fiddlesticks.Harness.Types.{TaskIterationRequest}
use fiddlesticks.Harness.Features.{all_required_features_passed}
use fiddlesticks.Harness.Service.{HarnessPlatform, Harness, in_memory}
use fiddlesticks.Harness.Iteration.{
  Progress, Flow, proceed, finished, pick, execute_turn, turn_request_for, on_chat_error,
  on_verdict, one_turn, turns_loop, work_on, next_feature, feature_round,
}

-- So many features are processed where the loop goes on.
abbrev pub Counted : {B W : Type 0} → ℕ → Result HarnessError Flow → World B W → Type 0
Counted n (ok (proceed p)) w = length p.processed ≡ n
Counted n (ok (finished v)) w = Unit
Counted n (err e) w = Unit
Counted n no_return w = Unit

module _ {B W : Type 0} (platform : HarnessPlatform W) (h : Harness B W) (chat : ChatService B W)
    (observer : Option (ChatEvent → W → W)) (request : TaskIterationRequest) where
  module _ (objective : String) (feature : FeatureRecord) where
    verdict-Counted :
        (again : Exec (World B W) HarnessError Flow) (p : Progress) (turns_used retries : ℕ)
        (message : String) (accepted : Bool) (w : World B W)
        → ((w' : World B W) → Counted (length p.processed) (again w').0 (again w').1)
        → let r =
            on_verdict platform h chat observer request objective feature again p turns_used retries
              message accepted w in
          Counted (length p.processed) r.0 r.1
    unfolding on_verdict pure
    verdict-Counted again p turns_used retries message true w ih =
        bind_rule (Counted (length p.processed)) _ _ w (λ u e. refl) (λ x e. tt) (λ e. tt)
    verdict-Counted again p turns_used retries message false w ih =
        elim (Bool-cases (
          h.run_policy.fail_fast.on_validation_failure
          || eqb retries 0
          || leb h.run_policy.max_turns_per_run turns_used)) [
            | inl e ↦ rw e tt
            | inr e ↦ rw e (ih w)
          ]

    turns-Counted :
        (fuel : ℕ) (p : Progress) (turns_used retries : ℕ) (w : World B W)
        → let r =
            turns_loop platform h chat observer request objective feature fuel p turns_used retries
              w in
          Counted (length p.processed) r.0 r.1
    unfolding turns_loop one_turn on_chat_error pure lift raise
    turns-Counted zero p turns_used retries w = tt
    turns-Counted (suc fuel) p turns_used retries w =
        let n = length p.processed in
        let again = λ (p' : Progress).
          turns_loop platform h chat observer request objective feature fuel p' (turns_used + 1)
            (retries - 1) in
        let next = turns_used + 1 in
        elim (Bool-cases (ltb turns_used h.run_policy.max_turns_per_run)) [
          | inl e ↦ rw e (
              on_result_rule (Counted n) _ _
                (execute_turn platform h chat observer (turn_request_for request feature objective))
                w
                (λ result _.
                  let p' = record p { last_message = some result.assistant_message } in
                  bind_rule (Counted n) _ (in_env (h.validator feature result)) _
                    (λ accepted _.
                      verdict-Counted (again p') p next retries result.assistant_message accepted _
                        (λ w'. turns-Counted fuel p' next (retries - 1) w'))
                    (λ x e. tt) (λ e. tt))
                (λ x _.
                  elim (Bool-cases (
                    h.run_policy.fail_fast.on_chat_error
                    || eqb retries 0
                    || leb h.run_policy.max_turns_per_run next)) [
                      | inl e ↦ rw e tt
                      | inr e ↦ rw e (turns-Counted fuel p next (retries - 1) _)
                    ])
                (λ e. tt))
          | inr e ↦ rw e refl
        ]

  module _ (objective : String) where
    next-Counted :
        (p : Progress) (fs : List FeatureRecord) (w : World B W)
        → let r = next_feature platform h chat observer request objective p fs w in
          Counted (suc (length p.processed)) r.0 r.1
    unfolding next_feature work_on pure lift
    next-Counted p fs w = elim (Bool-cases (all_required_features_passed fs)) [
      | inl e ↦ rw e tt
      | inr e ↦ simp e (
          bind_rule (Counted (suc (length p.processed))) _ _ w
            (λ f _.
              let r =
                turns_loop platform h chat observer request objective f
                  (suc h.run_policy.max_turns_per_run) (pick p f) 0 h.run_policy.retry_budget w in
              subst (λ n. Counted n r.0 r.1) (one_longer p f)
                (turns-Counted objective f (suc h.run_policy.max_turns_per_run) (pick p f) 0
                  h.run_policy.retry_budget w))
            (λ x e. tt) (λ e. tt))
    ]
      where
        one_longer :
            (p : Progress) (f : FeatureRecord)
            → length (pick p f).processed ≡ suc (length p.processed)
        one_longer p f = omega (arith, length-append p.processed (f.id ∷ []))

    pub round-Counted :
        (p : Progress) (w : World B W)
        → let r = feature_round platform h chat observer request objective p w in
          Counted (suc (length p.processed)) r.0 r.1
    unfolding feature_round
    round-Counted p w =
        bind_rule (Counted (suc (length p.processed))) _
          (in_memory (h.memory.load_bootstrap_state request.session.id)) w
          (λ b e. next-Counted p b.feature_list _) (λ x e. tt) (λ e. tt)
