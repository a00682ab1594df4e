-- ===== src/Harness/Iteration/Exact.antt =====
-- Which features a result of `run_task_iteration_inner` of fharness/src/harness.rs names as validated.
use fiddlesticks.Base.{
  ℕ, zero, suc, ◌+◌, ◌-◌, ◌≤◌, ◌<◌, String, Bool, true, false, ◌||◌, Option, some, List, [], ◌∷◌,
  ◌++◌, ◌≡◌, ◌⊎◌, refl, ap, subst, ltb, leb, eqb, arith, Bool-cases, inl, inr,
}
use fiddlesticks.Exec.{Result, ok, err, no_return, Exec, pure, raise, lift}
use fiddlesticks.Exec.Rules.{bind_rule, on_result_rule}
use fiddlesticks.Chat.Types.{ChatEvent}
use fiddlesticks.Chat.Service.{World, ChatService, in_env}
use fiddlesticks.Memory.Types.{FeatureRecord}
use fiddlesticks.Harness.Error.{HarnessError}
use fiddlesticks.Harness.Types.{
  TaskIterationRequest, TaskIterationResult, max_features_per_run_limit,
}
use fiddlesticks.Harness.Features.{all_required_features_passed}
use fiddlesticks.Harness.Service.{HarnessPlatform, Harness, in_memory}
use fiddlesticks.Harness.Iteration.{
  Progress, no_progress, Flow, proceed, finished, pick, within_limit, execute_turn,
  turn_request_for, on_chat_error, on_verdict, one_turn, turns_loop, work_on, next_feature,
  feature_round, conclude, follow, feature_loop, check_health, run_task_iteration_inner,
}

-- Either all processed features were validated, or all but the last, on which the run stopped.
abbrev pub Exact : {B W : Type 0} → Result HarnessError TaskIterationResult → World B W → Type 0
Exact (ok v) w =
    ((v.validated ≡ true) × (v.processed_feature_ids ≡ v.validated_feature_ids))
    ⊎ ((v.validated ≡ false)
        × (id : String) × (v.selected_feature_id ≡ some id)
        × (v.processed_feature_ids ≡ v.validated_feature_ids ++ id ∷ []))
Exact (err e) w = Unit
Exact no_return w = Unit

-- A feature is worked on that all but it were validated before.
abbrev pub Working : FeatureRecord → Progress → Type 0
Working f p = (p.selected ≡ some f.id) × (p.processed ≡ p.validated ++ f.id ∷ [])

abbrev pub Onward : {B W : Type 0} → Result HarnessError Flow → World B W → Type 0
Onward (ok (proceed p)) w = p.processed ≡ p.validated
Onward (ok (finished v)) w = Exact (ok v) w
Onward (err e) w = Unit
Onward no_return w = Unit

module _ {B W : Type 0} (platform : HarnessPlatform W) (h : Harness B W) (chat : ChatService B W)
    (observer : Option (ChatEvent → W → W)) (request : TaskIterationRequest) where
  -- Where a turn is tried again, there is one left.
  pub turn_left :
      (fast : Bool) (retries most used : ℕ)
      → (fast || eqb retries 0 || leb most used) ≡ false
      → used < most
  turn_left fast retries most used e = ground arith

  module _ (objective : String) (feature : FeatureRecord) where
    verdict-Onward :
        (again : Exec (World B W) HarnessError Flow) (p : Progress) (turns_used retries : ℕ)
        (message : String) (accepted : Bool) (w : World B W)
        → Working feature p
        → (turns_used < h.run_policy.max_turns_per_run
            → (w' : World B W) → Onward (again w').0 (again w').1)
        → let r =
            on_verdict platform h chat observer request objective feature again p turns_used retries
              message accepted w in
          Onward r.0 r.1
    unfolding on_verdict pure
    verdict-Onward again p turns_used retries message true w (selected, all) ih =
        bind_rule Onward _ _ w (λ u e. all) (λ x e. tt) (λ e. tt)
    verdict-Onward again p turns_used retries message false w (selected, all) ih =
        elim (Bool-cases (
          h.run_policy.fail_fast.on_validation_failure
          || eqb retries 0
          || leb h.run_policy.max_turns_per_run turns_used)) [
            | inl e ↦ rw e (inr (refl, feature.id, selected, all))
            | inr e ↦ rw e (ih (turn_left _ retries _ turns_used e) w)
          ]

    turns-Onward :
        (fuel : ℕ) (p : Progress) (turns_used retries : ℕ) (w : World B W)
        → turns_used < h.run_policy.max_turns_per_run
        → Working feature p
        → let r =
            turns_loop platform h chat observer request objective feature fuel p turns_used retries
              w in
          Onward r.0 r.1
    unfolding turns_loop one_turn on_chat_error raise pure lift
    turns-Onward zero p turns_used retries w room working = tt
    turns-Onward (suc fuel) p turns_used retries w room working =
        let next = turns_used + 1 in
        let again = λ (p' : Progress).
          turns_loop platform h chat observer request objective feature fuel p' next
            (retries - 1) in
        elim (Bool-cases (ltb turns_used h.run_policy.max_turns_per_run)) [
          | inl e ↦ rw e (
              on_result_rule Onward _ _
                (execute_turn platform h chat observer (turn_request_for request feature objective))
                w
                (λ result _.
                  let p' = record p { last_message = some result.assistant_message } in
                  bind_rule Onward _ (in_env (h.validator feature result)) _
                    (λ accepted _.
                      verdict-Onward (again p') p next retries result.assistant_message accepted _
                        working
                        (λ room' w'. turns-Onward fuel p' next (retries - 1) w' room' working))
                    (λ x e. tt) (λ e. tt))
                (λ x _.
                  elim (Bool-cases (
                    h.run_policy.fail_fast.on_chat_error
                    || eqb retries 0
                    || leb h.run_policy.max_turns_per_run next)) [
                      | inl e ↦ rw e tt
                      | inr e ↦ rw e (
                          turns-Onward fuel p next (retries - 1) _ (turn_left _ retries _ next e)
                            working)
                    ])
                (λ e. tt))
          | inr e ↦ absurd (full turns_used h.run_policy.max_turns_per_run e room)
        ]
      where
        full : (a b : ℕ) → ltb a b ≡ false → a < b → ⊥
        full a b e h = ground arith

  module _ (turns : 1 ≤ h.run_policy.max_turns_per_run) (objective : String) where
    next-Onward :
        (p : Progress) (fs : List FeatureRecord) (w : World B W)
        → p.processed ≡ p.validated
        → let r = next_feature platform h chat observer request objective p fs w in Onward r.0 r.1
    unfolding next_feature work_on pure lift
    next-Onward p fs w all = elim (Bool-cases (all_required_features_passed fs)) [
      | inl e ↦ rw e (inl (refl, all))
      | inr e ↦ simp e (
          bind_rule Onward _ _ w
            (λ f _.
              turns-Onward objective f (suc h.run_policy.max_turns_per_run) (pick p f) 0
                h.run_policy.retry_budget w (omega arith) (refl, ap (λ l. l ++ f.id ∷ []) all))
            (λ x e. tt) (λ e. tt))
    ]

    round-Onward :
        (p : Progress) (w : World B W)
        → p.processed ≡ p.validated
        → let r = feature_round platform h chat observer request objective p w in Onward r.0 r.1
    unfolding feature_round
    round-Onward p w all =
        bind_rule Onward _ (in_memory (h.memory.load_bootstrap_state request.session.id)) w
          (λ b e. next-Onward p b.feature_list _ all) (λ x e. tt) (λ e. tt)

    follow-Exact :
        (again : Progress → Exec (World B W) HarnessError TaskIterationResult) (flow : Flow)
        (w : World B W)
        → Onward (ok flow) w
        → ((p : Progress) → p.processed ≡ p.validated → Exact (again p w).0 (again p w).1)
        → let r = follow platform h chat observer request objective again flow w in Exact r.0 r.1
    unfolding pure
    follow-Exact again (proceed p) w all ih = ih p all
    follow-Exact again (finished v) w exact ih = exact

    loop-Exact :
        (fuel : ℕ) (p : Progress) (w : World B W)
        → p.processed ≡ p.validated
        → let r = feature_loop platform h chat observer request objective fuel p w in Exact r.0 r.1
    unfolding feature_loop conclude lift pure
    loop-Exact zero p w all = tt
    loop-Exact (suc fuel) p w all =
        let round = feature_round platform h chat observer request objective p in
        elim (Bool-cases (within_limit (max_features_per_run_limit h.run_policy) p)) [
          | inl room ↦ rw room (
              bind_rule Exact _ round w
                (λ flow e.
                  follow-Exact _ flow _ (subst (λ r. Onward r (round w).1) e (round-Onward p w all))
                    (λ p' all'. loop-Exact fuel p' _ all'))
                (λ x e. tt) (λ e. tt))
          | inr full ↦ rw full (
              bind_rule Exact _ (in_memory (h.memory.load_bootstrap_state request.session.id)) w
                (λ b e. inl (refl, all)) (λ x e. tt) (λ e. tt))
        ]

  -- Under a policy that allows a turn, a result that says it is validated has validated each feature
  -- that it processed, in order; one that does not has validated each but the last, which is the
  -- selected one.
  pub run_task_iteration_inner-Exact :
      (rounds : ℕ) (w : World B W)
      → 1 ≤ h.run_policy.max_turns_per_run
      → let r = run_task_iteration_inner platform h chat observer rounds request w in Exact r.0 r.1
  unfolding run_task_iteration_inner pure lift
  run_task_iteration_inner-Exact rounds w turns =
      bind_rule Exact _ (in_memory (h.memory.load_bootstrap_state request.session.id)) w
        (λ b e.
          bind_rule Exact _ _ _
            (λ manifest _.
              bind_rule Exact _ (check_health platform h chat observer request manifest) _
                (λ u _. elim (Bool-cases (all_required_features_passed b.feature_list)) [
                  | inl e ↦ rw e (inl (refl, refl))
                  | inr e ↦
                      rw e (loop-Exact turns manifest.current_objective rounds no_progress _ refl)
                ])
                (λ x e. tt) (λ e. tt))
            (λ x e. tt) (λ e. tt))
        (λ x e. tt) (λ e. tt)
