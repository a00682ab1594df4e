-- ===== src/Harness/Iteration/Claims.antt =====
-- What the turns on one feature leave of the counts of `run_task_iteration_inner` of
-- fharness/src/harness.rs, and what its result may claim.
use fiddlesticks.Base.{
  ℕ, zero, suc, ◌+◌, ◌-◌, ◌≤◌, ◌<◌, String, Bool, true, false, ◌||◌, Option, none, some, [], ◌∷◌,
  ◌≡◌, refl, length, length-append, ltb, leb, eqb, arith, Bool-cases, inl, inr,
}
use fiddlesticks.Exec.{Result, ok, err, no_return, Exec, pure, raise, lift}
use fiddlesticks.Exec.Rules.{bind_rule, on_result_rule}
use fiddlesticks.Chat.Types.{ChatEvent}
use fiddlesticks.Chat.Service.{World, ChatService, in_env}
use fiddlesticks.Memory.Types.{FeatureRecord}
use fiddlesticks.Memory.Laws.{MemoryLaws}
use fiddlesticks.Harness.Error.{HarnessError}
use fiddlesticks.Harness.Types.{
  TaskIterationRequest, TaskIterationResult, max_features_per_run_limit,
}
use fiddlesticks.Harness.Features.{all_required_features_passed}
use fiddlesticks.Harness.Service.{HarnessPlatform, Harness}
use fiddlesticks.Harness.Iteration.{
  Progress, Flow, proceed, finished, pick, within_limit, execute_turn, turn_request_for,
  on_chat_error, on_verdict, one_turn, turns_loop,
}

-- A number of features is within the limit, where there is one.
abbrev pub Within : Option ℕ → ℕ → Type 0
Within none n = Unit
Within (some limit) n = n ≤ limit

pub Within-one_more :
    (limit : Option ℕ) (p : Progress) (f : FeatureRecord)
    → within_limit limit p ≡ true
    → Within limit (length (pick p f).processed)
unfolding within_limit
Within-one_more none p f h = tt
Within-one_more (some limit) p f h = omega (arith, length-append p.processed (f.id ∷ []), lt_of h)
  where
    lt_of : {a b : ℕ} → ltb a b ≡ true → a < b
    lt_of h = ground arith

module _ {B W : Type 0} (platform : HarnessPlatform W) (h : Harness B W) (chat : ChatService B W)
    (observer : Option (ChatEvent → W → W)) (laws : MemoryLaws h.memory)
    (request : TaskIterationRequest) where
  open laws use {read}

  -- What a result may claim: that no features are pending only if all stored ones have passed; and
  -- no more features than the policy allows, nor more validated than processed ones.
  abbrev pub Gated : Result HarnessError TaskIterationResult → World B W → Type 0
  Gated (ok v) w =
      (v.no_pending_features ≡ true
        → all_required_features_passed (read w.store request.session.id).feature_list ≡ true)
      × (v.no_pending_features ≡ true → v.validated ≡ true)
      × (v.processed_feature_count ≡ length v.processed_feature_ids)
      × Within (max_features_per_run_limit h.run_policy) v.processed_feature_count
      × (length v.validated_feature_ids ≤ v.processed_feature_count)
  Gated (err e) w = Unit
  Gated no_return w = Unit

  -- The counts of the features so far, between two features and while one is worked on.
  abbrev pub Between : Progress → Type 0
  Between p =
      Within (max_features_per_run_limit h.run_policy) (length p.processed)
      × (length p.validated ≤ length p.processed)

  abbrev pub Working : Progress → Type 0
  Working p =
      Within (max_features_per_run_limit h.run_policy) (length p.processed)
      × (length p.validated < length p.processed)

  abbrev pub Onward : Result HarnessError Flow → World B W → Type 0
  Onward (ok (proceed p)) w = Between p
  Onward (ok (finished v)) w = Gated (ok v) w
  Onward (err e) w = Unit
  Onward no_return w = Unit

  Working-Between : (p : Progress) → Working p → Between p
  Working-Between p (within, less) = (within, omega arith)

  module _ (objective : String) (feature : FeatureRecord) where
    verdict-Onward :
        (again : Exec (World B W) HarnessError Flow) (p : Progress) (turns_used retries : ℕ)
        (message : String) (accepted : Bool) (w : World B W)
        → Working p
        → ((w' : World B W) → Onward (again w').0 (again w').1)
        → let r =
            on_verdict platform h chat observer request objective feature again p turns_used retries
              message accepted w in
          Onward r.0 r.1
    unfolding on_verdict pure
    verdict-Onward again p turns_used retries message true w (within, less) ih =
        bind_rule Onward _ _ w
          (λ u e. (within, omega (arith, length-append p.validated (feature.id ∷ [])))) (λ x e. tt)
          (λ e. tt)
    verdict-Onward again p turns_used retries message false w (within, less) ih =
        elim (Bool-cases (
          h.run_policy.fail_fast.on_validation_failure
          || eqb retries 0
          || leb h.run_policy.max_turns_per_run turns_used)) [
            | inl e ↦ rw e ((λ x. cc), (λ x. cc), refl, within, omega arith)
            | inr e ↦ rw e (ih w)
          ]

    turn-Onward :
        (again : Progress → Exec (World B W) HarnessError Flow) (p : Progress)
        (turns_used retries : ℕ) (w : World B W)
        → Working p
        → ((p' : Progress) → Working p' → (w' : World B W) → Onward (again p' w').0 (again p' w').1)
        → let r =
            one_turn platform h chat observer request objective feature again p turns_used retries
              w in
          Onward r.0 r.1
    unfolding one_turn on_chat_error raise
    turn-Onward again p turns_used retries w ready ih =
        on_result_rule Onward _ _
          (execute_turn platform h chat observer (turn_request_for request feature objective)) w
          (λ result _.
            let p' = record p { last_message = some result.assistant_message } in
            bind_rule Onward _ (in_env (h.validator feature result)) _
              (λ accepted _.
                verdict-Onward (again p') p turns_used retries result.assistant_message accepted _
                  ready (ih p' ready))
              (λ x e. tt) (λ e. tt))
          (λ x _.
            elim (Bool-cases (
              h.run_policy.fail_fast.on_chat_error
              || eqb retries 0
              || leb h.run_policy.max_turns_per_run turns_used)) [
                | inl e ↦ rw e tt
                | inr e ↦ rw e (ih p ready _)
              ])
          (λ e. tt)

    pub turns-Onward :
        (fuel : ℕ) (p : Progress) (turns_used retries : ℕ) (w : World B W)
        → Working p
        → let r =
            turns_loop platform h chat observer request objective feature fuel p turns_used retries
              w in
          Onward r.0 r.1
    unfolding turns_loop pure lift
    turns-Onward zero p turns_used retries w ready = tt
    turns-Onward (suc fuel) p turns_used retries w ready =
        elim (Bool-cases (ltb turns_used h.run_policy.max_turns_per_run)) [
          | inl e ↦ rw e (
              turn-Onward
                (λ p'.
                  turns_loop platform h chat observer request objective feature fuel p'
                    (turns_used + 1) (retries - 1))
                p (turns_used + 1) retries w ready
                (λ p' ready' w'. turns-Onward fuel p' (turns_used + 1) (retries - 1) w' ready'))
          | inr e ↦ rw e (Working-Between p ready)
        ]
