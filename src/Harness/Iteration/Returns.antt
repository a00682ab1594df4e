-- ===== src/Harness/Iteration/Returns.antt =====
-- The task iteration of fharness/src/harness.rs comes to an end.
use fiddlesticks.Base.{
  ℕ, zero, suc, ◌+◌, ◌-◌, ◌<◌, String, Bool, true, false, Option, none, some, List, ◌≡◌, ◌≢◌, subst,
  length, ltb, arith, Bool-cases, inl, inr,
}
use fiddlesticks.Exec.{ok, no_return, Exec, pure}
use fiddlesticks.Exec.Rules.{bind_rule}
use fiddlesticks.Exec.Returns.{
  Returns, returns_rules, Returns-bind, Returns-if, Returns-either, Returns-ok_or,
  Returns-on_result, Returns-on_part, Returns-pure, Returns-raise,
}
use fiddlesticks.Common.{SessionId}
use fiddlesticks.Chat.Types.{ChatEvent, ChatTurnResult}
use fiddlesticks.Chat.Service.{World, ChatService}
use fiddlesticks.Memory.Types.{
  SessionManifest, FeatureRecord, RunCheckpoint, ProgressEntry, InitPlan,
}
use fiddlesticks.Harness.Error.{HarnessError}
use fiddlesticks.Harness.Types.{
  TaskIterationRequest, TaskIterationResult, max_features_per_run_limit,
}
use fiddlesticks.Harness.Service.{HarnessPlatform, Harness, in_memory}
use fiddlesticks.Harness.Iteration.{
  Progress, no_progress, Flow, proceed, finished, pick, within_limit, execute_turn,
  turn_request_for, on_chat_error, on_verdict, one_turn, turns_loop, work_on, next_feature,
  feature_round, conclude, follow, feature_loop, check_health, run_task_iteration_inner,
}
use fiddlesticks.Harness.Iteration.Counted.{Counted, round-Counted}

module _ {B W : Type 0} (platform : HarnessPlatform W) (h : Harness B W) (chat : ChatService B W)
    (observer : Option (ChatEvent → W → W)) (request : TaskIterationRequest) where
  -- What an iteration calls comes back: the turns, the health checker, the validator, the memory.
  pub record Responsive : Type 0 where
    pub turns :
        (f : FeatureRecord) (objective : String)
        → Returns (execute_turn platform h chat observer (turn_request_for request f objective))
    pub checks : (id : SessionId) (plan : InitPlan) → Returns (h.health_checker id plan)
    pub validates : (f : FeatureRecord) (r : ChatTurnResult) → Returns (h.validator f r)
    pub loads : (id : SessionId) → Returns (h.memory.load_bootstrap_state id)
    pub updates :
        (id : SessionId) (feature_id : String) (passes : Bool)
        → Returns (h.memory.update_feature_pass id feature_id passes)
    pub records :
        (id : SessionId) (c : RunCheckpoint) → Returns (h.memory.record_run_checkpoint id c)
    pub appends :
        (id : SessionId) (e : ProgressEntry) → Returns (h.memory.append_progress_entry id e)

  module _ (responsive : Responsive) where
    pub load-Returns :
        Returns (in_memory {W = W} (h.memory.load_bootstrap_state request.session.id))
    load-Returns = search (returns_rules, responsive.loads)

    pub check_health-Returns :
        (manifest : SessionManifest)
        → Returns (check_health platform h chat observer request manifest)
    unfolding check_health
    check_health-Returns manifest = search (returns_rules, responsive.checks)

    module _ (objective : String) where
      verdict-Returns :
          (feature : FeatureRecord) (again : Exec (World B W) HarnessError Flow) (p : Progress)
          (turns_used retries : ℕ) (message : String) (accepted : Bool)
          → Returns again
          → Returns (
              on_verdict platform h chat observer request objective feature again p turns_used
                retries message accepted)
      unfolding on_verdict
      verdict-Returns feature again p turns_used retries message true k =
          search (returns_rules, responsive.updates)
      verdict-Returns feature again p turns_used retries message false k =
          Returns-either _ _ _ (Returns-pure _) k

      turn_left :
          (fuel turns_used most : ℕ)
          → ltb turns_used most ≡ true
          → most < suc fuel + turns_used
          → 0 < fuel
      turn_left fuel turns_used most e enough = ground arith

      turns-Returns :
          (feature : FeatureRecord) (fuel : ℕ) (p : Progress) (turns_used retries : ℕ)
          → h.run_policy.max_turns_per_run < fuel + turns_used
          → 0 < fuel
          → Returns (
              turns_loop platform h chat observer request objective feature fuel p turns_used
                retries)
      unfolding turns_loop one_turn on_chat_error
      turns-Returns feature zero p turns_used retries enough pos = absurd (omega arith)
      turns-Returns feature (suc fuel) p turns_used retries enough pos =
          Returns-if (ltb turns_used h.run_policy.max_turns_per_run) _ _
            (λ (e : ltb turns_used h.run_policy.max_turns_per_run ≡ true).
              let again = λ (p' : Progress).
                turns-Returns feature fuel p' (turns_used + 1) (retries - 1) (omega arith)
                  (turn_left fuel turns_used _ e enough) in
              Returns-on_result _ _ _ (responsive.turns feature objective)
                (λ result.
                  Returns-bind _ _ (Returns-on_part _ _ _ (responsive.validates feature result))
                    (λ accepted. verdict-Returns feature _ p _ retries _ accepted (again _)))
                (λ x. Returns-if _ _ _ (λ _. Returns-raise x) (λ _. again p)))
            (λ e. Returns-pure (proceed p))

      next-Returns :
          (p : Progress) (fs : List FeatureRecord)
          → Returns (next_feature platform h chat observer request objective p fs)
      unfolding next_feature work_on
      next-Returns p fs = search (
        returns_rules,
        λ (f : FeatureRecord).
            turns-Returns f (suc h.run_policy.max_turns_per_run) (pick p f) 0
              h.run_policy.retry_budget (omega arith) (omega arith),
      )

      pub round-Returns :
          (p : Progress) → Returns (feature_round platform h chat observer request objective p)
      unfolding feature_round
      round-Returns p = search (returns_rules, load-Returns, next-Returns)

      pub conclude-Returns :
          (p : Progress) → Returns (conclude platform h chat observer request objective p)
      unfolding conclude
      conclude-Returns p = search (returns_rules, load-Returns)

      module _ (limit : ℕ) (bounded : max_features_per_run_limit h.run_policy ≡ some limit) where
        follow-returns :
            (again : Progress → Exec (World B W) HarnessError TaskIterationResult) (flow : Flow)
            (n : ℕ) (w : World B W)
            → Counted n (ok flow) w
            → ((p : Progress) → length p.processed ≡ n → (again p w).0 ≢ no_return)
            → (follow platform h chat observer request objective again flow w).0 ≢ no_return
        unfolding pure
        follow-returns again (proceed p) n w count ih = ih p count
        follow-returns again (finished v) n w count ih = λ e. cc

        room_left :
            (fuel : ℕ) (p : Progress) (o : Option ℕ)
            → o ≡ some limit
            → within_limit o p ≡ true
            → limit < suc fuel + length p.processed
            → 0 < fuel
        unfolding within_limit
        room_left fuel p none same room enough = cc
        room_left fuel p (some l) same room enough = ground arith

        loop-returns :
            (fuel : ℕ) (p : Progress) (w : World B W)
            → limit < fuel + length p.processed
            → 0 < fuel
            → (feature_loop platform h chat observer request objective fuel p w).0 ≢ no_return
        unfolding feature_loop
        loop-returns zero p w enough pos = absurd (omega arith)
        loop-returns (suc fuel) p w enough pos =
            let round = feature_round platform h chat observer request objective p in
            elim (Bool-cases (within_limit (max_features_per_run_limit h.run_policy) p)) [
              | inl room ↦ rw room (
                  bind_rule (λ r s. r ≢ no_return) _ round w
                    (λ flow e.
                      follow-returns _ flow (suc (length p.processed)) _
                        (subst (λ r. Counted (suc (length p.processed)) r (round w).1) e
                          (round-Counted platform h chat observer request objective p w))
                        (λ p' more.
                          loop-returns fuel p' _ (omega arith)
                            (room_left fuel p _ bounded room enough)))
                    (λ x e e'. cc) (λ e. absurd ((round-Returns p).at w e)))
              | inr full ↦ rw full ((conclude-Returns p).at w)
            ]

    module _ (limit : ℕ) (bounded : max_features_per_run_limit h.run_policy ≡ some limit) where
      pub inner-Returns :
          (rounds : ℕ)
          → limit < rounds
          → Returns (run_task_iteration_inner platform h chat observer rounds request)
      unfolding run_task_iteration_inner
      inner-Returns rounds enough = Returns-bind _ _ load-Returns (λ b.
          Returns-bind _ _ (Returns-ok_or _ b.manifest) (λ manifest.
            Returns-bind _ _ (check_health-Returns manifest) (λ u.
              Returns-either _ _ _ (Returns-pure _) (record {
                at = λ w.
                    loop-returns manifest.current_objective limit bounded rounds no_progress w
                      (omega arith) (omega arith);
              }))))
