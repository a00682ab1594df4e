-- ===== src/Harness/Iteration/Unlimited.antt =====
-- The loop over features of fharness/src/harness.rs comes to an end without a limit too.
use fiddlesticks.Base.{
  ℕ, zero, suc, ◌≤◌, ◌<◌, String, Option, none, some, List, ◌≡◌, ◌≢◌, sym, ap, subst, ◌∙◌, arith,
  string_eq, Bool-cases, inl, inr,
}
use fiddlesticks.Exec.{Result, ok, err, no_return, Exec, pure, lift, found_or, catch_into, on_part}
use fiddlesticks.Exec.Rules.{bind_rule}
use fiddlesticks.Exec.Keeps.{Keeps}
use fiddlesticks.Exec.Returns.{Returns-ok_or}
use fiddlesticks.Chat.Types.{ChatEvent}
use fiddlesticks.Chat.Service.{World, ChatService}
use fiddlesticks.Memory.Types.{FeatureRecord}
use fiddlesticks.Memory.Laws.{MemoryLaws}
use fiddlesticks.Harness.Error.{HarnessError, HarnessErrorKind, new}
use fiddlesticks.Harness.Types.{
  TaskIterationRequest, TaskIterationResult, max_features_per_run_limit,
}
use fiddlesticks.Harness.Features.{first_pending, all_required_features_passed}
use fiddlesticks.Harness.Features.Validation.{Distinct}
use fiddlesticks.Harness.Features.Pending.{pending, Distinct-pass_first, pending-pass_first}
use fiddlesticks.Harness.Service.{HarnessPlatform, Harness, in_memory}
use fiddlesticks.Harness.Iteration.{
  Progress, Flow, proceed, finished, pick, within_limit, execute_turn, turn_request_for, work_on,
  next_feature, feature_round, follow, feature_loop, check_health, run_task_iteration_inner,
  no_progress,
}
use fiddlesticks.Harness.Iteration.Gate.{loaded_features, check_health-Keeps}
use fiddlesticks.Harness.Iteration.Returns.{
  Responsive, round-Returns, conclude-Returns, load-Returns, check_health-Returns,
}
use fiddlesticks.Harness.Iteration.Passed.{stored, Passed, turns-Passed}

module _ {B W : Type 0} (platform : HarnessPlatform W) (h : Harness B W) (chat : ChatService B W)
    (observer : Option (ChatEvent → W → W)) (laws : MemoryLaws h.memory)
    (request : TaskIterationRequest) where
  open laws use {read}

  -- Where the loop goes on, there is one pending feature less, and the ids are still distinct.
  abbrev pub Lessened : List FeatureRecord → Result HarnessError Flow → World B W → Type 0
  Lessened fs (ok (proceed p)) w =
      Distinct (stored laws request w) × (suc (pending (stored laws request w)) ≡ pending fs)
  Lessened fs (ok (finished v)) w = Unit
  Lessened fs (err e) w = Unit
  Lessened fs no_return w = Unit

  Passed-Lessened :
      (f : FeatureRecord) (fs : List FeatureRecord) (r : Result HarnessError Flow) (w : World B W)
      → first_pending fs ≡ some f
      → Distinct fs
      → Passed laws request f fs r w
      → Lessened fs r w
  Passed-Lessened f fs (ok (proceed p)) w found distinct same = (
    subst Distinct (sym same) (Distinct-pass_first f.id fs distinct),
    ap (λ l. suc (pending l)) same ∙ pending-pass_first fs f found distinct,
  )
  Passed-Lessened f fs (ok (finished v)) w found distinct same = tt
  Passed-Lessened f fs (err e) w found distinct same = tt
  Passed-Lessened f fs no_return w found distinct same = tt

  found_some :
      {A : Type 0} (e : HarnessError) (o : Option A) {a : A} → found_or e o ≡ ok a → o ≡ some a
  found_some e none h = cc
  found_some e (some x) h = ground arith

  module _
      (turns_keep : (f : FeatureRecord) (objective : String)
        → Keeps
            (stored laws request)
            (execute_turn platform h chat observer (turn_request_for request f objective)))
      (selects : (fs : List FeatureRecord) → h.feature_selector fs ≡ first_pending fs)
      (turns : 1 ≤ h.run_policy.max_turns_per_run) where
    module _ (objective : String) where
      next-Lessened :
          (p : Progress) (fs : List FeatureRecord) (w : World B W)
          → stored laws request w ≡ fs
          → Distinct fs
          → let r = next_feature platform h chat observer request objective p fs w in
            Lessened fs r.0 r.1
      unfolding next_feature work_on pure lift
      next-Lessened p fs w same distinct = elim (Bool-cases (all_required_features_passed fs)) [
        | inl e ↦ rw e tt
        | inr e ↦ simp e (
            bind_rule (Lessened fs) _ _ w
              (λ f there.
                Passed-Lessened f fs _ _
                  (sym (selects fs) ∙ found_some _ (h.feature_selector fs) there) distinct
                  (turns-Passed platform h chat observer laws request turns_keep objective f fs
                    (suc h.run_policy.max_turns_per_run) (pick p f) 0 h.run_policy.retry_budget w
                    (omega arith) same))
              (λ x e. tt) (λ e. tt))
      ]

      round-Lessened :
          (p : Progress) (w : World B W)
          → Distinct (stored laws request w)
          → let r = feature_round platform h chat observer request objective p w in
            Lessened (stored laws request w) r.0 r.1
      unfolding feature_round catch_into on_part
      round-Lessened p w distinct =
          let id = request.session.id in
          let kept = ap (λ s. s.feature_list) (laws.load_keeps w.store id id) in
          bind_rule (Lessened (stored laws request w)) _
            (in_memory (h.memory.load_bootstrap_state id)) w
            (λ b e.
              let same : b.feature_list ≡ stored laws request w =
                loaded_features platform h chat observer laws request w b e ∙ kept in
              subst
                (λ fs.
                  Lessened fs
                    (next_feature platform h chat observer request objective p b.feature_list
                      (in_memory (h.memory.load_bootstrap_state id) w).1).0
                    (next_feature platform h chat observer request objective p b.feature_list
                      (in_memory (h.memory.load_bootstrap_state id) w).1).1)
                same
                (next-Lessened p b.feature_list _
                  (sym (loaded_features platform h chat observer laws request w b e))
                  (subst Distinct (sym same) distinct)))
            (λ x e. tt) (λ e. tt)

      module _ (responsive : Responsive platform h chat observer request) where
        follow-returns :
            (fs : List FeatureRecord)
            (again : Progress → Exec (World B W) HarnessError TaskIterationResult) (flow : Flow)
            (w : World B W)
            → Lessened fs (ok flow) w
            → ((p : Progress)
                → Distinct (stored laws request w)
                → suc (pending (stored laws request w)) ≡ pending fs
                → (again p w).0 ≢ no_return)
            → (follow platform h chat observer request objective again flow w).0 ≢ no_return
        unfolding pure
        follow-returns fs again (proceed p) w (distinct, less) ih = ih p distinct less
        follow-returns fs again (finished v) w less ih = λ e. cc

        loop-returns :
            (fuel : ℕ) (p : Progress) (w : World B W)
            → Distinct (stored laws request w)
            → pending (stored laws request w) < fuel
            → (feature_loop platform h chat observer request objective fuel p w).0 ≢ no_return
        unfolding feature_loop
        loop-returns zero p w distinct enough = absurd (omega arith)
        loop-returns (suc fuel) p w distinct enough =
            let round = feature_round platform h chat observer request objective p in
            elim (Bool-cases (within_limit (max_features_per_run_limit h.run_policy) p)) [
              | inl room ↦ rw room (
                  bind_rule (λ r s. r ≢ no_return) _ round w
                    (λ flow e.
                      follow-returns (stored laws request w) _ flow _
                        (subst (λ r. Lessened (stored laws request w) r (round w).1) e
                          (round-Lessened p w distinct))
                        (λ p' distinct' less.
                          loop-returns fuel p' (round w).1 distinct' (fewer fuel _ _ less enough)))
                    (λ x e e'. cc)
                    (λ e. absurd (
                      (round-Returns platform h chat observer request responsive objective p).at w
                        e)))
              | inr full ↦
                  rw full (
                    (conclude-Returns platform h chat observer request responsive objective p).at w)
            ]
          where
            fewer : (fuel a b : ℕ) → suc a ≡ b → b < suc fuel → a < fuel
            fewer fuel a b less enough = omega arith

    -- Also without a limit on the features of a run, and so in the unlimited mode, a task iteration
    -- comes to an end: if what it calls comes back, its turns leave the stored features alone, the
    -- first pending feature is selected, the policy allows a turn, the ids of the stored features are
    -- distinct, and there are more rounds than features that have not passed.
    pub run_task_iteration_inner-returns :
        (responsive : Responsive platform h chat observer request) (rounds : ℕ) (w : World B W)
        → Distinct (stored laws request w)
        → pending (stored laws request w) < rounds
        → (run_task_iteration_inner platform h chat observer rounds request w).0 ≢ no_return
    unfolding run_task_iteration_inner pure lift catch_into on_part
    run_task_iteration_inner-returns responsive rounds w distinct enough =
        let id = request.session.id in
        let load = in_memory {W = W} (h.memory.load_bootstrap_state id) in
        let kept = ap (λ s. s.feature_list) (laws.load_keeps w.store id id) in
        bind_rule (λ r s. r ≢ no_return) _ load w
          (λ b e.
            bind_rule (λ r s. r ≢ no_return) _ _ (load w).1
              (λ manifest _.
                let check = check_health platform h chat observer request manifest in
                let same : stored laws request (check (load w).1).1 ≡ stored laws request w =
                  ap (λ s. (read s id).feature_list)
                    ((check_health-Keeps platform h chat observer laws request manifest).at
                      (load w).1)
                  ∙ kept in
                bind_rule (λ r s. r ≢ no_return) _ check (load w).1
                  (λ u _. elim (Bool-cases (all_required_features_passed b.feature_list)) [
                    | inl all_passed ↦ rw all_passed (λ x. cc)
                    | inr some_left ↦ rw some_left (
                        loop-returns manifest.current_objective responsive rounds no_progress _
                          (subst Distinct (sym same) distinct)
                          (subst (λ l. pending l < rounds) (sym same) enough))
                  ])
                  (λ x e e'. cc)
                  (λ e. absurd (
                    (check_health-Returns platform h chat observer request responsive manifest).at
                      (load w).1 e)))
              (λ x e e'. cc)
              (λ e. absurd (
                (Returns-ok_or {S = World B W}
                    (new HarnessErrorKind.not_ready
                      "session is not initialized; run initializer first")
                    b.manifest).at
                  (load w).1 e)))
          (λ x e e'. cc)
          (λ e. absurd ((load-Returns platform h chat observer request responsive).at w e))
