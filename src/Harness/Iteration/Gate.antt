-- ===== src/Harness/Iteration/Gate.antt =====
-- What a result of `run_task_iteration_inner` of fharness/src/harness.rs claims, against what is
-- stored and what the run policy allows.
use fiddlesticks.Base.{
  ◌≤◌, length, All, all, ◌≢◌, ℕ, zero, suc, String, true, Option, none, some, List, [], ◌∷◌, ◌≡◌,
  refl, sym, ap, subst, ◌∙◌, length-append, arith, Bool-cases, inl, inr,
}
use fiddlesticks.Exec.{no_return, err, Result, ok, Exec, pure, lift, catch_into, on_part}
use fiddlesticks.Exec.Rules.{bind_rule, ok_of_map_err}
use fiddlesticks.Exec.Keeps.{Keeps}
use fiddlesticks.Chat.Types.{ChatEvent}
use fiddlesticks.Chat.Service.{World, ChatService}
use fiddlesticks.Chat.Turn.Keeping.{store_of, env_rules}
use fiddlesticks.Memory.Types.{SessionManifest, FeatureRecord, BootstrapState}
use fiddlesticks.Memory.Laws.{MemoryLaws, Gives, bootstrap_of_session}
use fiddlesticks.Harness.Error.{HarnessError, of_memory_error}
use fiddlesticks.Harness.Types.{
  TaskIterationRequest, TaskIterationResult, max_features_per_run_limit,
}
use fiddlesticks.Harness.Features.{all_required_features_passed}
use fiddlesticks.Harness.Service.{HarnessPlatform, Harness, in_memory}
use fiddlesticks.Harness.Iteration.{
  Progress, no_progress, Flow, proceed, finished, pick, within_limit, work_on, next_feature,
  feature_round, conclude, follow, feature_loop, check_health, run_task_iteration_inner,
}
use fiddlesticks.Harness.Iteration.Claims.{
  Within, Within-one_more, Gated, Between, Onward, turns-Onward,
}

-- The gate opens only for a list that is not empty and whose features have all passed.
all_passed :
    (fs : List FeatureRecord)
    → all (λ f. f.passes) fs ≡ true
    → All (λ (f : FeatureRecord). f.passes ≡ true) fs
all_passed [] e = tt
all_passed (f ∷ fs) e = (ground arith, all_passed fs (ground arith))

gate_lem :
    (fs : List FeatureRecord)
    → all_required_features_passed fs ≡ true
    → (fs ≢ []) × All (λ (f : FeatureRecord). f.passes ≡ true) fs
unfolding all_required_features_passed
gate_lem [] e = cc
gate_lem (f ∷ fs) e = (λ g. cc, all_passed (f ∷ fs) e)

module _ {B W : Type 0} (platform : HarnessPlatform W) (h : Harness B W) (chat : ChatService B W)
    (observer : Option (ChatEvent → W → W)) (laws : MemoryLaws h.memory)
    (request : TaskIterationRequest) where
  open laws use {read}

  -- A load that succeeds gives the features that are stored, and leaves them stored.
  pub loaded_features :
      (w : World B W) (b : BootstrapState)
      → (in_memory {W = W} (h.memory.load_bootstrap_state request.session.id) w).0 ≡ ok b
      → b.feature_list
        ≡ (read
            (in_memory (h.memory.load_bootstrap_state request.session.id) w).1.store
            request.session.id).feature_list
  unfolding catch_into on_part
  loaded_features w b e =
      let id = request.session.id in
      let load = h.memory.load_bootstrap_state id w.store in
      ap (λ (x : BootstrapState). x.feature_list)
        (subst (Gives (bootstrap_of_session (read w.store id)))
          (ok_of_map_err of_memory_error load.0 e) (laws.load_gives w.store id))
      ∙ sym (ap (λ s. s.feature_list) (laws.load_keeps w.store id id))

  module _ (objective : String) where
    next-Onward :
        (p : Progress) (fs : List FeatureRecord) (w : World B W)
        → within_limit (max_features_per_run_limit h.run_policy) p ≡ true
        → Between platform h chat observer laws request p
        → fs ≡ (read w.store request.session.id).feature_list
        → let r = next_feature platform h chat observer request objective p fs w in
          Onward platform h chat observer laws request r.0 r.1
    unfolding next_feature work_on pure lift
    next-Onward p fs w room (within, most) same =
        elim (Bool-cases (all_required_features_passed fs)) [
          | inl e ↦ rw e (
            (λ x. ap all_required_features_passed (sym same) ∙ e),
            (λ x. refl),
            refl,
            within,
            most,
          )
          | inr e ↦ simp e (
              bind_rule (Onward platform h chat observer laws request) _ _ w
                (λ f _.
                  turns-Onward platform h chat observer laws request objective f
                    (suc h.run_policy.max_turns_per_run) (pick p f) 0 h.run_policy.retry_budget w
                    (
                      Within-one_more (max_features_per_run_limit h.run_policy) p f room,
                      omega (arith, length-append p.processed (f.id ∷ [])),
                    ))
                (λ x e. tt) (λ e. tt))
        ]

    round-Onward :
        (p : Progress) (w : World B W)
        → within_limit (max_features_per_run_limit h.run_policy) p ≡ true
        → Between platform h chat observer laws request p
        → let r = feature_round platform h chat observer request objective p w in
          Onward platform h chat observer laws request r.0 r.1
    unfolding feature_round
    round-Onward p w room between =
        bind_rule (Onward platform h chat observer laws request) _
          (in_memory (h.memory.load_bootstrap_state request.session.id)) w
          (λ b e. next-Onward p b.feature_list _ room between (loaded_features w b e)) (λ x e. tt)
          (λ e. tt)

    conclude-Gated :
        (p : Progress) (w : World B W)
        → Between platform h chat observer laws request p
        → let r = conclude platform h chat observer request objective p w in
          Gated platform h chat observer laws request r.0 r.1
    unfolding conclude pure
    conclude-Gated p w (within, most) =
        bind_rule (Gated platform h chat observer laws request) _
          (in_memory (h.memory.load_bootstrap_state request.session.id)) w
          (λ b e. (
            (λ x. ap all_required_features_passed (sym (loaded_features w b e)) ∙ x),
            (λ x. refl),
            refl,
            within,
            most,
          ))
          (λ x e. tt) (λ e. tt)

    follow-Gated :
        (again : Progress → Exec (World B W) HarnessError TaskIterationResult) (flow : Flow)
        (w : World B W)
        → Onward platform h chat observer laws request (ok flow) w
        → ((p : Progress)
            → Between platform h chat observer laws request p
            → Gated platform h chat observer laws request (again p w).0 (again p w).1)
        → let r = follow platform h chat observer request objective again flow w in
          Gated platform h chat observer laws request r.0 r.1
    unfolding pure
    follow-Gated again (proceed p) w between ih = ih p between
    follow-Gated again (finished v) w sound ih = sound

    loop-Gated :
        (fuel : ℕ) (p : Progress) (w : World B W)
        → Between platform h chat observer laws request p
        → let r = feature_loop platform h chat observer request objective fuel p w in
          Gated platform h chat observer laws request r.0 r.1
    unfolding feature_loop lift
    loop-Gated zero p w between = tt
    loop-Gated (suc fuel) p w between =
        let round = feature_round platform h chat observer request objective p in
        elim (Bool-cases (within_limit (max_features_per_run_limit h.run_policy) p)) [
          | inl room ↦ rw room (
              bind_rule (Gated platform h chat observer laws request) _ round w
                (λ flow e.
                  follow-Gated _ flow _
                    (subst (λ r. Onward platform h chat observer laws request r (round w).1) e
                      (round-Onward p w room between))
                    (λ p' between'. loop-Gated fuel p' _ between'))
                (λ x e. tt) (λ e. tt))
          | inr full ↦ rw full (conclude-Gated p w between)
        ]

  none_yet : Between platform h chat observer laws request no_progress
  none_yet = (none_within (max_features_per_run_limit h.run_policy), omega arith)
    where
      none_within : (limit : Option ℕ) → Within limit 0
      none_within none = tt
      none_within (some n) = omega arith

  pub check_health-Keeps :
      (manifest : SessionManifest)
      → Keeps store_of (check_health platform h chat observer request manifest)
  unfolding check_health
  check_health-Keeps manifest = search env_rules

  run_task_iteration_inner-Gated :
      (rounds : ℕ) (w : World B W)
      → let r = run_task_iteration_inner platform h chat observer rounds request w in
        Gated platform h chat observer laws request r.0 r.1
  unfolding run_task_iteration_inner pure lift
  run_task_iteration_inner-Gated rounds w =
      let load = in_memory (h.memory.load_bootstrap_state request.session.id) in
      bind_rule (Gated platform h chat observer laws request) _ load w
        (λ b e.
          bind_rule (Gated platform h chat observer laws request) _ _ (load w).1
            (λ manifest _.
              let check = check_health platform h chat observer request manifest in
              let kept = (check_health-Keeps manifest).at (load w).1 in
              bind_rule (Gated platform h chat observer laws request) _ check (load w).1
                (λ u _. elim (Bool-cases (all_required_features_passed b.feature_list)) [
                  | inl all_passed ↦ rw all_passed (
                    (λ x.
                        ap
                          (λ s.
                            all_required_features_passed (read s request.session.id).feature_list)
                          kept
                        ∙ ap all_required_features_passed (sym (loaded_features w b e))
                        ∙ all_passed),
                    (λ x. refl),
                    refl,
                    none_yet.0,
                    none_yet.1,
                  )
                  | inr pending ↦
                      rw pending
                        (loop-Gated manifest.current_objective rounds no_progress _ none_yet)
                ])
                (λ x e. tt) (λ e. tt))
            (λ x e. tt) (λ e. tt))
        (λ x e. tt) (λ e. tt)

  -- What a result may claim: that no features are pending only if there are features stored and each
  -- of them has passed.
  abbrev pub Sound : Result HarnessError TaskIterationResult → World B W → Type 0
  Sound (ok v) w =
      let stored = (read w.store request.session.id).feature_list in
      (v.no_pending_features ≡ true
        → (stored ≢ []) × All (λ (f : FeatureRecord). f.passes ≡ true) stored)
      × (v.no_pending_features ≡ true → v.validated ≡ true)
      × (v.processed_feature_count ≡ length v.processed_feature_ids)
      × Within (max_features_per_run_limit h.run_policy) v.processed_feature_count
      × (length v.validated_feature_ids ≤ v.processed_feature_count)
  Sound (err e) w = Unit
  Sound no_return w = Unit

  Gated-Sound :
      (r : Result HarnessError TaskIterationResult) (w : World B W)
      → Gated platform h chat observer laws request r w
      → Sound r w
  Gated-Sound (ok v) w (passed, valid, counted, within, most) =
      (λ e. gate_lem _ (passed e), valid, counted, within, most)
  Gated-Sound (err e) w g = tt
  Gated-Sound no_return w g = tt

  -- On a memory that keeps the laws of a backend, a result says that no features are pending only
  -- if there are features stored when it is given and each of them has passed, and then also that
  -- the run is validated. It counts the features that it names as processed, which are no more than
  -- the limit of the run policy, where there is one, and no fewer than those that it names as
  -- validated.
  pub run_task_iteration_inner-Sound :
      (rounds : ℕ) (w : World B W)
      → let r = run_task_iteration_inner platform h chat observer rounds request w in Sound r.0 r.1
  run_task_iteration_inner-Sound rounds w =
      Gated-Sound _ _ (run_task_iteration_inner-Gated rounds w)
