-- ===== src/Harness/Run/Outcome.antt =====
-- What `run` of fharness/src/harness.rs does for a session.
use fiddlesticks.Base.{
  [], ◌∷◌, ◌∷◌, is_empty, List, inr, Bool-cases, inl, sym, Option-cases, arith, none, some, String,
  ap, ℕ, Bool, true, false, Option, ◌≡◌, refl, subst, if◌then◌else◌,
}
use fiddlesticks.Exec.{Result, ok, err, no_return, pure}
use fiddlesticks.Exec.Rules.{bind_rule}
use fiddlesticks.Common.{SessionId}
use fiddlesticks.Chat.Types.{ChatEvent}
use fiddlesticks.Chat.Service.{World}
use fiddlesticks.Memory.Types.{InitPlan, FeatureRecord}
use fiddlesticks.Memory.InMemory.{has_manifest}
use fiddlesticks.Memory.Laws.{MemoryLaws}
use fiddlesticks.Harness.Error.{HarnessError}
use fiddlesticks.Harness.Types.{
  InitializerRequest, TaskIterationRequest, new_initializer, with_active_branch, with_init_plan,
  with_feature_list, with_progress_summary, new_task_iteration, enable_streaming,
  with_prompt_override, RuntimeRunRequest, RuntimeRunOutcome, initializer_outcome,
  task_iteration_outcome, HarnessPhase, initializer, task_iteration,
}
use fiddlesticks.Harness.Service.{HarnessPlatform, Harness}
use fiddlesticks.Harness.Initializer.{run_initializer}
use fiddlesticks.Harness.Initializer.Stored.{Stored, run_initializer-Stored}
use fiddlesticks.Harness.Run.{
  if_some, initializer_of, task_iteration_of, select_phase, run_task_iteration, run_phase, run,
}
use fiddlesticks.Harness.Run.Closed.{Closed, run_task_iteration-Closed}
use fiddlesticks.Harness.Run.Phase.{Selected, select_phase-Selected, select_phase-keeps}

abbrev summary_or_default : Option String → String
summary_or_default none = "Initializer scaffold created"
summary_or_default (some s) = s

-- The parts that are given one after the other.
initializer_lem :
    (plan : Option InitPlan) (fs : List FeatureRecord) (summary : Option String)
    (id run_id objective branch : String)
    → let i = with_active_branch branch (new_initializer id run_id objective) in
      let i1 : InitializerRequest = elim plan [ none ↦ i | some p ↦ with_init_plan p i ] in
      let i2 = if is_empty fs then i1 else with_feature_list fs i1 in
      if_some summary with_progress_summary i2 ≡ record {
        session_id = id;
        run_id = run_id;
        active_branch = branch;
        current_objective = objective;
        init_plan = plan;
        feature_list = fs;
        progress_summary = summary_or_default summary;
      }
unfolding new_initializer with_active_branch with_init_plan with_feature_list with_progress_summary
initializer_lem none [] none id run_id objective branch = refl
initializer_lem none [] (some s) id run_id objective branch = refl
initializer_lem none (f ∷ fs) none id run_id objective branch = refl
initializer_lem none (f ∷ fs) (some s) id run_id objective branch = refl
initializer_lem (some p) [] none id run_id objective branch = refl
initializer_lem (some p) [] (some s) id run_id objective branch = refl
initializer_lem (some p) (f ∷ fs) none id run_id objective branch = refl
initializer_lem (some p) (f ∷ fs) (some s) id run_id objective branch = refl

module _ {B W : Type 0} (platform : HarnessPlatform W) (h : Harness B W)
    (observer : Option (ChatEvent → W → W)) (laws : MemoryLaws h.memory)
    (request : RuntimeRunRequest) where
  open laws use {read}

  -- The request of the initializer has the parts of the request of the run.
  pub record Initializes (i : InitializerRequest) : Type 0 where
    pub session_id : i.session_id ≡ request.session.id
    pub run_id : i.run_id ≡ request.run_id
    pub active_branch : i.active_branch ≡ request.active_branch
    pub current_objective : i.current_objective ≡ request.current_objective
    pub init_plan : i.init_plan ≡ request.init_plan
    pub feature_list : i.feature_list ≡ request.feature_list
    pub summary_given : (s : String) → request.progress_summary ≡ some s → i.progress_summary ≡ s
    pub summary_default :
        request.progress_summary ≡ none → i.progress_summary ≡ "Initializer scaffold created"

  -- The request of the task iteration has the parts of the request of the run.
  pub record Iterates (t : TaskIterationRequest) : Type 0 where
    pub session : t.session ≡ request.session
    pub run_id : t.run_id ≡ request.run_id
    pub stream : t.stream ≡ request.stream
    pub prompt_override : t.prompt_override ≡ request.prompt_override

  -- The outcome of a run of a number of rounds on a memory that reads as `b` does.
  abbrev pub Ran : ℕ → B → Result HarnessError RuntimeRunOutcome → World B W → Type 0
  Ran rounds b (ok (initializer_outcome v)) w =
      (has_manifest (read b request.session.id).manifest ≡ false)
      × (i : InitializerRequest) × Initializes i
      × (w1 : World B W) × ((j : SessionId) → read w1.store j ≡ read b j)
      × (run_initializer platform h i w1 ≡ (ok v, w))
      × (now : ℕ) × Stored platform h laws i now w1.store (ok v) w.store
  Ran rounds b (ok (task_iteration_outcome v)) w =
      (has_manifest (read b request.session.id).manifest ≡ true)
      × (t : TaskIterationRequest) × Iterates t
      × (w1 : World B W) × ((j : SessionId) → read w1.store j ≡ read b j)
      × (run_task_iteration platform h observer rounds t w1 ≡ (ok v, w))
      × Closed platform h observer laws t (ok v) w
  Ran rounds b (err e) w = Unit
  Ran rounds b no_return w = Unit

  made-Initializes : Initializes (initializer_of request)
  unfolding initializer_of
  made-Initializes =
      subst Initializes
        (sym (
          initializer_lem request.init_plan request.feature_list request.progress_summary
            request.session.id request.run_id request.current_objective request.active_branch))
        (record {
          session_id = refl;
          run_id = refl;
          active_branch = refl;
          current_objective = refl;
          init_plan = refl;
          feature_list = refl;
          summary_given = (summary_lem request.progress_summary).0;
          summary_default = (summary_lem request.progress_summary).1;
        })
    where
      summary_lem :
          (o : Option String)
          → ((s : String) → o ≡ some s → summary_or_default o ≡ s)
            × (o ≡ none → summary_or_default o ≡ "Initializer scaffold created")
      summary_lem none = (λ s e. cc, λ e. refl)
      summary_lem (some x) = (λ s e. ground arith, λ e. cc)

  made-Iterates : Iterates (task_iteration_of request)
  unfolding task_iteration_of new_task_iteration enable_streaming with_prompt_override
  made-Iterates = elim (Option-cases request.prompt_override) [
    | inl p ↦ elim (Bool-cases request.stream) [
      | inl s ↦
          rw (p, s)
            (record { session = refl; run_id = refl; stream = refl; prompt_override = refl })
      | inr s ↦
          rw (p, s)
            (record { session = refl; run_id = refl; stream = refl; prompt_override = refl })
    ]
    | inr (x, p) ↦ elim (Bool-cases request.stream) [
      | inl s ↦
          rw (p, s)
            (record { session = refl; run_id = refl; stream = refl; prompt_override = refl })
      | inr s ↦
          rw (p, s)
            (record { session = refl; run_id = refl; stream = refl; prompt_override = refl })
    ]
  ]

  phase-Ran :
      (rounds : ℕ) (phase : HarnessPhase) (b : B) (w : World B W)
      → phase ≡ (
          if has_manifest (read b request.session.id).manifest then task_iteration else initializer)
      → ((j : SessionId) → read w.store j ≡ read b j)
      → let r = run_phase platform h observer rounds request phase w in Ran rounds b r.0 r.1
  unfolding run_phase pure
  phase-Ran rounds initializer b w chosen same =
      let i = initializer_of request in
      let m = run_initializer platform h i in
      let now = platform.now (h.hooks.on_phase_start initializer i.session_id i.run_id w.env) in
      bind_rule (Ran rounds b) _ m w
        (λ v e. (
          is_new _ chosen,
          i,
          made-Initializes,
          w,
          same,
          ap (λ r. (r, (m w).1)) e,
          now,
          subst (λ x. Stored platform h laws i now w.store x (m w).1.store) e
              (run_initializer-Stored platform h laws i w),
        ))
        (λ x e. tt) (λ e. tt)
    where
      is_new :
          (there : Bool)
          → initializer ≡ (if there then task_iteration else initializer)
          → there ≡ false
      is_new true e = cc
      is_new false e = refl
  phase-Ran rounds task_iteration b w chosen same =
      let t = task_iteration_of request in
      let m = run_task_iteration platform h observer rounds t in
      bind_rule (Ran rounds b) _ m w
        (λ v e. (
          is_old _ chosen,
          t,
          made-Iterates,
          w,
          same,
          ap (λ r. (r, (m w).1)) e,
          subst (λ x. Closed platform h observer laws t x (m w).1) e
              (run_task_iteration-Closed platform h observer laws t rounds w),
        ))
        (λ x e. tt) (λ e. tt)
    where
      is_old :
          (there : Bool)
          → task_iteration ≡ (if there then task_iteration else initializer)
          → there ≡ true
      is_old true e = refl
      is_old false e = cc

  -- On a memory that keeps the laws of a backend, a run that gives an outcome, from a memory in
  -- which the session has no manifest, is a run of the initializer on a memory with the same
  -- contents, for the request's session, run, objective, branch, plan, features and summary, which
  -- has stored what that run stores. Where the session has a manifest, it is a run of a task
  -- iteration on a memory with the same contents, for the request's session and run, with its
  -- choice of streaming and its prompt, and that iteration is closed.
  pub run-Ran :
      (rounds : ℕ) (w : World B W)
      → let r = run platform h observer rounds request w in Ran rounds w.store r.0 r.1
  unfolding run select_phase
  run-Ran rounds w =
      let id = request.session.id in
      let select = select_phase platform h observer id in
      bind_rule (Ran rounds w.store) _ select w
        (λ phase e.
          phase-Ran rounds phase w.store (select w).1
            (subst
              (λ x.
                Selected platform h observer laws (has_manifest (read w.store id).manifest) x
                  (select w).1)
              e (select_phase-Selected platform h observer laws id w))
            (select_phase-keeps platform h observer laws id w))
        (λ x e. tt) (λ e. tt)
