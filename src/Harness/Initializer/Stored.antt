-- ===== src/Harness/Initializer/Stored.antt =====
-- What `run_initializer` of fharness/src/harness.rs leaves in the memory.
use fiddlesticks.Base.Map
use fiddlesticks.Base.{
  ◌++◌, ◌∷◌, is_empty, concat, List, ==_refl, [], if◌then◌else◌, true, false, ◌==◌, String, ◌≢◌, ℕ,
  not, Option, none, some, ◌≡◌, ◌⊎◌, inl, inr, refl, sym, ap, subst, ◌∙◌, is_blank, string_eq,
  Bool-cases, arith,
}
use fiddlesticks.Exec.{Result, ok, err, no_return}
use fiddlesticks.Common.{SessionId}
use fiddlesticks.Chat.Service.{World}
use fiddlesticks.Memory.Types.{
  in_progress, new_manifest, with_harness_version, with_schema_version, SessionManifest,
}
use fiddlesticks.Memory.InMemory.{SessionState, has_manifest}
use fiddlesticks.Memory.Laws.{MemoryLaws}
use fiddlesticks.Harness.Error.{HarnessError, HarnessErrorKind}
use fiddlesticks.Harness.Types.{InitializerRequest, InitializerResult, initializer}
use fiddlesticks.Harness.Features.{starter_feature_list}
use fiddlesticks.Harness.Service.{HarnessPlatform, Harness}
use fiddlesticks.Harness.Initializer.{
  FeatureRecord, plan_or_default, with_schema_version, default_init_plan, with_harness_version,
  InitPlan, new_manifest, summary_to_store, manifest_to_store, run_initializer,
}
use fiddlesticks.Harness.Initializer.Filled.{
  initialized_at, Describes, Filled, run_initializer-Filled,
}

module _ {B W : Type 0} (platform : HarnessPlatform W) (h : Harness B W)
    (laws : MemoryLaws h.memory) (request : InitializerRequest) where
  open laws use {read}

  -- The session before and after the initializer has stored the entries of the request at a time.
  pub record Scaffolded (now : ℕ) (s s' : SessionState) : Type 0 where
    pub plan : InitPlan
    pub plan_given : (p : InitPlan) → request.init_plan ≡ some p → plan ≡ p
    pub plan_default : request.init_plan ≡ none → plan ≡ default_init_plan
    pub manifest :
        s'.manifest
        ≡ some (record {
          session_id = request.session_id;
          schema_version = h.schema_version;
          harness_version = h.harness_version;
          active_branch = request.active_branch;
          current_objective = request.current_objective;
          last_known_good_commit = none;
          init_plan = some plan;
          metadata = Map.empty;
        })
    pub features_given : request.feature_list ≢ [] → s'.feature_list ≡ request.feature_list
    pub features_default :
        request.feature_list ≡ [] → s'.feature_list ≡ starter_feature_list request.current_objective
    pub summary : String
    pub summary_given :
        is_blank request.progress_summary ≡ false → summary ≡ request.progress_summary
    pub summary_default :
        is_blank request.progress_summary ≡ true
        → summary
          ≡ concat ("Initializer scaffold created for objective: " ∷ request.current_objective ∷ [])
    pub progress :
        s'.progress
        ≡ s.progress ++ record { run_id = request.run_id; summary = summary; created_at = now } ∷ []
    pub checkpoints :
        s'.checkpoints
        ≡ s.checkpoints
          ++ record {
            run_id = request.run_id;
            started_at = now;
            completed_at = none;
            status = in_progress;
            note = none;
          }
            ∷ []
    pub transcript : s'.transcript ≡ s.transcript

  -- The entries of the request are stored in its session if that had no manifest, and nothing else.
  abbrev pub Stored : ℕ → B → Result HarnessError InitializerResult → B → Type 0
  Stored now b (ok v) b' =
      let before = read b request.session_id in
      let after = read b' request.session_id in
      ((j : SessionId) → request.session_id ≢ j → read b' j ≡ read b j)
      × ((m : SessionManifest)
          → before.manifest ≡ some m
          → (after ≡ before) × Describes platform h laws request after false v)
      × (before.manifest ≡ none
          → Scaffolded now before after × Describes platform h laws request after true v)
  Stored now b (err e) b' =
      ((j : SessionId) → read b' j ≡ read b j) ⊎ (e.kind ≡ HarnessErrorKind.memory)
  Stored now b no_return b' = Unit

  initialized-Scaffolded :
      (now : ℕ) (s : SessionState)
      → s.manifest ≡ none
      → Scaffolded now s (initialized_at platform h laws request now s)
  unfolding manifest_to_store new_manifest with_harness_version with_schema_version
  initialized-Scaffolded now s new = rw new (record {
    plan = plan_or_default request.init_plan;
    plan_given = (plan_lem request.init_plan).0;
    plan_default = (plan_lem request.init_plan).1;
    manifest = refl;
    features_given = (features_lem request.feature_list _).0;
    features_default = (features_lem request.feature_list _).1;
    summary = summary_to_store request;
    summary_given = λ e. rw e refl;
    summary_default = λ e. rw e refl;
    progress = refl;
    checkpoints = refl;
    transcript = refl;
  })
    where
      plan_lem :
          (o : Option InitPlan)
          → ((p : InitPlan) → o ≡ some p → plan_or_default o ≡ p)
            × (o ≡ none → plan_or_default o ≡ default_init_plan)
      plan_lem none = (λ p e. cc, λ e. refl)
      plan_lem (some x) = (λ p e. ground arith, λ e. cc)

      features_lem :
          (fs starter : List FeatureRecord)
          → (fs ≢ [] → (if is_empty fs then starter else fs) ≡ fs)
            × (fs ≡ [] → (if is_empty fs then starter else fs) ≡ starter)
      features_lem [] starter = (λ n. absurd (n refl), λ e. refl)
      features_lem (f ∷ fs) starter = (λ n. refl, λ e. cc)

  Filled-Stored :
      (now : ℕ) (b : B) (r : Result HarnessError InitializerResult) (b' : B)
      → Filled platform h laws request now b r b'
      → Stored now b r b'
  Filled-Stored now b (ok v) b' (all, described) =
      let id = request.session_id in
      let before = read b id in
      let here : read b' id ≡ initialized_at platform h laws request now before =
        all id
        ∙ ap (λ t. if t then initialized_at platform h laws request now before else before)
            (==_refl id) in
      (
        λ j other.
            all j
            ∙ ap
                (λ t. if t then initialized_at platform h laws request now (read b j) else read b j)
                (differ id j other),
        λ m there. (
          here ∙ rw there refl,
          subst (λ t. Describes platform h laws request (read b' id) (not (has_manifest t)) v) there
              described,
        ),
        λ new. (
          subst (Scaffolded now before) (sym (here ∙ rw new refl))
              (initialized-Scaffolded now before new),
          subst (λ t. Describes platform h laws request (read b' id) (not (has_manifest t)) v) new
              described,
        ),
      )
    where
      differ : (x y : String) → x ≢ y → (x == y) ≡ false
      differ x y n = elim (Bool-cases (x == y)) [
        | inl e ↦ absurd (n ((string_eq.beq_iff x y).0 e))
        | inr e ↦ e
      ]
  Filled-Stored now b (err e) b' f = f
  Filled-Stored now b no_return b' f = tt

  -- On a memory that keeps the laws of a backend, a run of the initializer that gives a result has
  -- left a session that had a manifest as it was. In one that had none it has stored a manifest
  -- with the request's branch, objective and plan, or the default plan, and with the harness's
  -- versions; the request's features, or else the starter list; and, at the time of the run, a
  -- progress entry with the request's summary, or the default one if that is blank, and a started
  -- checkpoint. No other session changes. The result says which, and describes what is stored then.
  -- A run that fails has changed nothing stored, unless its error is of the kind that a failing
  -- memory gives.
  pub run_initializer-Stored :
      (w : World B W)
      → let r = run_initializer platform h request w in
        let start = h.hooks.on_phase_start initializer request.session_id request.run_id w.env in
        Stored (platform.now start) w.store r.0 r.1.store
  run_initializer-Stored w =
      Filled-Stored _ _ _ _ (run_initializer-Filled platform h laws request w)
