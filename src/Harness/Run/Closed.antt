-- ===== src/Harness/Run/Closed.antt =====
-- How `run_task_iteration` of fharness/src/harness.rs closes an iteration.
use fiddlesticks.Base.{
  false, Bool-cases, true, arith, length, to_decimal, ℕ, String, Option, none, some, List, [], ◌∷◌,
  ◌++◌, ◌≡◌, ◌⊎◌, inl, inr, refl, ap, ◌∙◌, concat, if◌then◌else◌, string_eq, ==_refl, subst,
}
use fiddlesticks.Exec.{Result, ok, err, no_return, Exec, map_err, pure, raise, catch_into, on_part}
use fiddlesticks.Exec.Rules.{bind_rule, on_result_rule, Result-rule, applied_ok}
use fiddlesticks.Chat.Types.{ChatEvent}
use fiddlesticks.Chat.Service.{World, ChatService}
use fiddlesticks.Memory.Types.{RunCheckpoint, RunStatus, failed, started, new_progress}
use fiddlesticks.Memory.Laws.{MemoryLaws, add_progress, add_checkpoint}
use fiddlesticks.Harness.Error.{
  HarnessError, HarnessErrorKind, to_string, of_memory_error, memory_kind,
}
use fiddlesticks.Harness.Types.{TaskIterationRequest, TaskIterationResult, task_iteration}
use fiddlesticks.Harness.Service.{HarnessPlatform, Harness, in_memory, with_phase_hooks}
use fiddlesticks.Harness.Iteration.{run_task_iteration_inner}
use fiddlesticks.Harness.Run.{
  succeeded, or_unknown, handoff_of, record_final_handoff, hand_off, iterate_with,
  run_task_iteration,
}

abbrev pub failure_note : HarnessError → String
failure_note e = concat ("Run failed: " ∷ to_string e ∷ [])

-- What is handed off of a result: it succeeded if no features are pending or the run is validated,
-- and the note says which and counts the features.
abbrev pub HandedOff : TaskIterationResult → RunStatus → String → Type 0
HandedOff v status note =
    let processed = to_decimal v.processed_feature_count in
    let validated = to_decimal (length v.validated_feature_ids) in
    ((v.no_pending_features ≡ true)
      × (status ≡ succeeded)
      × (note
          ≡ concat (
              "All required features pass=true in feature_list; completion gate satisfied (processed="
              ∷ processed ∷ ", validated=" ∷ validated ∷ ")" ∷ [])))
    ⊎ (((v.no_pending_features ≡ false)
          × (v.validated ≡ true)
          × (status ≡ succeeded)
          × (note
              ≡ concat (
                  "Validated " ∷ validated ∷ " feature(s) this run (processed=" ∷ processed
                  ∷ "); remaining required features still pending" ∷ [])))
        ⊎ ((v.no_pending_features ≡ false)
            × (v.validated ≡ false)
            × (status ≡ failed)
            × (feature : String) × ((k : String) → v.selected_feature_id ≡ some k → feature ≡ k)
            × (v.selected_feature_id ≡ none → feature ≡ "unknown")
            × (note
                ≡ concat (
                    "Feature '" ∷ feature ∷ "' was not validated; processed=" ∷ processed
                    ∷ " validated=" ∷ validated ∷ " and left failing for next run" ∷ []))))

handed_off : (v : TaskIterationResult) → HandedOff v (handoff_of v).0 (handoff_of v).1
unfolding handoff_of
handed_off v = elim (Bool-cases v.no_pending_features) [
  | inl done ↦ inl (done, rw done refl, rw done refl)
  | inr pending ↦ elim (Bool-cases v.validated) [
    | inl good ↦ inr (inl (pending, good, rw (pending, good) refl, rw (pending, good) refl))
    | inr bad ↦
        let (named, unnamed) = or_unknown_lem v.selected_feature_id in
        inr (
          inr (
            pending,
            bad,
            rw (pending, bad) refl,
            or_unknown v.selected_feature_id,
            named,
            unnamed,
            rw (pending, bad) refl,
          ))
  ]
]
  where
    or_unknown_lem :
        (o : Option String)
        → ((k : String) → o ≡ some k → or_unknown o ≡ k) × (o ≡ none → or_unknown o ≡ "unknown")
    or_unknown_lem none = (λ k e. cc, λ e. refl)
    or_unknown_lem (some x) = (λ k e. ground arith, λ e. cc)

module _ {B W : Type 0} (platform : HarnessPlatform W) (h : Harness B W)
    (observer : Option (ChatEvent → W → W)) (laws : MemoryLaws h.memory)
    (request : TaskIterationRequest) where
  open laws use {read}

  -- The session's last checkpoint and its last progress entry are those of this run, with this
  -- status and note.
  abbrev pub ClosedWith : RunStatus → String → B → Type 0
  ClosedWith status note b =
      let s = read b request.session.id in
      (before : List RunCheckpoint) × (progress : List _) × (started_at : ℕ) × (at : ℕ)
      × (noted_at : ℕ) × (s.checkpoints
          ≡ before
            ++ record {
              run_id = request.run_id;
              started_at = started_at;
              completed_at = some at;
              status = status;
              note = some note;
            }
              ∷ [])
      × (s.progress ≡ progress ++ new_progress noted_at request.run_id note ∷ [])

  -- An iteration that gives a result is closed as the result says; one that fails is closed as
  -- failed, unless the memory failed or there is no chat service.
  abbrev pub Closed : Result HarnessError TaskIterationResult → World B W → Type 0
  Closed (ok v) w =
      (status : RunStatus) × (note : String) × HandedOff v status note
      × ClosedWith status note w.store
  Closed (err e) w =
      ClosedWith failed (failure_note e) w.store
      ⊎ ((e.kind ≡ HarnessErrorKind.memory) ⊎ (e.kind ≡ HarnessErrorKind.not_ready))
  Closed no_return w = Unit

  abbrev Recorded : RunStatus → String → Result HarnessError (Unit {0}) → World B W → Type 0
  Recorded status note (ok u) w = ClosedWith status note w.store
  Recorded status note (err e) w = e.kind ≡ HarnessErrorKind.memory
  Recorded status note no_return w = Unit

  record_final_handoff-Recorded :
      (started_at : ℕ) (status : RunStatus) (note : String) (w : World B W)
      → let r = record_final_handoff platform h observer request started_at status note w in
        Recorded status note r.0 r.1
  unfolding record_final_handoff catch_into on_part
  record_final_handoff-Recorded started_at status note w =
      let id = request.session.id in
      let now = platform.now w.env in
      let closing : RunCheckpoint = record {
        run_id = request.run_id;
        started_at = started_at;
        completed_at = some now;
        status = status;
        note = some note;
      } in
      let entry = new_progress now request.run_id note in
      let first = h.memory.record_run_checkpoint id closing w.store in
      let second = h.memory.append_progress_entry id entry first.1 in
      let w' = record w { store = second.1 } in
      bind_rule (Recorded status note) _ (in_memory (h.memory.record_run_checkpoint id closing)) w
        (λ a e.
          Result-rule (λ r. Recorded status note r w') (map_err of_memory_error second.0)
            (λ u e'.
              let before = read w.store id in
              let s1 : read first.1 id ≡ add_checkpoint closing before =
                laws.checkpoint_adds w.store id id closing
                ∙ applied_ok of_memory_error _ before first.0 e
                ∙ ap (λ t. if t then add_checkpoint closing before else before) (==_refl id) in
              let s2 : read second.1 id ≡ add_progress entry (add_checkpoint closing before) =
                laws.progress_adds first.1 id id entry
                ∙ applied_ok of_memory_error _ (read first.1 id) second.0 e'
                ∙ ap (λ t. if t then add_progress entry (read first.1 id) else read first.1 id)
                    (==_refl id)
                ∙ ap (add_progress entry) s1 in
              (
                before.checkpoints,
                before.progress,
                started_at,
                now,
                now,
                ap (λ s. s.checkpoints) s2,
                ap (λ s. s.progress) s2,
              ))
            (λ x e'. memory_kind second.0 x e') (λ e'. tt))
        (λ x e. memory_kind first.0 x e) (λ e. tt)

  hand_off-Closed :
      (started_at : ℕ) (m : Exec (World B W) HarnessError TaskIterationResult) (w : World B W)
      → let r = hand_off platform h observer request started_at m w in Closed r.0 r.1
  unfolding hand_off pure raise
  hand_off-Closed started_at m w =
      let w' = (m w).1 in
      let recorded =
        λ (status : RunStatus) (note : String) (r : Result HarnessError (Unit {0}))
            (e : (record_final_handoff platform h observer request started_at status note w').0
              ≡ r).
          subst
            (λ x.
              Recorded status note x
                (record_final_handoff platform h observer request started_at status note w').1)
            e (record_final_handoff-Recorded started_at status note w') in
      on_result_rule Closed _ _ m w
        (λ v _.
          let (status, note) = handoff_of v in
          bind_rule Closed _
            (record_final_handoff platform h observer request started_at status note) w'
            (λ u e. (status, note, handed_off v, recorded status note (ok u) e))
            (λ x e. inr (inl (recorded status note (err x) e))) (λ e. tt))
        (λ x _.
          let note = failure_note x in
          bind_rule Closed _
            (record_final_handoff platform h observer request started_at failed note) w'
            (λ u e. inl (recorded failed note (ok u) e))
            (λ y e. inr (inl (recorded failed note (err y) e))) (λ e. tt))
        (λ e. tt)

  iterate_with-Closed :
      (rounds : ℕ) (o : Option (ChatService B W)) (w : World B W)
      → let r = iterate_with platform h observer o rounds request w in Closed r.0 r.1
  unfolding iterate_with raise catch_into on_part
  iterate_with-Closed rounds none w = inr (inr refl)
  iterate_with-Closed rounds (some chat) w =
      let now = platform.now w.env in
      let opening = started now request.run_id in
      bind_rule Closed _ (in_memory (h.memory.record_run_checkpoint request.session.id opening)) w
        (λ u e.
          hand_off-Closed now (run_task_iteration_inner platform h chat observer rounds request) _)
        (λ x e. inr (inl (memory_kind _ x e))) (λ e. tt)

  same_store-Closed :
      (r : Result HarnessError TaskIterationResult) (w w' : World B W)
      → w'.store ≡ w.store
      → Closed r w
      → Closed r w'
  same_store-Closed (ok v) w w' e c = rw e c
  same_store-Closed (err x) w w' e c = rw e c
  same_store-Closed no_return w w' e c = tt

  -- On a memory that keeps the laws of a backend, a task iteration that gives a result has left the
  -- session with a last checkpoint and a last progress entry of this run. Their status is succeeded
  -- if the result says that no features are pending or that the run is validated, and failed
  -- otherwise; their note says which, with the counts of the result. One that fails has left them
  -- with the status failed and the error as the note, unless the error is of the kind that a
  -- failing memory or a missing chat service gives.
  pub run_task_iteration-Closed :
      (rounds : ℕ) (w : World B W)
      → let r = run_task_iteration platform h observer rounds request w in Closed r.0 r.1
  unfolding run_task_iteration with_phase_hooks
  run_task_iteration-Closed rounds w =
      let w1 = record w {
        env = h.hooks.on_phase_start task_iteration request.session.id request.run_id w.env;
      } in
      let r = iterate_with platform h observer h.chat rounds request w1 in
      same_store-Closed r.0 r.1 _ refl (iterate_with-Closed rounds h.chat w1)
