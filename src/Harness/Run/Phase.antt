-- ===== src/Harness/Run/Phase.antt =====
-- Which phase `run` of fharness/src/harness.rs selects.
use fiddlesticks.Base.{
  ℕ, String, Bool, true, false, Option, ◌≡◌, refl, sym, ap, subst, ◌∙◌, not, ◌==◌, Bool-cases, inl,
  inr, if◌then◌else◌, string_eq,
}
use fiddlesticks.Exec.{Result, ok, err, no_return, pure, catch_into, on_part}
use fiddlesticks.Exec.Rules.{bind_rule, ok_of_map_err}
use fiddlesticks.Chat.Types.{ChatEvent}
use fiddlesticks.Chat.Service.{World}
use fiddlesticks.Memory.InMemory.{has_manifest}
use fiddlesticks.Memory.Laws.{MemoryLaws, Gives, at_session}
use fiddlesticks.Harness.Error.{HarnessError, of_memory_error}
use fiddlesticks.Harness.Types.{
  InitializerRequest, InitializerResult, HarnessPhase, initializer, task_iteration,
}
use fiddlesticks.Harness.Service.{HarnessPlatform, Harness, in_memory}
use fiddlesticks.Harness.Initializer.{run_initializer}
use fiddlesticks.Harness.Initializer.Filled.{Filled, initialized_at, run_initializer-Filled}
use fiddlesticks.Harness.Run.{select_phase}

module _ {B W : Type 0} (platform : HarnessPlatform W) (h : Harness B W)
    (observer : Option (ChatEvent → W → W)) (laws : MemoryLaws h.memory) where
  open laws use {read}

  abbrev pub Selected : Bool → Result HarnessError HarnessPhase → World B W → Type 0
  Selected there (ok phase) w = phase ≡ (if there then task_iteration else initializer)
  Selected there (err e) w = Unit
  Selected there no_return w = Unit

  pub select_phase-Selected :
      (id : String) (w : World B W)
      → let r = select_phase platform h observer id w in
        Selected (has_manifest (read w.store id).manifest) r.0 r.1
  unfolding select_phase pure catch_into on_part
  select_phase-Selected id w =
      let there = has_manifest (read w.store id).manifest in
      bind_rule (Selected there) _ (in_memory (h.memory.is_initialized id)) w
        (λ b e.
          ap (λ t. if t then task_iteration else initializer)
            (subst (Gives there)
              (ok_of_map_err of_memory_error (h.memory.is_initialized id w.store).0 e)
              (laws.initialized_gives w.store id)))
        (λ x e. tt) (λ e. tt)

  pub select_phase-keeps :
      (id : String) (w : World B W) (j : String)
      → read (select_phase platform h observer id w).1.store j ≡ read w.store j
  unfolding select_phase pure catch_into on_part
  select_phase-keeps id w j =
      let kept = laws.initialized_keeps w.store id j in
      bind_rule (λ r s. read s.store j ≡ read w.store j) _ (in_memory (h.memory.is_initialized id))
        w (λ b e. kept) (λ x e. kept) (λ e. kept)

  -- After a run of the initializer that gave a result.
  has_after :
      (request : InitializerRequest) (w : World B W) (v : InitializerResult)
      → (run_initializer platform h request w).0 ≡ ok v
      → has_manifest
          (read (run_initializer platform h request w).1.store request.session_id).manifest
        ≡ true
  has_after request w v e =
      let r = run_initializer platform h request w in
      let start = h.hooks.on_phase_start initializer request.session_id request.run_id w.env in
      let (all, (m, there, _)) =
        subst (λ x. Filled platform h laws request (platform.now start) w.store x r.1.store) e
          (run_initializer-Filled platform h laws request w) in
      ap has_manifest there

  -- Where there is a manifest, the initializer's entries are not filled in.
  unfilled :
      (id j : String) (now : ℕ) (request : InitializerRequest) (w : World B W)
      → has_manifest (read w.store id).manifest ≡ true
      → at_session id j (initialized_at platform h laws request now) (read w.store j)
        ≡ read w.store j
  unfilled id j now request w there = elim (Bool-cases (id == j)) [
    | inl e ↦
        let there' : has_manifest (read w.store j).manifest ≡ true =
          ap (λ i. has_manifest (read w.store i).manifest) (sym ((string_eq.beq_iff id j).0 e))
          ∙ there in
        rw (e, there') refl
    | inr e ↦ rw e refl
  ]

  -- Once a run of the initializer has given a result for a session, the phase that is selected for
  -- it, if the memory answers, is the task iteration; and a further run of the initializer for it,
  -- whatever it is asked to store, that gives a result says that it created nothing and changes
  -- nothing that is stored.
  pub run_initializer-once :
      (request later : InitializerRequest) (w : World B W) (v v' : InitializerResult)
      (phase : HarnessPhase)
      → later.session_id ≡ request.session_id
      → (run_initializer platform h request w).0 ≡ ok v
      → let w1 = (run_initializer platform h request w).1 in
        (select_phase platform h observer request.session_id w1).0 ≡ ok phase
        → (run_initializer platform h later w1).0 ≡ ok v'
        → (phase ≡ task_iteration)
          × (v'.created ≡ false)
          × ((j : String) → read (run_initializer platform h later w1).1.store j ≡ read w1.store j)
  run_initializer-once request later w v v' phase same first selected second =
      let w1 = (run_initializer platform h request w).1 in
      let there = has_after request w v first in
      let r = select_phase platform h observer request.session_id w1 in
      let again = run_initializer platform h later w1 in
      let start = h.hooks.on_phase_start initializer later.session_id later.run_id w1.env in
      let there' : has_manifest (read w1.store later.session_id).manifest ≡ true =
        ap (λ id. has_manifest (read w1.store id).manifest) same ∙ there in
      let (all, (m, _, described)) =
        subst (λ x. Filled platform h laws later (platform.now start) w1.store x again.1.store)
          second (run_initializer-Filled platform h laws later w1) in
      (
        subst (λ x. Selected true x r.1) selected
            (subst (λ x. Selected x r.0 r.1) there (select_phase-Selected request.session_id w1)),
        ap (λ x. x.created) described ∙ ap not there',
        λ j. all j ∙ unfilled later.session_id j (platform.now start) later w1 there',
      )
