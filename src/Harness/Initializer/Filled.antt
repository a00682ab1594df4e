-- ===== src/Harness/Initializer/Filled.antt =====
-- What `run_initializer` of fharness/src/harness.rs leaves in the memory, in the terms of the laws of
-- the memory.
use fiddlesticks.Base.{
  ℕ, Bool, not, Option, none, some, ◌≡◌, ◌⊎◌, inl, inr, refl, sym, ap, subst, ◌∙◌, length, is_blank,
  string_eq, Bool-cases, arith,
}
use fiddlesticks.Exec.{
  Result, ok, err, no_return, map_err, pure, raise, lift, ok_or, found_or, catch_into, on_part,
}
use fiddlesticks.Exec.Rules.{bind_rule, applied_ok, ok_of_map_err}
use fiddlesticks.Common.{SessionId}
use fiddlesticks.Chat.Service.{World}
use fiddlesticks.Memory.Error.{MemoryError}
use fiddlesticks.Memory.Types.{SessionManifest, BootstrapState, new_progress, started}
use fiddlesticks.Memory.InMemory.{SessionState, has_manifest}
use fiddlesticks.Memory.Laws.{MemoryLaws, Gives, bootstrap_of_session, fill_in, at_session}
use fiddlesticks.Harness.Error.{HarnessError, HarnessErrorKind, of_memory_error, memory_kind}
use fiddlesticks.Harness.Types.{InitializerRequest, InitializerResult, initializer}
use fiddlesticks.Harness.Features.{validate_feature_list}
use fiddlesticks.Harness.Service.{HarnessPlatform, Harness, in_memory, with_phase_hooks}
use fiddlesticks.Harness.Initializer.{
  features_to_store, summary_to_store, manifest_to_store, store_session, run_initializer_inner,
  run_initializer,
}

module _ {B W : Type 0} (platform : HarnessPlatform W) (h : Harness B W)
    (laws : MemoryLaws h.memory) (request : InitializerRequest) where
  open laws use {read}

  -- The session with the entries of the request, made at a time, unless it has a manifest already.
  abbrev pub initialized_at : ℕ → SessionState → SessionState
  initialized_at now =
      fill_in (manifest_to_store platform h request) (features_to_store request)
        (some (new_progress now request.run_id (summary_to_store request)))
        (some (started now request.run_id))

  -- The result describes what is stored.
  abbrev pub Describes : SessionState → Bool → InitializerResult → Type 0
  Describes s created v =
      (m : SessionManifest) × (s.manifest ≡ some m)
      × (v ≡ record {
        session_id = m.session_id;
        created = created;
        schema_version = m.schema_version;
        harness_version = m.harness_version;
        feature_count = length s.feature_list;
      })

  abbrev pub Filled : ℕ → B → Result HarnessError InitializerResult → B → Type 0
  Filled now b (ok v) b' =
      ((j : SessionId)
        → read b' j ≡ at_session request.session_id j (initialized_at now) (read b j))
      × Describes (read b' request.session_id)
          (not (has_manifest (read b request.session_id).manifest)) v
  Filled now b (err e) b' =
      ((j : SessionId) → read b' j ≡ read b j) ⊎ (e.kind ≡ HarnessErrorKind.memory)
  Filled now b no_return b' = Unit

  abbrev FilledIn : ℕ → B → Result HarnessError InitializerResult → World B W → Type 0
  FilledIn now b r w = Filled now b r w.store

  given_by :
      {A : Type 0} (x a : A) (r : Result MemoryError A)
      → map_err of_memory_error r ≡ ok a
      → Gives x r
      → a ≡ x
  given_by x a r e g = subst (Gives x) (ok_of_map_err of_memory_error r e) g

  found_some :
      (o : Option SessionManifest) (e : HarnessError) {m : SessionManifest}
      → found_or e o ≡ ok m
      → o ≡ some m
  found_some none e h = cc
  found_some (some x) e h = ground arith

  describe :
      (s : SessionState) (expected created : Bool) (b : BootstrapState) (m : SessionManifest)
      → created ≡ expected
      → b ≡ bootstrap_of_session s
      → b.manifest ≡ some m
      → Describes s expected (record {
        session_id = m.session_id;
        created = created;
        schema_version = m.schema_version;
        harness_version = m.harness_version;
        feature_count = length b.feature_list;
      })
  describe s expected created b m c same there = (
    m,
    sym (ap (λ (x : BootstrapState). x.manifest) same) ∙ there,
    rw (c, ap (λ (x : BootstrapState). x.feature_list) same) refl,
  )

  store_session-Filled :
      (w : World B W)
      → let r = store_session platform h request w in
        Filled (platform.now w.env) w.store r.0 r.1.store
  unfolding store_session catch_into on_part pure lift
  store_session-Filled w =
      let id = request.session_id in
      let now = platform.now w.env in
      let m = manifest_to_store platform h request in
      let fs = features_to_store request in
      let entry = some (new_progress now request.run_id (summary_to_store request)) in
      let opening = some (started now request.run_id) in
      let init = h.memory.initialize_session_if_missing id m fs entry opening w.store in
      let load = h.memory.load_bootstrap_state id init.1 in
      let w1 = record w { store = init.1 } in
      let w2 = record w { store = load.1 } in
      bind_rule (FilledIn now w.store) _
        (in_memory (h.memory.initialize_session_if_missing id m fs entry opening)) w
        (λ created e.
          bind_rule (FilledIn now w.store) _ (in_memory (h.memory.load_bootstrap_state id)) w1
            (λ b e'.
              bind_rule (FilledIn now w.store) _ (ok_or _ b.manifest) w2
                (λ manifest there. (
                  (λ j.
                      laws.load_keeps init.1 id j
                      ∙ laws.initialize_fills w.store id j m fs entry opening
                      ∙ applied_ok of_memory_error _ (read w.store j) init.0 e),
                  describe (read load.1 id) (not (has_manifest (read w.store id).manifest)) created
                      b manifest
                      (given_by _ created init.0 e
                        (laws.initialize_gives w.store id m fs entry opening))
                      (given_by _ b load.0 e' (laws.load_gives init.1 id)
                        ∙ ap bootstrap_of_session (sym (laws.load_keeps init.1 id id)))
                      (found_some b.manifest _ there),
                ))
                (λ x there. inr (missing_kind b.manifest x there)) (λ e. tt))
            (λ x e'. inr (memory_kind load.0 x e')) (λ e. tt))
        (λ x e. inr (memory_kind init.0 x e)) (λ e. tt)
    where
      missing_kind :
          (o : Option SessionManifest) (x : HarnessError)
          → found_or
              (record {
                kind = HarnessErrorKind.memory;
                message = "manifest missing after initializer run";
              })
              o
            ≡ err x
          → x.kind ≡ HarnessErrorKind.memory
      missing_kind none x h = ground arith
      missing_kind (some m) x h = cc

  inner-Filled :
      (w : World B W)
      → let r = run_initializer_inner platform h request w in
        Filled (platform.now w.env) w.store r.0 r.1.store
  unfolding run_initializer_inner raise lift
  inner-Filled w = elim (Bool-cases (is_blank request.current_objective)) [
    | inl e ↦ rw e (inl (λ j. refl))
    | inr e ↦ simp e (
        bind_rule (FilledIn (platform.now w.env) w.store) _
          (lift (validate_feature_list (features_to_store request))) w
          (λ u _. store_session-Filled w) (λ x _. inl (λ j. refl)) (λ _. tt))
  ]

  pub run_initializer-Filled :
      (w : World B W)
      → let r = run_initializer platform h request w in
        let start = h.hooks.on_phase_start initializer request.session_id request.run_id w.env in
        Filled (platform.now start) w.store r.0 r.1.store
  unfolding run_initializer with_phase_hooks
  run_initializer-Filled w = inner-Filled (record w {
    env = h.hooks.on_phase_start initializer request.session_id request.run_id w.env;
  })
