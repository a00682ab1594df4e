-- ===== src/Harness/Initializer.antt =====
-- `run_initializer` and `run_initializer_inner` of fharness/src/harness.rs.
pub mod Filled
pub mod Stored
use fiddlesticks.Base.{
  String, Option, none, some, List, [], ◌∷◌, is_empty, is_blank, length, concat, if◌then◌else◌,
}
use fiddlesticks.Exec.{Exec, pure, raise, lift, ok_or, ◌>>=◌, ◌>>◌}
use fiddlesticks.Chat.Service.{World}
use fiddlesticks.Memory.Types.{
  SessionManifest, FeatureRecord, InitPlan, new_progress, started, new_manifest,
  with_schema_version, with_harness_version,
}
use fiddlesticks.Harness.Error.{HarnessError, HarnessErrorKind, new}
use fiddlesticks.Harness.Types.{InitializerRequest, InitializerResult, initializer}
use fiddlesticks.Harness.Features.{validate_feature_list, starter_feature_list}
use fiddlesticks.Harness.Service.{
  HarnessPlatform, Harness, in_memory, default_init_plan, with_phase_hooks,
}

-- `unwrap_or_else(default_init_plan)`
abbrev pub plan_or_default : Option InitPlan → InitPlan
plan_or_default none = default_init_plan
plan_or_default (some p) = p

abbrev pub features_to_store : InitializerRequest → List FeatureRecord
features_to_store r =
    if is_empty r.feature_list then starter_feature_list r.current_objective else r.feature_list

abbrev pub summary_to_store : InitializerRequest → String
summary_to_store r =
    if is_blank r.progress_summary
    then concat ("Initializer scaffold created for objective: " ∷ r.current_objective ∷ [])
    else r.progress_summary

module _ {B W : Type 0} (platform : HarnessPlatform W) (h : Harness B W) where
  unfoldable pub manifest_to_store : InitializerRequest → SessionManifest
  unfolding with_harness_version with_schema_version new_manifest
  manifest_to_store r =
      let m = new_manifest r.session_id r.active_branch r.current_objective in
      let m' = with_harness_version h.harness_version (with_schema_version h.schema_version m) in
      record m' { init_plan = some (plan_or_default r.init_plan) }

  -- Store the session unless it is there, and read back what is stored.
  store_session : InitializerRequest → Exec (World B W) HarnessError InitializerResult
  unfolding manifest_to_store
  store_session r w =
      let now = platform.now w.env in
      (do
        created ← in_memory (
            h.memory.initialize_session_if_missing r.session_id (manifest_to_store r)
              (features_to_store r) (some (new_progress now r.run_id (summary_to_store r)))
              (some (started now r.run_id)))
        bootstrap ← in_memory (h.memory.load_bootstrap_state r.session_id)
        manifest ←
            ok_or (new HarnessErrorKind.memory "manifest missing after initializer run")
              bootstrap.manifest
        pure (record {
          session_id = manifest.session_id;
          created = created;
          schema_version = manifest.schema_version;
          harness_version = manifest.harness_version;
          feature_count = length bootstrap.feature_list;
        }))
        w

  unfoldable pub run_initializer_inner :
      InitializerRequest → Exec (World B W) HarnessError InitializerResult
  unfolding store_session
  run_initializer_inner r =
      if is_blank r.current_objective
      then raise (new HarnessErrorKind.invalid_request "current_objective must not be empty")
      else (lift (validate_feature_list (features_to_store r)) >> store_session r)

  unfoldable pub run_initializer :
      InitializerRequest → Exec (World B W) HarnessError InitializerResult
  unfolding run_initializer_inner with_phase_hooks
  run_initializer r =
      with_phase_hooks platform h initializer r.session_id r.run_id (run_initializer_inner r)
