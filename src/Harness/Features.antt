-- ===== src/Harness/Features.antt =====
-- The functions on feature lists at the end of fharness/src/harness.rs, and the selector of
-- fharness/src/traits.rs.
pub mod Validation
pub mod Pending
use fiddlesticks.Base.{
  String, Bool, true, false, not, ◌&&◌, Option, List, [], ◌∷◌, map, all, find, is_empty, contains,
  is_blank, join, concat, if◌then◌else◌, string_eq,
}
use fiddlesticks.Exec.{Result, ok, err}
use fiddlesticks.Memory.Types.{FeatureRecord}
use fiddlesticks.Harness.Error.{HarnessError, HarnessErrorKind, new}

unfoldable pub all_required_features_passed : List FeatureRecord → Bool
all_required_features_passed fs = not (is_empty fs) && all (λ f. f.passes) fs

-- `FirstPendingFeatureSelector`
unfoldable pub first_pending : List FeatureRecord → Option FeatureRecord
first_pending = find (λ f. not f.passes)

unfoldable pub build_feature_prompt : FeatureRecord → String → String
build_feature_prompt feature objective = concat (
    "Objective: "
    ∷ objective
    ∷ "\n\nWork on one feature incrementally and leave a clean handoff.\n\nFeature: "
    ∷ feature.id
    ∷ "\nCategory: "
    ∷ feature.category
    ∷ "\nDescription: "
    ∷ feature.description
    ∷ "\nValidation steps:\n"
    ∷ join "\n" (map (λ step. concat ("- " ∷ step ∷ [])) feature.steps)
    ∷ [])

abbrev invalid : List String → Result HarnessError (Unit {0})
invalid parts = err (new HarnessErrorKind.invalid_request (concat parts))

-- One round of the loop, given the ids of the features before it and the verdict on the rest.
unfoldable pub validate_feature :
    FeatureRecord → List String → Result HarnessError (Unit {0}) → Result HarnessError (Unit {0})
validate_feature f ids rest =
    if is_blank f.id
    then invalid ("feature_list entries require non-empty id" ∷ [])
    else if contains f.id ids
    then invalid ("feature_list contains duplicate id '" ∷ f.id ∷ "': ids must be unique" ∷ [])
    else if is_blank f.description
    then invalid ("feature '" ∷ f.id ∷ "' must include a non-empty description" ∷ [])
    else if is_empty f.steps
    then invalid ("feature '" ∷ f.id ∷ "' must include at least one validation step" ∷ [])
    else if f.passes
    then invalid
        ("feature '" ∷ f.id ∷ "' cannot start with passes=true during initializer phase" ∷ [])
    else rest

-- The loop; `ids` is the set of the ids seen so far.
unfoldable pub validate_features : List String → List FeatureRecord → Result HarnessError (Unit {0})
unfolding validate_feature
validate_features ids [] = ok tt
validate_features ids (f ∷ fs) = validate_feature f ids (validate_features (f.id ∷ ids) fs)

unfoldable pub validate_feature_list : List FeatureRecord → Result HarnessError (Unit {0})
unfolding validate_features
validate_feature_list fs =
    if is_empty fs
    then invalid ("feature_list must contain at least one feature" ∷ [])
    else validate_features [] fs

-- `feature(id, category, description, steps)`
abbrev feature : String → String → String → List String → FeatureRecord
feature id category description steps = record {
  id = id;
  category = category;
  description = description;
  steps = steps;
  passes = false;
}

unfoldable pub starter_feature_list : String → List FeatureRecord
starter_feature_list objective =
    feature "initializer.artifacts" "functional"
      (concat ("Initializer artifacts exist for objective: " ∷ objective ∷ []))
      ("Create init plan metadata" ∷ "Create session manifest" ∷ "Create starter feature list" ∷ [])
    ∷ feature "harness.baseline" "functional"
        "Baseline harness checks can run before task iterations"
        ("Run startup script" ∷ "Verify workspace status is readable"
          ∷ "Record baseline in progress log" ∷ [])
    ∷ feature "chat.turn" "functional" "Chat turn execution path is available" (
        "Create a chat session" ∷ "Run one non-streaming turn" ∷ "Persist transcript messages" ∷ [])
    ∷ feature "chat.streaming" "functional" "Streaming turn execution emits expected events" (
        "Run one streaming turn" ∷ "Observe text/tool events" ∷ "Observe terminal turn completion"
        ∷ [])
    ∷ feature "tool.loop" "functional" "Tool loop executes and feeds results back into model" (
        "Register at least one tool" ∷ "Execute tool call during turn"
        ∷ "Confirm follow-up completion" ∷ [])
    ∷ feature "quality.regression" "quality" "Regression test pass status is tracked" (
        "Run crate-level tests" ∷ "Capture failures in progress log"
        ∷ "Only mark feature pass after verification" ∷ [])
    ∷ []
