-- ===== src/Harness/Features/Validation.antt =====
-- What `validate_feature_list` of fharness/src/harness.rs accepts.
use fiddlesticks.Base.{
  String, text_append, concat, false, List, [], ◌∷◌, contains, is_blank, is_empty, ◌≡◌, refl, ◌↔◌,
  All, ◌==◌, string_eq, arith,
}
use Prim.Native.Char.{Char}
use Prim.Native.String.append
use fiddlesticks.Exec.{Result, ok}
use fiddlesticks.Memory.Types.{FeatureRecord}
use fiddlesticks.Harness.Error.{HarnessError}
use fiddlesticks.Harness.Features.{
  validate_feature, validate_features, validate_feature_list, starter_feature_list,
  all_required_features_passed,
}

-- A feature that the initializer may store.
abbrev pub Startable : FeatureRecord → Type 0
Startable f =
    (is_blank f.id ≡ false)
    × (is_blank f.description ≡ false)
    × (is_empty f.steps ≡ false)
    × (f.passes ≡ false)

-- No id stands twice in the list.
abbrev pub Distinct : List FeatureRecord → Type 0
Distinct [] = Unit
Distinct (f ∷ fs) = All (λ (g : FeatureRecord). (f.id == g.id) ≡ false) fs × Distinct fs

-- None of the features has one of the ids.
abbrev Apart : List String → List FeatureRecord → Type 0
Apart ids = All (λ (f : FeatureRecord). contains f.id ids ≡ false)

Apart-more :
    (id : String) (ids : List String) (fs : List FeatureRecord)
    → Apart (id ∷ ids) fs ↔ (All (λ (g : FeatureRecord). (id == g.id) ≡ false) fs × Apart ids fs)
Apart-more id ids [] = (λ h. (tt, tt), λ h. tt)
Apart-more id ids (f ∷ fs) =
    let (front, back) = Apart-more id ids fs in
    (
      (λ (e, h). let (p, q) = front h in ((ground arith, p), (ground arith, q))),
      (λ ((e, p), (e', q)). (ground arith, back (p, q))),
    )

validate_feature_iff :
    (f : FeatureRecord) (ids : List String) (rest : Result HarnessError (Unit {0}))
    → (validate_feature f ids rest ≡ ok tt)
      ↔ (Startable f × (contains f.id ids ≡ false) × (rest ≡ ok tt))
unfolding validate_feature
validate_feature_iff f ids rest = (λ h. ground arith, λ h. ground arith)

validate_features_iff :
    (ids : List String) (fs : List FeatureRecord)
    → (validate_features ids fs ≡ ok tt) ↔ (All Startable fs × Distinct fs × Apart ids fs)
unfolding validate_features
validate_features_iff ids [] = (λ h. (tt, tt, tt), λ h. refl)
validate_features_iff ids (f ∷ fs) =
    let (front, back) = validate_features_iff (f.id ∷ ids) fs in
    let (first, last) = validate_feature_iff f ids (validate_features (f.id ∷ ids) fs) in
    let (apart, together) = Apart-more f.id ids fs in
    (
      (λ h.
          let (start, new, rest) = first h in
          let (starts, distinct, away) = front rest in
          let (other, seen) = apart away in ((start, starts), (other, distinct), (new, seen))),
      (λ ((start, starts), (other, distinct), (new, seen)).
          last (start, new, back (starts, distinct, together (other, seen)))),
    )

nothing-Apart : (fs : List FeatureRecord) → Apart [] fs
nothing-Apart [] = tt
nothing-Apart (f ∷ fs) = (refl, nothing-Apart fs)

-- The initializer accepts a list of features exactly if there is one in it, no id stands twice, and
-- each feature has an id and a description that are not blank, has a step and has not passed yet.
pub validate_feature_list_iff :
    (fs : List FeatureRecord)
    → (validate_feature_list fs ≡ ok tt) ↔ ((is_empty fs ≡ false) × All Startable fs × Distinct fs)
unfolding validate_feature_list
validate_feature_list_iff fs =
    let (front, back) = validate_features_iff [] fs in
    (
      (λ h.
          let (starts, distinct, away) = front (ground arith) in (ground arith, starts, distinct)),
      (λ (e, starts, distinct). rw e (back (starts, distinct, nothing-Apart fs))),
    )

blank_append :
    (c : Char) (s t : String)
    → is_blank (String.◌∷◌ c String.[]) ≡ false
    → is_blank (text_append (String.◌∷◌ c s) t) ≡ false
unfolding is_blank
blank_append c s t h = rw (append.cons c s t) (ground arith)

-- The starter list that is stored where a request brings no features is one that is accepted, with
-- none of its features passed, whatever the objective.
validate_feature_list-starter_feature_list :
    (objective : String)
    → (validate_feature_list (starter_feature_list objective) ≡ ok tt)
      × (all_required_features_passed (starter_feature_list objective) ≡ false)
unfolding validate_feature_list validate_features validate_feature starter_feature_list
    all_required_features_passed is_blank
validate_feature_list-starter_feature_list objective = (
  rw (blank_append "I" "nitializer artifacts exist for objective: " (concat (objective ∷ [])) refl)
      refl,
  refl,
)
