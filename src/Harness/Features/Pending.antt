-- ===== src/Harness/Features/Pending.antt =====
-- The features that have not passed yet, and what the harness does to their number.
use fiddlesticks.Base.{
  ℕ, suc, String, true, false, not, some, List, [], ◌∷◌, count, ◌≡◌, subst, All, ◌==◌, string_eq,
  ==_refl, arith, Bool-cases, inl, inr,
}
use fiddlesticks.Memory.Types.{FeatureRecord}
use fiddlesticks.Memory.Laws.{pass_first}
use fiddlesticks.Harness.Features.{first_pending}
use fiddlesticks.Harness.Features.Validation.{Distinct}

abbrev pub pending : List FeatureRecord → ℕ
pending = count (λ f. not f.passes)

-- No feature of the list has the id.
abbrev pub Without : String → List FeatureRecord → Type 0
Without id = All (λ (g : FeatureRecord). (id == g.id) ≡ false)

Without-pass_first :
    (id k : String) (fs : List FeatureRecord) → Without id fs → Without id (pass_first k true fs)
Without-pass_first id k [] h = tt
Without-pass_first id k (f ∷ fs) (e, h) = elim (Bool-cases (f.id == k)) [
  | inl same ↦ rw same (e, h)
  | inr other ↦ rw other (e, Without-pass_first id k fs h)
]

pub Distinct-pass_first :
    (k : String) (fs : List FeatureRecord) → Distinct fs → Distinct (pass_first k true fs)
Distinct-pass_first k [] h = tt
Distinct-pass_first k (f ∷ fs) (e, h) = elim (Bool-cases (f.id == k)) [
  | inl same ↦ rw same (e, h)
  | inr other ↦ rw other (Without-pass_first f.id k fs e, Distinct-pass_first k fs h)
]

-- What is found in a list has what all entries have.
found_other :
    (id : String) (fs : List FeatureRecord) (f : FeatureRecord)
    → first_pending fs ≡ some f
    → Without id fs
    → (id == f.id) ≡ false
unfolding first_pending
found_other id [] f h w = cc
found_other id (g ∷ fs) f h (e, w) = elim (Bool-cases g.passes) [
  | inl passed ↦ found_other id fs f (simp passed at h) w
  | inr waits ↦ subst (λ (x : FeatureRecord). (id == x.id) ≡ false) (some_inj (simp waits at h)) e
]
  where
    some_inj : {a b : FeatureRecord} → some a ≡ some b → a ≡ b
    some_inj h = ground arith

-- Once the first pending feature has passed, there is one pending feature less.
pub pending-pass_first :
    (fs : List FeatureRecord) (f : FeatureRecord)
    → first_pending fs ≡ some f
    → Distinct fs
    → suc (pending (pass_first f.id true fs)) ≡ pending fs
unfolding first_pending
pending-pass_first [] f h d = cc
pending-pass_first (g ∷ fs) f h (e, d) = elim (Bool-cases g.passes) [
  | inl passed ↦
      let later : first_pending fs ≡ some f = simp passed at h in
      let other : (g.id == f.id) ≡ false = found_other g.id fs f later e in
      rw (other, passed) (omega (arith, pending-pass_first fs f later d))
  | inr waits ↦
      subst
        (λ (x : FeatureRecord). suc (pending (pass_first x.id true (g ∷ fs))) ≡ pending (g ∷ fs))
        (some_inj (simp waits at h)) (rw (==_refl g.id, waits) (omega arith))
]
  where
    some_inj : {a b : FeatureRecord} → some a ≡ some b → a ≡ b
    some_inj h = ground arith
