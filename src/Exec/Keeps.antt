-- ===== src/Exec/Keeps.antt =====
-- Actions that leave a view of the state alone, one rule for each way to build an action.
use fiddlesticks.Base.{◌≡◌, refl, ◌∙◌, Bool, true, false, if◌then◌else◌}
use fiddlesticks.Exec.{
  Result, ok, err, no_return, Exec, lift, pure, raise, continue, ◌>>=◌, catch_into, on_result,
  branch,
}

-- Whether `m` returns or fails, `view` reads after it what it read before.
pub record Keeps {ℓ} {S T E A : Type ℓ} (view : S → T) (m : Exec S E A) : Type ℓ where
  pub at : (s : S) → view (m s).1 ≡ view s

module _ {ℓ} {S T E A : Type ℓ} {view : S → T} where
  pub Keeps-lift : (r : Result E A) → Keeps view (lift r)
  unfolding lift
  Keeps-lift r = record { at = λ s. refl }

  pub Keeps-pure : (a : A) → Keeps {E = E} view (pure a)
  unfolding pure
  Keeps-pure a = record { at = λ s. refl }

  pub Keeps-raise : (e : E) → Keeps {A = A} view (raise e)
  unfolding raise
  Keeps-raise e = record { at = λ s. refl }

  pub Keeps-if :
      (b : Bool) (m n : Exec S E A) → Keeps view m → Keeps view n → Keeps view (if b then m else n)
  Keeps-if true m n km kn = km
  Keeps-if false m n km kn = kn

module _ {ℓ} {S T E A B : Type ℓ} {view : S → T} where
  continue-Keeps :
      (f : A → Exec S E B)
      → ((a : A) → Keeps view (f a))
      → (r : Result E A) (s : S) → view (continue r f s).1 ≡ view s
  continue-Keeps f k (ok a) s = (k a).at s
  continue-Keeps f k (err e) s = refl
  continue-Keeps f k no_return s = refl

  pub Keeps-bind :
      (m : Exec S E A) (f : A → Exec S E B)
      → Keeps view m
      → ((a : A) → Keeps view (f a))
      → Keeps view (m >>= f)
  unfolding ◌>>=◌
  Keeps-bind m f km kf = record { at = λ s. continue-Keeps f kf (m s).0 (m s).1 ∙ km.at s }

module _ {ℓ} {S T E F A : Type ℓ} {view : S → T} where
  pub Keeps-catch_into : (f : E → F) (m : Exec S E A) → Keeps view m → Keeps view (catch_into f m)
  unfolding catch_into
  Keeps-catch_into f m k = record { at = λ s. k.at s }

module _ {ℓ} {S T E F A B : Type ℓ} {view : S → T} where
  branch-Keeps :
      (f : A → Exec S F B) (g : E → Exec S F B)
      → ((a : A) → Keeps view (f a))
      → ((e : E) → Keeps view (g e))
      → (r : Result E A) (s : S) → view (branch r f g s).1 ≡ view s
  branch-Keeps f g kf kg (ok a) s = (kf a).at s
  branch-Keeps f g kf kg (err e) s = (kg e).at s
  branch-Keeps f g kf kg no_return s = refl

  pub Keeps-on_result :
      (m : Exec S E A) (f : A → Exec S F B) (g : E → Exec S F B)
      → Keeps view m
      → ((a : A) → Keeps view (f a))
      → ((e : E) → Keeps view (g e))
      → Keeps view (on_result m f g)
  unfolding on_result
  Keeps-on_result m f g km kf kg = record {
    at = λ s. branch-Keeps f g kf kg (m s).0 (m s).1 ∙ km.at s;
  }

pub ruleset keeps_rules =
    (Keeps-lift, Keeps-pure, Keeps-raise, Keeps-if, Keeps-bind, Keeps-catch_into, Keeps-on_result)
