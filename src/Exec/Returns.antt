-- ===== src/Exec/Returns.antt =====
-- Actions that come back from every state, with a value or an error.
use fiddlesticks.Base.{◌≡◌, ◌≢◌, refl, Bool, true, false, if◌then◌else◌, Option, none, some}
use fiddlesticks.Exec.{
  Result, ok, err, no_return, Exec, lift, pure, raise, continue, ◌>>=◌, catch_into, on_part,
  on_result, branch, map_err, ok_or, found_or,
}

pub record Returns {ℓ} {S E A : Type ℓ} (m : Exec S E A) : Type ℓ where
  pub at : (s : S) → (m s).0 ≢ no_return

found_or_ne {ℓ} : {E A : Type ℓ} (e : E) (o : Option A) → found_or e o ≢ no_return
found_or_ne e none h = cc
found_or_ne e (some a) h = cc

pub map_err_ne {ℓ} :
    {E F A : Type ℓ} (f : E → F) (r : Result E A) → r ≢ no_return → map_err f r ≢ no_return
map_err_ne f (ok a) h = λ x. cc
map_err_ne f (err e) h = λ x. cc
map_err_ne f no_return h = absurd (h refl)

module _ {ℓ} {S E A : Type ℓ} where
  pub Returns-lift : (r : Result E A) → r ≢ no_return → Returns {S = S} (lift r)
  unfolding lift
  Returns-lift r h = record { at = λ s. h }

  pub Returns-pure : (a : A) → Returns {S = S} {E = E} (pure a)
  unfolding pure
  Returns-pure a = record { at = λ s e. cc }

  pub Returns-raise : (e : E) → Returns {S = S} {A = A} (raise e)
  unfolding raise
  Returns-raise e = record { at = λ s h. cc }

  pub Returns-ok_or : (e : E) (o : Option A) → Returns {S = S} (ok_or e o)
  Returns-ok_or e o = Returns-lift (found_or e o) (found_or_ne e o)

  pub Returns-if :
      (b : Bool) (m n : Exec S E A)
      → (b ≡ true → Returns m)
      → (b ≡ false → Returns n)
      → Returns (if b then m else n)
  Returns-if true m n km kn = km refl
  Returns-if false m n km kn = kn refl

  pub Returns-either :
      (b : Bool) (m n : Exec S E A) → Returns m → Returns n → Returns (if b then m else n)
  Returns-either true m n km kn = km
  Returns-either false m n km kn = kn

module _ {ℓ} {S E A B : Type ℓ} where
  continue-Returns :
      (f : A → Exec S E B)
      → ((a : A) → Returns (f a))
      → (r : Result E A) (s : S) → r ≢ no_return
      → (continue r f s).0 ≢ no_return
  continue-Returns f k (ok a) s h = (k a).at s
  continue-Returns f k (err e) s h = λ x. cc
  continue-Returns f k no_return s h = absurd (h refl)

  pub Returns-bind :
      (m : Exec S E A) (f : A → Exec S E B)
      → Returns m
      → ((a : A) → Returns (f a))
      → Returns (m >>= f)
  unfolding ◌>>=◌
  Returns-bind m f km kf = record { at = λ s. continue-Returns f kf (m s).0 (m s).1 (km.at s) }

module _ {ℓ} {S E F A : Type ℓ} where
  pub Returns-catch_into : (f : E → F) (m : Exec S E A) → Returns m → Returns (catch_into f m)
  unfolding catch_into
  Returns-catch_into f m k = record { at = λ s. map_err_ne f (m s).0 (k.at s) }

module _ {ℓ} {S T E A : Type ℓ} where
  pub Returns-on_part :
      (get : S → T) (put : T → S → S) (m : Exec T E A) → Returns m → Returns (on_part get put m)
  unfolding on_part
  Returns-on_part get put m k = record { at = λ s. k.at (get s) }

module _ {ℓ} {S E F A B : Type ℓ} where
  branch-Returns :
      (f : A → Exec S F B) (g : E → Exec S F B)
      → ((a : A) → Returns (f a))
      → ((e : E) → Returns (g e))
      → (r : Result E A) (s : S) → r ≢ no_return
      → (branch r f g s).0 ≢ no_return
  branch-Returns f g kf kg (ok a) s h = (kf a).at s
  branch-Returns f g kf kg (err e) s h = (kg e).at s
  branch-Returns f g kf kg no_return s h = absurd (h refl)

  pub Returns-on_result :
      (m : Exec S E A) (f : A → Exec S F B) (g : E → Exec S F B)
      → Returns m
      → ((a : A) → Returns (f a))
      → ((e : E) → Returns (g e))
      → Returns (on_result m f g)
  unfolding on_result
  Returns-on_result m f g km kf kg = record {
    at = λ s. branch-Returns f g kf kg (m s).0 (m s).1 (km.at s);
  }

pub ruleset returns_rules = (
  Returns-pure, Returns-raise, Returns-ok_or, Returns-either, Returns-bind, Returns-catch_into,
  Returns-on_part, Returns-on_result,
)
