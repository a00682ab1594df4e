-- ===== src/Exec/Rules.antt =====
-- A rule for each way to build an action: what is to hold of the result and of the state after it
-- follows from what holds in each case of its first part.
use fiddlesticks.Base.{◌≡◌, refl}
use fiddlesticks.Exec.{
  Result, ok, err, no_return, Exec, applied, continue, ◌>>=◌, branch, on_result, map_err,
}

module _ {ℓ} {S E A B : Type ℓ} (P : Result E B → S → Type ℓ) (f : A → Exec S E B) where
  continue_rule :
      (r : Result E A) (s : S)
      → ((a : A) → r ≡ ok a → P (f a s).0 (f a s).1)
      → ((e : E) → r ≡ err e → P (err e) s)
      → (r ≡ no_return → P no_return s)
      → P (continue r f s).0 (continue r f s).1
  continue_rule (ok a) s h k l = h a refl
  continue_rule (err e) s h k l = k e refl
  continue_rule no_return s h k l = l refl

  pub bind_rule :
      (m : Exec S E A) (s : S)
      → ((a : A) → (m s).0 ≡ ok a → P (f a (m s).1).0 (f a (m s).1).1)
      → ((e : E) → (m s).0 ≡ err e → P (err e) (m s).1)
      → ((m s).0 ≡ no_return → P no_return (m s).1)
      → P ((m >>= f) s).0 ((m >>= f) s).1
  unfolding ◌>>=◌
  bind_rule m s h k l = continue_rule (m s).0 (m s).1 h k l

module _ {ℓ} {S E F A B : Type ℓ} (P : Result F B → S → Type ℓ) (f : A → Exec S F B)
    (g : E → Exec S F B) where
  branch_rule :
      (r : Result E A) (s : S)
      → ((a : A) → r ≡ ok a → P (f a s).0 (f a s).1)
      → ((e : E) → r ≡ err e → P (g e s).0 (g e s).1)
      → (r ≡ no_return → P no_return s)
      → P (branch r f g s).0 (branch r f g s).1
  branch_rule (ok a) s h k l = h a refl
  branch_rule (err e) s h k l = k e refl
  branch_rule no_return s h k l = l refl

  pub on_result_rule :
      (m : Exec S E A) (s : S)
      → ((a : A) → (m s).0 ≡ ok a → P (f a (m s).1).0 (f a (m s).1).1)
      → ((e : E) → (m s).0 ≡ err e → P (g e (m s).1).0 (g e (m s).1).1)
      → ((m s).0 ≡ no_return → P no_return (m s).1)
      → P (on_result m f g s).0 (on_result m f g s).1
  unfolding on_result
  on_result_rule m s h k l = branch_rule (m s).0 (m s).1 h k l

-- The result of an action, split by its cases, with the equation.
pub Result-rule {ℓ κ} :
    {E A : Type ℓ} (P : Result E A → Type κ) (r : Result E A)
    → ((a : A) → r ≡ ok a → P (ok a))
    → ((e : E) → r ≡ err e → P (err e))
    → (r ≡ no_return → P no_return)
    → P r
Result-rule P (ok a) h k l = h a refl
Result-rule P (err e) h k l = k e refl
Result-rule P no_return h k l = l refl

-- The effect of an action on the state, read off what it gave once its error is mapped.
module _ {ℓ} {E F A S : Type ℓ} (f : E → F) (g : S → S) (x : S) where
  pub applied_ok : (r : Result E A) {a : A} → map_err f r ≡ ok a → applied r g x ≡ g x
  applied_ok (ok a) h = refl
  applied_ok (err e) h = cc
  applied_ok no_return h = cc

  pub applied_err : (r : Result E A) {e : F} → map_err f r ≡ err e → applied r g x ≡ x
  applied_err (ok a) h = cc
  applied_err (err e) h = refl
  applied_err no_return h = refl

  pub applied_no_return : (r : Result E A) → map_err f r ≡ no_return → applied r g x ≡ x
  applied_no_return (ok a) h = cc
  applied_no_return (err e) h = refl
  applied_no_return no_return h = refl

pub ok_of_map_err {ℓ} :
    {E F A : Type ℓ} (f : E → F) (r : Result E A) {a : A} → map_err f r ≡ ok a → r ≡ ok a
ok_of_map_err f (ok a) h = cc
ok_of_map_err f (err e) h = cc
ok_of_map_err f no_return h = cc
