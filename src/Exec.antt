-- ===== src/Exec.antt =====
-- Code that reads and changes a state and may fail: Rust's `Result` with the `?` operator. What was
-- written before an error stays written, so the state comes back beside the error too.
pub mod Rules
pub mod Keeps
pub mod Returns
use fiddlesticks.Base.{Option, none, some, List, [], ◌∷◌}

-- `no_return`: the call never comes back, because it runs for ever or panics.
pub data Result {ℓ} (E A : Type ℓ) : Type ℓ where
  ok : A → Result E A
  err : E → Result E A
  no_return : Result E A

abbrev pub Exec {ℓ} : Type ℓ → Type ℓ → Type ℓ → Type ℓ
Exec S E A = S → Result E A × S

-- `?` on a value.
abbrev pub and_then {ℓ} : {E A B : Type ℓ} → Result E A → (A → Result E B) → Result E B
and_then (ok a) f = f a
and_then (err e) f = err e
and_then no_return f = no_return

abbrev pub map_err {ℓ} : {E F A : Type ℓ} → (E → F) → Result E A → Result F A
map_err f (ok a) = ok a
map_err f (err e) = err (f e)
map_err f no_return = no_return

abbrev pub found_or {ℓ} : {E A : Type ℓ} → E → Option A → Result E A
found_or e none = err e
found_or e (some a) = ok a

-- `map(f).collect::<Result<Vec<_>, _>>()`: the first error, or all the values.
unfoldable pub collect_map {ℓ} : {E A B : Type ℓ} → (A → Result E B) → List A → Result E (List B)
collect_map f [] = ok []
collect_map f (x ∷ xs) =
    let rest = collect_map f xs in and_then (f x) (λ y. and_then rest (λ ys. ok (y ∷ ys)))

module _ {ℓ} {S E A : Type ℓ} where
  unfoldable pub lift : Result E A → Exec S E A
  lift r s = (r, s)

  unfoldable pub pure : A → Exec S E A
  unfolding lift
  pure a = lift (ok a)

  unfoldable pub raise : E → Exec S E A
  unfolding lift
  raise e = lift (err e)

  -- `ok_or_else`
  abbrev pub ok_or : E → Option A → Exec S E A
  ok_or e o = lift (found_or e o)

module _ {ℓ} {S E F A : Type ℓ} where
  -- `map_err` on what an action gives.
  unfoldable pub catch_into : (E → F) → Exec S E A → Exec S F A
  catch_into f m s = let (r, s') = m s in (map_err f r, s')

-- An action on a part of the state: `get` reads the part and `put` writes it back.
module _ {ℓ} {S T E A : Type ℓ} where
  unfoldable pub on_part : (S → T) → (T → S → S) → Exec T E A → Exec S E A
  on_part get put m s = let (r, t) = m (get s) in (r, put t s)

-- `match` on what an action gave, with a branch for its error.
module _ {ℓ} {S E F A B : Type ℓ} where
  abbrev pub branch : Result E A → (A → Exec S F B) → (E → Exec S F B) → Exec S F B
  branch (ok a) f g s = f a s
  branch (err e) f g s = g e s
  branch no_return f g s = (no_return, s)

  unfoldable pub on_result : Exec S E A → (A → Exec S F B) → (E → Exec S F B) → Exec S F B
  on_result m f g s = let (r, s') = m s in branch r f g s'

module _ {ℓ} {S E A B : Type ℓ} where
  abbrev pub continue : Result E A → (A → Exec S E B) → Exec S E B
  continue (ok a) f s = f a s
  continue (err e) f s = (err e, s)
  continue no_return f s = (no_return, s)

  infixl 5 ◌>>=◌ ◌>>◌
  -- Opening this opens the other ways to build an action too.
  unfoldable pub ◌>>=◌ : Exec S E A → (A → Exec S E B) → Exec S E B
  unfolding pure raise catch_into on_part on_result
  ◌>>=◌ m f s = let (r, s') = m s in continue r f s'

  abbrev pub ◌>>◌ : Exec S E A → Exec S E B → Exec S E B
  m >> k = m >>= λ _. k

-- What an action that changes the state only when it succeeds does to the state.
abbrev pub applied {ℓ} : {E A S : Type ℓ} → Result E A → (S → S) → S → S
applied (ok a) f s = f s
applied (err e) f s = s
applied no_return f s = s
