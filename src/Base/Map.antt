-- ===== src/Base/Map.antt =====
-- `std::collections::HashMap` (and `BTreeMap`, where only its keys' values matter), behind its laws.
-- The program's results do not depend on the order in which a `HashMap` is walked.
use fiddlesticks.Base.Tests.{if◌then◌else◌, PartialEq, ◌==◌}
use fiddlesticks.Base.Lists.{length}
use Prim.Native.Nat.{ℕ}
use mathlib.Core.Path.{◌≡◌, refl}
use mathlib.Core.Bool.{Bool, true, false}
use mathlib.Core.Option.{Option, none, some}
use mathlib.Core.List.{List, [], ◌∷◌, map}
use native.Mathlib.Omega.{arith}

pub record HashMap {ℓ} (K V : Type ℓ) : Type ℓ where
  entries : List (K × V)

abbrev pub is_some {ℓ} : {A : Type ℓ} → Option A → Bool
is_some none = false
is_some (some a) = true

module _ {ℓ} {K V : Type ℓ} ⦃e : PartialEq K⦄ where
  find_entry : K → List (K × V) → Option V
  find_entry k [] = none
  find_entry k ((j, v) ∷ m) = if j == k then some v else find_entry k m

  put_entry : K → V → List (K × V) → List (K × V)
  put_entry k v [] = (k, v) ∷ []
  put_entry k v ((j, w) ∷ m) = if j == k then (k, v) ∷ m else (j, w) ∷ put_entry k v m

  drop_entry : K → List (K × V) → List (K × V)
  drop_entry k [] = []
  drop_entry k ((j, w) ∷ m) = if j == k then drop_entry k m else (j, w) ∷ drop_entry k m

  find-put :
      (k j : K) (v : V) (m : List (K × V))
      → find_entry j (put_entry k v m) ≡ (if k == j then some v else find_entry j m)
  unfolding find_entry put_entry
  find-put k j v [] = refl
  find-put k j v ((i, w) ∷ m) =
      ground (arith, e.beq_iff k j, e.beq_iff i k, e.beq_iff i j, find-put k j v m)

  find-drop :
      (k j : K) (m : List (K × V))
      → find_entry j (drop_entry k m) ≡ (if k == j then none else find_entry j m)
  unfolding find_entry drop_entry
  find-drop k j [] = ground arith
  find-drop k j ((i, w) ∷ m) =
      ground (arith, e.beq_iff k j, e.beq_iff i k, e.beq_iff i j, find-drop k j m)

  unfoldable pub get : HashMap K V → K → Option V
  unfolding find_entry
  get m k = find_entry k m.entries

  unfoldable pub insert : HashMap K V → K → V → HashMap K V
  unfolding put_entry
  insert m k v = record { entries = put_entry k v m.entries }

  unfoldable pub remove : HashMap K V → K → HashMap K V
  unfolding drop_entry
  remove m k = record { entries = drop_entry k m.entries }

  unfoldable pub contains_key : HashMap K V → K → Bool
  unfolding get
  contains_key m k = is_some (get m k)

  pub contains_key_lem : (m : HashMap K V) (k : K) → contains_key m k ≡ is_some (get m k)
  unfolding contains_key
  contains_key_lem m k = refl

  pub get-insert :
      (m : HashMap K V) (k j : K) (v : V)
      → get (insert m k v) j ≡ (if k == j then some v else get m j)
  unfolding get insert
  get-insert m k j v = find-put k j v m.entries

  pub get-remove :
      (m : HashMap K V) (k j : K) → get (remove m k) j ≡ (if k == j then none else get m j)
  unfolding get remove
  get-remove m k j = find-drop k j m.entries

module _ {ℓ} {K V : Type ℓ} where
  unfoldable pub empty : HashMap K V
  empty = record { entries = [] }

  -- The values, in no order that a caller may rely on.
  unfoldable pub values : HashMap K V → List V
  values m = map (λ e. e.1) m.entries

  unfoldable pub len : HashMap K V → ℕ
  len m = length m.entries

pub get-empty {ℓ} : {K V : Type ℓ} ⦃e : PartialEq K⦄ (k : K) → get (empty {K = K} {V = V}) k ≡ none
unfolding get empty
get-empty k = refl

pub ruleset map_laws = (get-empty, get-insert, get-remove)
