-- ===== src/Common/Registry.antt =====
-- `registry::Registry` of fcommon/src/lib.rs: a map that hands back what it displaces.
use fiddlesticks.Base.{
  ℕ, Bool, Option, List, ◌≡◌, refl, if◌then◌else◌, PartialEq, ◌==◌, some, none, eqb,
}
use fiddlesticks.Base.Map as HashMaps
use fiddlesticks.Base.Map.{HashMap, is_some, get-empty, get-insert, get-remove}

pub record Registry {ℓ} (K V : Type ℓ) : Type ℓ where
  pub items : HashMap K V

module _ {ℓ} {K V : Type ℓ} where
  unfoldable pub new : Registry K V
  new = record { items = HashMaps.empty }

  unfoldable pub values : Registry K V → List V
  values r = HashMaps.values r.items

  unfoldable pub len : Registry K V → ℕ
  len r = HashMaps.len r.items

  unfoldable pub is_empty : Registry K V → Bool
  unfolding len
  is_empty r = eqb (len r) 0

module _ {ℓ} {K V : Type ℓ} ⦃e : PartialEq K⦄ where
  unfoldable pub insert : Registry K V → K → V → Option V × Registry K V
  insert r k v = (HashMaps.get r.items k, record { items = HashMaps.insert r.items k v })

  unfoldable pub get : Registry K V → K → Option V
  get r k = HashMaps.get r.items k

  unfoldable pub remove : Registry K V → K → Option V × Registry K V
  remove r k = (HashMaps.get r.items k, record { items = HashMaps.remove r.items k })

  unfoldable pub contains_key : Registry K V → K → Bool
  contains_key r k = HashMaps.contains_key r.items k

  pub get-new : (k : K) → get (new {K = K} {V = V}) k ≡ none
  unfolding get new
  get-new k = get-empty k

  pub contains_key_lem : (r : Registry K V) (k : K) → contains_key r k ≡ is_some (get r k)
  unfolding contains_key get
  contains_key_lem r k = HashMaps.contains_key_lem r.items k

  -- `insert` returns what `get` returned before, and afterwards `get` returns the new value at the
  -- key and what it returned before at every other key.
  pub insert_lem :
      (r : Registry K V) (k j : K) (v : V)
      → ((insert r k v).0 ≡ get r k)
        × (get (insert r k v).1 j ≡ (if k == j then some v else get r j))
  unfolding insert get
  insert_lem r k j v = (refl, get-insert r.items k j v)

  -- `remove` returns what `get` returned before, and afterwards the key is gone and every other key
  -- is as before.
  pub remove_lem :
      (r : Registry K V) (k j : K)
      → ((remove r k).0 ≡ get r k) × (get (remove r k).1 j ≡ (if k == j then none else get r j))
  unfolding remove get
  remove_lem r k j = (refl, get-remove r.items k j)
