-- ===== src/Provider/Registry/History.antt =====
-- What the registry of fprovider/src/registry.rs holds after a history of changes.
use fiddlesticks.Base.{
  Bool, true, false, Option, none, some, List, [], ◌∷◌, ◌≡◌, refl, ap, ◌∙◌, if◌then◌else◌, ◌==◌,
}
use fiddlesticks.Base.Map.{is_some}
use fiddlesticks.Common.Registry as Common
use fiddlesticks.Provider.Model.{ProviderId}
use fiddlesticks.Provider.Stream.{ModelProvider}
use fiddlesticks.Provider.Registry.{
  ProviderRegistry, provider_id_eq, tag_iff, new, register, get, remove, contains,
}

-- A change of a registry.
pub data Change (W : Type 0) : Type 0 where
  registered : ModelProvider W → Change W
  removed : ProviderId → Change W

module _ {W : Type 0} where
  -- The registry after the changes, the latest first.
  unfoldable pub replay : List (Change W) → ProviderRegistry W
  replay [] = new
  replay (registered p ∷ h) = register (replay h) p
  replay (removed i ∷ h) = (remove (replay h) i).1

  -- The id that a change is about, and the provider that it leaves there.
  subject : Change W → ProviderId
  subject (registered p) = p.id
  subject (removed i) = i

  left_there : Change W → Option (ModelProvider W)
  left_there (registered p) = some p
  left_there (removed i) = none

  -- What the latest change about an id left there.
  unfoldable pub latest : List (Change W) → ProviderId → Option (ModelProvider W)
  unfolding subject left_there
  latest [] i = none
  latest (c ∷ h) i = if subject c == i then left_there c else latest h i

  get-replay : (h : List (Change W)) (i : ProviderId) → get (replay h) i ≡ latest h i
  unfolding get replay latest subject left_there new register remove
  get-replay [] i = Common.get-new i
  get-replay (registered p ∷ h) i =
      (Common.insert_lem (replay h).providers p.id i p).1
      ∙ ap (λ o. if p.id == i then some p else o) (get-replay h i)
  get-replay (removed j ∷ h) i =
      (Common.remove_lem (replay h).providers j i).1
      ∙ ap (λ o. if j == i then none else o) (get-replay h i)

  -- A provider is found under its own id.
  abbrev pub Own : ProviderId → Option (ModelProvider W) → Type 0
  Own i none = Unit
  Own i (some p) = p.id ≡ i

  choose-Own :
      (i : ProviderId) (b : Bool) (o rest : Option (ModelProvider W))
      → (b ≡ true → Own i o)
      → Own i rest
      → Own i (if b then o else rest)
  choose-Own i true o rest f r = f refl
  choose-Own i false o rest f r = r

  left_there-Own : (c : Change W) (i : ProviderId) → (subject c == i) ≡ true → Own i (left_there c)
  unfolding subject left_there
  left_there-Own (registered p) i e = (tag_iff p.id i).0 e
  left_there-Own (removed j) i e = tt

  latest-Own : (h : List (Change W)) (i : ProviderId) → Own i (latest h i)
  unfolding latest
  latest-Own [] i = tt
  latest-Own (c ∷ h) i =
      choose-Own i (subject c == i) (left_there c) (latest h i) (left_there-Own c i)
        (latest-Own h i)

  -- After any changes the registry has at an id what the latest change about that id left there: the
  -- provider that was registered, or nothing if it was removed or never registered. `get`, `remove`
  -- and `contains` agree on it, and the provider's own id is that id.
  pub replay-Own :
      (h : List (Change W)) (i : ProviderId)
      → (get (replay h) i ≡ latest h i)
        × ((remove (replay h) i).0 ≡ latest h i)
        × (contains (replay h) i ≡ is_some (latest h i))
        × Own i (latest h i)
  unfolding get remove contains
  replay-Own h i =
      let held = get-replay h i in
      (
        held,
        (Common.remove_lem (replay h).providers i i).0 ∙ held,
        Common.contains_key_lem (replay h).providers i ∙ ap is_some held,
        latest-Own h i,
      )
