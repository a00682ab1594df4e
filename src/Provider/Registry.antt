-- ===== src/Provider/Registry.antt =====
-- fprovider/src/registry.rs: providers by their id.
pub mod History
use fiddlesticks.Base.{
  ℕ, Bool, Option, ◌≡◌, ◌↔◌, true, refl, ◌∙◌, sym, ap, if◌then◌else◌, PartialEq, eqb, arith,
}
use fiddlesticks.Common.Registry as Common
use fiddlesticks.Common.Registry.{Registry}
use fiddlesticks.Provider.Model.{ProviderId, open_code_zen, open_ai, anthropic, ollama}
use fiddlesticks.Provider.Stream.{ModelProvider}

abbrev pub tag : ProviderId → ℕ
tag open_code_zen = 0
tag open_ai = 1
tag anthropic = 2
tag ollama = 3

untag : ℕ → ProviderId
untag n =
    if eqb n 0
    then open_code_zen
    else (if eqb n 1 then open_ai else (if eqb n 2 then anthropic else ollama))

untag-tag : (i : ProviderId) → untag (tag i) ≡ i
unfolding untag
untag-tag open_code_zen = refl
untag-tag open_ai = refl
untag-tag anthropic = refl
untag-tag ollama = refl

tag_injective : (i j : ProviderId) → tag i ≡ tag j → i ≡ j
tag_injective i j h = sym (untag-tag i) ∙ ap untag h ∙ untag-tag j

pub tag_iff : (i j : ProviderId) → (eqb (tag i) (tag j) ≡ true) ↔ (i ≡ j)
tag_iff i j = ((λ h. tag_injective i j (ground arith)), (λ h. ground (arith, ap tag h)))

-- The derived `PartialEq` of a provider's id.
instance abbrev pub provider_id_eq : PartialEq ProviderId
provider_id_eq = record { beq = λ i j. eqb (tag i) (tag j); beq_iff = tag_iff }

pub record ProviderRegistry (W : Type 0) : Type 0 where
  pub providers : Registry ProviderId (ModelProvider W)

module _ {W : Type 0} where
  unfoldable pub new : ProviderRegistry W
  new = record { providers = Common.new }

  unfoldable pub register : ProviderRegistry W → ModelProvider W → ProviderRegistry W
  register r provider = record { providers = (Common.insert r.providers provider.id provider).1 }

  unfoldable pub get : ProviderRegistry W → ProviderId → Option (ModelProvider W)
  get r id = Common.get r.providers id

  unfoldable pub remove :
      ProviderRegistry W → ProviderId → Option (ModelProvider W) × ProviderRegistry W
  remove r id =
      let (provider, providers) = Common.remove r.providers id in
      (provider, record { providers = providers })

  unfoldable pub contains : ProviderRegistry W → ProviderId → Bool
  contains r id = Common.contains_key r.providers id

  unfoldable pub len : ProviderRegistry W → ℕ
  len r = Common.len r.providers

  unfoldable pub is_empty : ProviderRegistry W → Bool
  is_empty r = Common.is_empty r.providers
