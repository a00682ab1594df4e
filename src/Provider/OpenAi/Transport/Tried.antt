-- ===== src/Provider/OpenAi/Transport/Tried.antt =====
-- The requests of fprovider/src/adapters/openai/api.rs that carry the limit on tokens in one of its two
-- parameters, and the sequences of them that the transport may post.
use fiddlesticks.Base.{
  sym, ◌⊎◌, inl, inr, subst, is_empty, Bool-cases, String, Option, none, List, [], ◌∷◌, ◌≡◌, refl,
}
use fiddlesticks.Exec.{and_then, collect_map, Result, ok, err, no_return}
use fiddlesticks.Provider.Error.{ProviderError}
use fiddlesticks.Provider.OpenAi.Types.{OpenAiRequest}
use fiddlesticks.Provider.OpenAi.Api.{
  OpenAiTokenParameter, max_tokens_parameter, max_completion_tokens_parameter, OpenAiApiRequest,
  build_api_request_with_token_parameter, api_message, api_tools, if_max_tokens,
  if_max_completion_tokens,
}

-- The request that is posted carries the limit on tokens in this parameter alone.
abbrev pub With :
    {Value : Type 0} → OpenAiRequest → OpenAiTokenParameter → OpenAiApiRequest Value → Type 0
With r max_tokens_parameter a = (a.max_tokens ≡ r.max_tokens) × (a.max_completion_tokens ≡ none)
With r max_completion_tokens_parameter a =
    (a.max_tokens ≡ none) × (a.max_completion_tokens ≡ r.max_tokens)

-- The requests that are posted: one with each of the parameters, in their order, as far as it gets.
abbrev pub Tried :
    {Value : Type 0}
    → OpenAiRequest
    → List OpenAiTokenParameter
    → List (OpenAiApiRequest Value)
    → Type 0
Tried r [] sent = sent ≡ []
Tried {Value} r (p ∷ ps) sent =
    (sent ≡ [])
    ⊎ ((a : OpenAiApiRequest Value) × (rest : List (OpenAiApiRequest Value)) × (sent ≡ a ∷ rest)
        × With r p a
        × Tried r ps rest)

pub Tried-nil :
    (Value : Type 0) (r : OpenAiRequest) (ps : List OpenAiTokenParameter)
    → Tried {Value = Value} r ps []
Tried-nil Value r [] = refl
Tried-nil Value r (p ∷ ps) = inl refl

pub Tried-more :
    {Value : Type 0} (r : OpenAiRequest) (p : OpenAiTokenParameter) (ps : List OpenAiTokenParameter)
    (sent : List (OpenAiApiRequest Value))
    → Tried r (p ∷ []) sent
    → Tried r (p ∷ ps) sent
Tried-more r p ps sent (inl e) = inl e
Tried-more {Value = Value} r p ps sent (inr (a, rest, e, has, e')) =
    inr (a, rest, e, has, subst (Tried r ps) (sym e') (Tried-nil Value r ps))

-- What a value that `and_then` gives was made from.
and_then_lem :
    {E A B : Type 0} (r : Result E A) (f : A → Result E B) {b : B}
    → and_then r f ≡ ok b
    → (a : A) × (f a ≡ ok b)
and_then_lem (ok a) f h = (a, h)
and_then_lem (err e) f h = cc
and_then_lem no_return f h = cc

abbrev Carries :
    {Value : Type 0}
    → OpenAiRequest
    → OpenAiTokenParameter
    → Result ProviderError (OpenAiApiRequest Value)
    → Type 0
Carries r p (ok a) = With r p a
Carries r p (err e) = Unit
Carries r p no_return = Unit

fields-With :
    {Value : Type 0} (r : OpenAiRequest) (p : OpenAiTokenParameter) (a : OpenAiApiRequest Value)
    → a.max_tokens ≡ if_max_tokens p r.max_tokens
    → a.max_completion_tokens ≡ if_max_completion_tokens p r.max_tokens
    → With r p a
fields-With r max_tokens_parameter a e e' = (e, e')
fields-With r max_completion_tokens_parameter a e e' = (e, e')

-- Its two fields for the limit on tokens are those of the parameter.
pub build-With :
    {Value : Type 0} (schema : String → Option Value) (r : OpenAiRequest) (p : OpenAiTokenParameter)
    (a : OpenAiApiRequest Value)
    → build_api_request_with_token_parameter schema r p ≡ ok a
    → With r p a
unfolding build_api_request_with_token_parameter
build-With schema r p a h =
    let (messages, h1) = and_then_lem (collect_map api_message r.messages) _ h in
    elim (Bool-cases (is_empty messages)) [
      | inl e ↦ absurd (no_messages (rw e at h1))
      | inr e ↦
          let (tools, h2) = and_then_lem (api_tools schema r.tools) _ (rw e at h1) in
          subst (Carries r p) h2 (fields-With r p _ refl refl)
    ]
  where
    no_messages :
        {V : Type 0} {x : ProviderError} {y : OpenAiApiRequest V}
        → ¬ ◌≡◌ {A = Result ProviderError (OpenAiApiRequest V)} (err x) (ok y)
    no_messages g = cc
