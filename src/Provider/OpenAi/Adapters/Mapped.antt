-- ===== src/Provider/OpenAi/Adapters/Mapped.antt =====
-- The models that the providers of fprovider/src/adapters ask for.
use fiddlesticks.Base.{String, Bool, true, false, ◌≡◌, refl, is_blank}
use fiddlesticks.Exec.{Exec, ◌>>=◌}
use fiddlesticks.Provider.Error.{ProviderError}
use fiddlesticks.Provider.Model.{ModelResponse}
use fiddlesticks.Provider.Request.{ModelRequest, validate}
use fiddlesticks.Provider.Stream.{StreamEvent}
use fiddlesticks.Provider.OpenAi.Types.{
  OpenAiAuth, OpenAiResponse, OpenAiStreamChunk, OpenAiTransport,
}
use fiddlesticks.Provider.OpenAi.Adapters.{build_request, complete_with, stream_with}

module _ {W : Type 0} (transport : OpenAiTransport W) (resolve : Exec W ProviderError OpenAiAuth)
    (into : OpenAiResponse → ModelResponse) (into_event : OpenAiStreamChunk → StreamEvent)
    (fallback_model : String) (request : ModelRequest) (w : W) where
  pub SameAsked : Type 0
  SameAsked =
      (complete_with transport fallback_model resolve into request w
        ≡ complete_with transport request.model resolve into request w)
      × (stream_with transport fallback_model resolve into_event request w
          ≡ stream_with transport request.model resolve into_event request w)

  asked : (blank : Bool) → is_blank request.model ≡ blank → SameAsked
  unfolding SameAsked complete_with stream_with build_request validate ◌>>=◌
  asked true e = rw e (refl, refl)
  asked false e = rw e (refl, refl)

  -- Streamed or not, a request is answered as if the fallback model of the provider were the model of
  -- the request: a model that is blank is refused before it could be replaced.
  pub complete_with-fallback : SameAsked
  complete_with-fallback = asked (is_blank request.model) refl
