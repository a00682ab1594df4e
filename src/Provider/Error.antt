-- ===== src/Provider/Error.antt =====
-- fprovider/src/error.rs
use fiddlesticks.Base.{String, Bool, true, false}

pub data ProviderErrorKind : Type 0 where
  authentication rate_limited invalid_request timeout transport unavailable other :
      ProviderErrorKind

pub record ProviderError : Type 0 where
  pub kind : ProviderErrorKind
  pub message : String
  pub retryable : Bool

unfoldable pub new : ProviderErrorKind → String → Bool → ProviderError
new kind message retryable = record { kind = kind; message = message; retryable = retryable }

-- The constructor of each kind, which fixes whether the error is retryable.
unfoldable pub of_kind : ProviderErrorKind → String → ProviderError
unfolding new
of_kind authentication m = new authentication m false
of_kind rate_limited m = new rate_limited m true
of_kind invalid_request m = new invalid_request m false
of_kind timeout m = new timeout m true
of_kind transport m = new transport m true
of_kind unavailable m = new unavailable m true
of_kind other m = new other m false
