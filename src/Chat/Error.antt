-- ===== src/Chat/Error.antt =====
-- fchat/src/error.rs
use fiddlesticks.Base.{String, [], ◌∷◌, concat, Bool, true, false, Option, none, some}
use fiddlesticks.Provider.Error.{ProviderErrorKind, ProviderError}
use fiddlesticks.Tooling.Error.{ToolErrorKind, ToolError, is_user_kind}

pub data ChatErrorKind : Type 0 where
  invalid_request provider store tooling : ChatErrorKind

pub data ChatErrorPhase : Type 0 where
  request_validation provider tooling storage streaming : ChatErrorPhase

pub data ChatErrorSource : Type 0 where
  from_provider : ProviderErrorKind → ChatErrorSource
  from_tooling : ToolErrorKind → ChatErrorSource

pub record ChatError : Type 0 where
  pub kind : ChatErrorKind
  pub message : String
  pub retryable : Bool
  pub phase : Option ChatErrorPhase
  pub source : Option ChatErrorSource

-- `ChatError::new`; `invalid_request`, `provider`, `store` and `tooling` give it the kind.
unfoldable pub new : ChatErrorKind → String → ChatError
new kind message = record {
  kind = kind;
  message = message;
  retryable = false;
  phase = none;
  source = none;
}

unfoldable pub with_phase : ChatErrorPhase → ChatError → ChatError
with_phase p e = record e { phase = some p }

unfoldable pub with_source : ChatErrorSource → ChatError → ChatError
with_source src e = record e { source = some src }

unfoldable pub with_retryable : Bool → ChatError → ChatError
with_retryable b e = record e { retryable = b }

unfoldable pub is_retryable : ChatError → Bool
is_retryable e = e.retryable

-- The `matches!` on the source.
unfoldable pub is_user_source : Option ChatErrorSource → Bool
unfolding is_user_kind
is_user_source (some (from_tooling k)) = is_user_kind k
is_user_source _ = false

unfoldable pub is_invalid : ChatErrorKind → Bool
is_invalid ChatErrorKind.invalid_request = true
is_invalid _ = false

unfoldable pub is_user_error : ChatError → Bool
unfolding is_user_source is_invalid
is_user_error e = elim (is_invalid e.kind) [ true ↦ true | false ↦ is_user_source e.source ]

-- `From<ProviderError>`
unfoldable pub of_provider_error : ProviderError → ChatError
unfolding new with_phase with_source with_retryable
of_provider_error e = with_source (from_provider e.kind) (
    with_phase ChatErrorPhase.provider
      (with_retryable e.retryable (new ChatErrorKind.provider e.message)))

-- `From<ToolError>`
unfoldable pub of_tool_error : ToolError → ChatError
unfolding new with_phase with_source with_retryable
of_tool_error e = with_source (from_tooling e.kind) (
    with_phase ChatErrorPhase.tooling
      (with_retryable e.retryable (new ChatErrorKind.tooling e.message)))

-- `Debug` of the two enums.
kind_name : ChatErrorKind → String
kind_name ChatErrorKind.invalid_request = "InvalidRequest"
kind_name ChatErrorKind.provider = "Provider"
kind_name ChatErrorKind.store = "Store"
kind_name ChatErrorKind.tooling = "Tooling"

phase_name : ChatErrorPhase → String
phase_name ChatErrorPhase.request_validation = "RequestValidation"
phase_name ChatErrorPhase.provider = "Provider"
phase_name ChatErrorPhase.tooling = "Tooling"
phase_name ChatErrorPhase.storage = "Storage"
phase_name ChatErrorPhase.streaming = "Streaming"

-- `Display`
unfoldable pub to_string : ChatError → String
unfolding kind_name phase_name
to_string e = elim e.phase [
  | none ↦ concat (kind_name e.kind ∷ ": " ∷ e.message ∷ [])
  | some p ↦ concat (kind_name e.kind ∷ " (" ∷ phase_name p ∷ "): " ∷ e.message ∷ [])
]
