-- ===== src/Harness/Error.antt =====
-- fharness/src/error.rs
use fiddlesticks.Base.{String, [], ◌∷◌, concat, ◌≡◌, arith}
use fiddlesticks.Exec.{Result, ok, err, no_return, map_err}
use fiddlesticks.Chat.Error.{ChatError, to_string as chat_to_string}
use fiddlesticks.Memory.Error.{MemoryError}

pub data HarnessErrorKind : Type 0 where
  invalid_request memory chat validation health_check not_ready : HarnessErrorKind

-- `HarnessError::new`; a constructor of each kind gives it the kind.
pub record HarnessError : Type 0 where
  pub kind : HarnessErrorKind
  pub message : String

abbrev pub new : HarnessErrorKind → String → HarnessError
new kind message = record { kind = kind; message = message }

-- `Debug`
kind_name : HarnessErrorKind → String
kind_name invalid_request = "InvalidRequest"
kind_name memory = "Memory"
kind_name chat = "Chat"
kind_name validation = "Validation"
kind_name health_check = "HealthCheck"
kind_name not_ready = "NotReady"

-- `Display`
unfoldable pub to_string : HarnessError → String
unfolding kind_name
to_string e = concat (kind_name e.kind ∷ ": " ∷ e.message ∷ [])

-- `From<MemoryError>`
unfoldable pub of_memory_error : MemoryError → HarnessError
of_memory_error e = new memory e.message

-- `From<ChatError>`
unfoldable pub of_chat_error : ChatError → HarnessError
of_chat_error e = new chat (chat_to_string e)

-- What fails in a call of the memory has the kind of the memory.
pub memory_kind :
    {A : Type 0} (r : Result MemoryError A) (e : HarnessError)
    → map_err of_memory_error r ≡ err e
    → e.kind ≡ memory
unfolding of_memory_error
memory_kind (ok u) e h = cc
memory_kind (err x) e h = ground arith
memory_kind no_return e h = cc
