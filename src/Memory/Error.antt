-- ===== src/Memory/Error.antt =====
-- fmemory/src/error.rs
use fiddlesticks.Base.{String}

pub data MemoryErrorKind : Type 0 where
  storage not_found invalid_request other : MemoryErrorKind

-- `MemoryError::new`; `storage`, `not_found`, `invalid_request` and `other` give it the kind.
pub record MemoryError : Type 0 where
  pub kind : MemoryErrorKind
  pub message : String

abbrev pub new : MemoryErrorKind → String → MemoryError
new kind message = record { kind = kind; message = message }
