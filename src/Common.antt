-- ===== src/Common.antt =====
-- fcommon/src/lib.rs: identifiers, generation options and the generic registry.
pub mod Registry
use fiddlesticks.Base.{ℕ, String, Bool, true, false, Option, none, some, leb, eqb, ◌||◌}
use fiddlesticks.Base.Map.{HashMap}

-- The newtype of a text; `from`, `as_str` and `to_string` are the identity on it.
abbrev pub SessionId : Type 0
SessionId = String

abbrev pub TraceId : Type 0
TraceId = String

abbrev pub MetadataMap : Type 0
MetadataMap = HashMap String String

-- An `f32` is its IEEE 754 bit pattern, and a `u32` is below 2 ^ 32.
pub record GenerationOptions : Type 0 where
  pub temperature : Option ℕ
  pub max_tokens : Option ℕ
  pub stream : Bool

abbrev pub default_options : GenerationOptions
default_options = record { temperature = none; max_tokens = none; stream = false }

unfoldable pub with_temperature : GenerationOptions → ℕ → GenerationOptions
with_temperature o t = record o { temperature = some t }

unfoldable pub with_max_tokens : GenerationOptions → ℕ → GenerationOptions
with_max_tokens o n = record o { max_tokens = some n }

unfoldable pub with_streaming : GenerationOptions → Bool → GenerationOptions
with_streaming o b = record o { stream = b }

unfoldable pub enable_streaming : GenerationOptions → GenerationOptions
unfolding with_streaming
enable_streaming o = with_streaming o true

-- `(0.0..=2.0).contains(&x)` on the bit pattern of an `f32`: 0x40000000 is 2.0, the patterns of the
-- numbers from 0.0 up are in their order, those of NaN and of infinity are above them, and of the
-- patterns with the sign bit only -0.0 is in the range.
unfoldable pub in_zero_to_two : ℕ → Bool
in_zero_to_two bits = leb bits 0x40000000 || eqb bits 0x80000000
