-- ===== src/Provider/Model.antt =====
-- fprovider/src/model.rs: messages, tool calls and responses.
use fiddlesticks.Base.{ℕ, String, List}

pub data ProviderId : Type 0 where
  open_code_zen open_ai anthropic ollama : ProviderId

-- `Display`
unfoldable pub provider_name : ProviderId → String
provider_name open_code_zen = "opencode-zen"
provider_name open_ai = "openai"
provider_name anthropic = "anthropic"
provider_name ollama = "ollama"

pub data Role : Type 0 where
  system user assistant tool : Role

pub record Message : Type 0 where
  pub role : Role
  pub content : String

abbrev pub message : Role → String → Message
message role content = record { role = role; content = content }

pub record ToolDefinition : Type 0 where
  pub name : String
  pub description : String
  pub input_schema : String

pub record ToolCall : Type 0 where
  pub id : String
  pub name : String
  pub arguments : String

pub record ToolResult : Type 0 where
  pub tool_call_id : String
  pub output : String

pub data OutputItem : Type 0 where
  message_item : Message → OutputItem
  tool_call_item : ToolCall → OutputItem

pub data StopReason : Type 0 where
  end_turn max_tokens tool_use cancelled other : StopReason

pub record TokenUsage : Type 0 where
  pub input_tokens : ℕ
  pub output_tokens : ℕ
  pub total_tokens : ℕ

abbrev pub default_usage : TokenUsage
default_usage = record { input_tokens = 0; output_tokens = 0; total_tokens = 0 }

pub record ModelResponse : Type 0 where
  pub provider : ProviderId
  pub model : String
  pub output : List OutputItem
  pub stop_reason : StopReason
  pub usage : TokenUsage
