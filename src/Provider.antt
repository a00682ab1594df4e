-- ===== src/Provider.antt =====
-- fprovider: the provider-agnostic request and response model, its errors, and retries.
pub mod Error
pub mod Model
pub mod Request
pub mod Stream
pub mod Registry
pub mod Credentials
pub mod OpenAi
pub mod Resilience
