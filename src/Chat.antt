-- ===== src/Chat.antt =====
-- fchat: chat turns over a provider, a conversation store and a tool runtime.
pub mod Error
pub mod Types
pub mod Store
pub mod Service
pub mod Turn
pub mod Streaming
