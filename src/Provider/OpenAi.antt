-- ===== src/Provider/OpenAi.antt =====
-- fprovider/src/adapters: the providers that speak OpenAI's interface.
pub mod Types
pub mod Api
pub mod Sse
pub mod Transport
pub mod Responses
pub mod Payload
pub mod WebSocket
pub mod Adapters
