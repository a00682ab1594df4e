-- ===== src/Tooling.antt =====
-- ftooling: tools, their registry and the runtime that executes a model's tool calls.
pub mod Error
pub mod Types
pub mod Registry
pub mod Runtime
