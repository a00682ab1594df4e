-- ===== src/Memory.antt =====
-- fmemory: the durable records of a session, the backend interface and the backend in memory.
pub mod Error
pub mod Types
pub mod Backend
pub mod InMemory
pub mod Calls
pub mod Persisted
pub mod Filesystem
pub mod Adapter
pub mod Laws
