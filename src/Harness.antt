-- ===== src/Harness.antt =====
-- fharness: the harness that initializes a session and works through its feature list.
pub mod Error
pub mod Types
pub mod Features
pub mod Service
pub mod Initializer
pub mod Iteration
pub mod Run
