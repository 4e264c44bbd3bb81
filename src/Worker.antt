-- ===== src/Worker.antt =====
-- apps/jit-worker/src: the worker that turns a claimed job into a published tool.
pub mod Types
pub mod Outside
pub mod Act
pub mod Errors
pub mod Json
pub mod Rules
pub mod Calls
pub mod Evaluate
pub mod Tools
pub mod Agent
pub mod Synthesis
