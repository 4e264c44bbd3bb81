-- ===== src/Worker/Tools.antt =====
-- The agent's tools: apps/jit-worker/src/jobs.rs.
pub mod Contract
pub mod Source
pub mod Review
pub mod Asking
pub mod Web
pub mod Http
pub mod Execute
pub mod Kept
pub mod Counted
pub mod Probed
pub mod Budgets
pub mod Published
pub mod UserTests
