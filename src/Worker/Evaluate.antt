-- ===== src/Worker/Evaluate.antt =====
-- apps/jit-worker/src/jobs.rs: building a candidate, running it on the samples and the tests, publishing.
pub mod Numbers
pub mod Json
pub mod Runs
pub mod Judge
pub mod Publish
pub mod Passed
pub mod Published
pub mod Examples
