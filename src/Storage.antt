-- ===== src/Storage.antt =====
-- crates/jit-storage/src/lib.rs, with the tables of migrations/: the registry. A transaction is a
-- function of the tables (`Storage.Tx`); each child models one group of the registry's methods.
pub mod Schema
pub mod Tx
pub mod Rows
pub mod Frame
pub mod Trace
pub mod Events
pub mod Claim
pub mod Progress
pub mod Register
pub mod Inputs
pub mod Responses
pub mod Versions
pub mod Capabilities
pub mod Listing
pub mod References
pub mod Ops
pub mod Jobs
