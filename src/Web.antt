-- ===== src/Web.antt =====
-- apps/jit-worker/src/web_access.rs: the worker's requests to public hosts.
pub mod Addresses
pub mod Pages
pub mod Requests
pub mod Documents
