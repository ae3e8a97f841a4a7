-- ===== src/Management.antt =====
-- The management service (services/management/enclave/src).
pub mod Requests
pub mod Db
pub mod Files
pub mod Tasks
