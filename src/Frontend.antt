-- ===== src/Frontend.antt =====
-- The frontend service (services/frontend/enclave/src/service.rs and error.rs): it has the
-- authentication service check who asks, and hands the request on to the management service.
pub mod Service
pub mod Requests
pub mod Forwarding
