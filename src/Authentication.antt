-- ===== src/Authentication.antt =====
-- The authentication service (services/authentication/enclave/src): the users, the requests to
-- register and to log in, and the check of a token for the frontend.
pub mod Users
pub mod Requests
pub mod Login
